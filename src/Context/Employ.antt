-- ===== src/Context/Employ.antt =====
-- Packages in use: `insertEmployed` of src/Spock/Context.C.
use rmc_spock.Base.{
  ◌≡◌, refl, ap, ◌∙◌, ◌⊎◌, inl, inr, true, false, List, [], ◌∷◌, ◌++◌, Text, codes, text_eq_refl,
  Bool-cases, ok, arith,
}
use rmc_spock.Libraries.{Libraries}
use rmc_spock.Libraries.Laws.{MapLaws}
use rmc_spock.Package.{Package, Kind, installed, ghost, is_installed, is_installed_kind, to_string}
use rmc_spock.PackageLists.{Packages}
use rmc_spock.Environment.{Environment, prepend_nodes, prepend_environment}
use rmc_spock.Environment.Unique.{append_unique_lem, prepend_unique_lem}
use rmc_spock.Context.{
  EnvStackItem, Context, with_stack, employed, search_paths, among, is_employed, employ_at,
  insert_employed,
}

module _ ⦃lib : Libraries⦄ (laws : MapLaws (lib.maps Text)) where
  prepend_nodes-ok :
      (env : Environment) (nodes : List (Text × Text))
      → (after : Environment) × (prepend_nodes env nodes ≡ ok after)
  unfolding prepend_nodes
  prepend_nodes-ok env [] = (env, refl)
  prepend_nodes-ok env ((name, value) ∷ nodes) =
      let one = prepend_unique_lem laws env name value (codes ":") refl in
      let (after, f) = prepend_nodes-ok one.0 nodes in (after, rw (one.4, f) refl)

  search_paths-ok :
      (k : Kind) → is_installed_kind k ≡ true → (paths : Environment) × (search_paths k ≡ ok paths)
  search_paths-ok (installed i) h = (i.environment_search_paths, refl)
  search_paths-ok (ghost g) h = cc

  employ_at_lem :
      (top : EnvStackItem) (pkg : Package)
      → is_installed pkg ≡ true
      → (changed : EnvStackItem) × (employ_at top pkg ≡ ok changed)
        × (changed.packages ≡ top.packages ++ (pkg ∷ []))
  unfolding employ_at prepend_environment
  employ_at_lem top pkg h =
      let (paths, p) = search_paths-ok pkg.kind h in
      let (extended, e) = prepend_nodes-ok top.variables ((lib.maps Text).nodes paths) in
      let one =
        append_unique_lem laws extended (codes "SPOCK_EMPLOYED") pkg.hash (codes ":") refl in
      (
        record { packages = top.packages ++ (pkg ∷ []); variables = one.0 },
        rw (p, e, one.4) refl,
        refl,
      )

  among-snoc : (pkg : Package) (ps : Packages) → among pkg (ps ++ (pkg ∷ [])) ≡ true
  among-snoc pkg [] = ground (arith, text_eq_refl (to_string pkg))
  among-snoc pkg (p ∷ ps) = ground (arith, among-snoc pkg ps)

  is_employed-among :
      (ctx : Context) (top : EnvStackItem) (rest : List EnvStackItem) (pkg : Package)
      → is_installed pkg ≡ true
      → is_employed (with_stack ctx (top ∷ rest)) pkg ≡ ok (among pkg top.packages)
  unfolding is_employed employed
  is_employed-among ctx top rest pkg h = rw (is_employed, h) refl

  -- On a stack that is not empty `insertEmployed` of an installed package returns. Below the top the
  -- stack is as before. The package is in use then, and the packages in use are those before or, if
  -- none of them was printed as the package is, those before and the package.
  pub insert_employed_lem :
      (ctx : Context) (top : EnvStackItem) (rest : List EnvStackItem) (pkg : Package)
      → is_installed pkg ≡ true
      → (changed : EnvStackItem) × (insert_employed (with_stack ctx (top ∷ rest)) pkg
          ≡ ok (with_stack ctx (changed ∷ rest)))
        × (is_employed (with_stack ctx (changed ∷ rest)) pkg ≡ ok true)
        × ((changed.packages ≡ top.packages)
            ⊎ ((among pkg top.packages ≡ false) × (changed.packages ≡ top.packages ++ (pkg ∷ []))))
  unfolding insert_employed
  insert_employed_lem ctx top rest pkg h =
      let before = is_employed-among ctx top rest pkg h in
      elim (Bool-cases (among pkg top.packages)) [
        | inl e ↦ (top, rw (h, before, e) refl, before ∙ ap ok e, inl refl)
        | inr e ↦
            let (changed, f, g) = employ_at_lem top pkg h in
            (
              changed,
              rw (h, before, e, f) refl,
              is_employed-among ctx changed rest pkg h
                  ∙ ap ok (ap (among pkg) g ∙ among-snoc pkg top.packages),
              inr (e, g),
            )
      ]
