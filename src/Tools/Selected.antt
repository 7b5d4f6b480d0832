-- ===== src/Tools/Selected.antt =====
-- What src/spock-ls.C and src/spock-rm.C list and remove.
use rmc_spock.Base.{
  Bool, true, false, not, ◌&&◌, List, [], ◌∷◌, ◌<◌, Text, text_eq, text_eq_iff, ltb, length,
  reverse, reverse-cons, OnOk, OnOk-bind, Outcome, ok, threw, aborted, exhausted, ◌>>=◌, All,
  All-In, All-sort_by, All-unique_by, In, In-left, In-right, ◌≡◌, ◌⊎◌, inl, inr, refl, sym, ap,
  subst, ◌∙◌, arith, Bool-cases, if_cases, if◌then◌else◌, sort_by,
}
use rmc_spock.Libraries.{Libraries}
use rmc_spock.Package.{Package, to_string}
use rmc_spock.PackageLists.{Packages}
use rmc_spock.Context.{Context, deregister}
use rmc_spock.Tools.Listing.{arranged, sort_by_name, same_name}
use rmc_spock.Tools.Removal.{
  is_removed, remove_each, Removal, refused, removed_all, remove_packages,
}
use rmc_spock.Tools.Order.{
  IsIncreasing, HasText, In-HasText, unique_by-IsIncreasing, arranged-HasText,
}

In-reverse : {A : Type 0} (x : A) (xs : List A) → In x xs → In x (reverse xs)
In-reverse x [] h = absurd h
In-reverse x (y ∷ ys) h = subst (In x) (sym (reverse-cons y ys)) (elim h [
  | inl e ↦ In-right (reverse ys) x (y ∷ []) (inl e)
  | inr k ↦ In-left (reverse ys) x (y ∷ []) (In-reverse x ys k)
])

module _ ⦃lib : Libraries⦄ where
  -- The packages that were found are arranged in the increasing order of their texts, so that no text
  -- occurs twice; each of the arranged packages was found, and the text of each package that was found is
  -- among theirs.
  pub arranged_lem :
      (pkgs : Packages)
      → IsIncreasing to_string (arranged pkgs)
        × All (λ pkg. In pkg pkgs) (arranged pkgs)
        × ((pkg : Package) → In pkg pkgs → HasText to_string (to_string pkg) (arranged pkgs))
  unfolding arranged
  arranged_lem pkgs = (
    unique_by-IsIncreasing to_string pkgs,
    All-unique_by (λ pkg. In pkg pkgs) same_name (sort_by sort_by_name pkgs)
        (All-sort_by (λ pkg. In pkg pkgs) sort_by_name pkgs
          (All-In (λ pkg. In pkg pkgs) pkgs (λ x m. m))),
    λ pkg m. arranged-HasText to_string (to_string pkg) pkgs (In-HasText to_string pkg pkgs m),
  )

  -- The texts of the packages are not among those given, and differ from one another.
  abbrev pub Fresh : List Text → Packages → Type 0
  Fresh removed [] = Unit {0}
  Fresh removed (pkg ∷ pkgs) =
      (is_removed (to_string pkg) removed ≡ false) × Fresh (to_string pkg ∷ removed) pkgs

  -- The packages are some of those of a list, in its order.
  abbrev pub IsPart : Packages → Packages → Type 0
  IsPart ps [] = ps ≡ []
  IsPart ps (q ∷ qs) = IsPart ps qs ⊎ ((more : Packages) × (ps ≡ q ∷ more) × IsPart more qs)

  -- The second context is what deregistering the packages, one after another, makes of the first.
  abbrev pub Deregistered : Context → Packages → Context → Type 0
  Deregistered ctx [] after = after ≡ ctx
  Deregistered ctx (pkg ∷ pkgs) after =
      (next : Context) × (deregister ctx pkg ≡ ok next) × Deregistered next pkgs after

  abbrev Removes : Bool → List Text → Context → Packages → Context × Packages → Type 0
  Removes dry_run removed ctx pkgs r =
      Fresh removed r.1
      × ((pkg : Package)
          → In pkg pkgs
          → (is_removed (to_string pkg) removed ≡ true) ⊎ HasText to_string (to_string pkg) r.1)
      × (dry_run ≡ true → r.0 ≡ ctx)
      × (dry_run ≡ false → Deregistered ctx r.1 r.0)
      × IsPart r.1 pkgs

  abbrev Stepped : Bool → Context → Outcome Context → Context → Type 0
  Stepped dry_run ctx o next = (dry_run ≡ true → next ≡ ctx) × (dry_run ≡ false → o ≡ ok next)

  OnOk-weaken :
      {A : Type 0} (P Q : A → Type 0) (m : Outcome A) → OnOk P m → ((a : A) → P a → Q a) → OnOk Q m
  OnOk-weaken P Q (ok a) h f = f a h
  OnOk-weaken P Q (threw e) h f = tt
  OnOk-weaken P Q aborted h f = tt
  OnOk-weaken P Q exhausted h f = tt

  stepped :
      (dry_run : Bool) (ctx : Context) (o : Outcome Context)
      → OnOk (Stepped dry_run ctx o) (if dry_run then ok ctx else o)
  stepped true ctx o = ((λ _. refl), λ e. cc)
  stepped false ctx (ok c) = ((λ e. cc), λ _. refl)
  stepped false ctx (threw x) = tt
  stepped false ctx aborted = tt
  stepped false ctx exhausted = tt

  among_cases :
      (s t : Text) (removed : List Text) (pkgs : Packages) (pkg : Package)
      → t ≡ to_string pkg
      → is_removed s (t ∷ removed) ≡ true
      → (is_removed s removed ≡ true) ⊎ HasText to_string s (pkg ∷ pkgs)
  among_cases s t removed pkgs pkg e h = elim (Bool-cases (text_eq s t)) [
    | inl equal ↦ inr (inl ((text_eq_iff s t).0 equal ∙ e))
    | inr differ ↦ inl (ground arith)
  ]

  abbrev pub Described : Bool → Bool → Context → Packages → Removal → Type 0
  Described dry_run use_force ctx to_remove refused =
      (1 < length to_remove) × (use_force ≡ false) × (dry_run ≡ false)
  Described dry_run use_force ctx to_remove (removed_all next pkgs) =
      Fresh [] pkgs
      × ((pkg : Package) → In pkg to_remove → HasText to_string (to_string pkg) pkgs)
      × (dry_run ≡ true → next ≡ ctx)
      × (dry_run ≡ false → Deregistered ctx pkgs next)
      × IsPart pkgs (reverse to_remove)
      × (1 < length to_remove → use_force ≡ false → dry_run ≡ true)

  remove_each_lem :
      (dry_run : Bool) (removed : List Text) (ctx : Context) (pkgs : Packages)
      → OnOk (Removes dry_run removed ctx pkgs) (remove_each dry_run removed ctx pkgs)
  unfolding remove_each
  remove_each_lem dry_run removed ctx [] = (tt, (λ pkg m. absurd m), (λ _. refl), (λ _. refl), refl)
  remove_each_lem dry_run removed ctx (pkg ∷ pkgs) =
      let t = to_string pkg in
      let P = Removes dry_run removed ctx (pkg ∷ pkgs) in
      let step = (if dry_run then ok ctx else deregister ctx pkg) in
      let taken = λ (next : Context). (do
        rest ← remove_each dry_run (t ∷ removed) next pkgs
        ok (rest.0, pkg ∷ rest.1)) in
      let same = remove_each_lem dry_run removed ctx pkgs in
      let other = λ (next : Context). remove_each_lem dry_run (t ∷ removed) next pkgs in
      if_cases (OnOk P) (is_removed t removed) (remove_each dry_run removed ctx pkgs)
        (step >>= taken)
        (λ known.
          OnOk-weaken (Removes dry_run removed ctx pkgs) P (remove_each dry_run removed ctx pkgs)
            same
            (λ r k. (
              k.0,
              (λ p m. elim m [
                | inl e ↦ inl (subst (λ q. is_removed (to_string q) removed ≡ true) (sym e) known)
                | inr n ↦ k.1 p n
              ]),
              k.2,
              k.3,
              inl k.4,
            )))
        (λ new.
          OnOk-bind (Stepped dry_run ctx (deregister ctx pkg)) P step taken
            (stepped dry_run ctx (deregister ctx pkg))
            (λ next (dry, wet).
              OnOk-bind (Removes dry_run (t ∷ removed) next pkgs) P
                (remove_each dry_run (t ∷ removed) next pkgs) (λ rest. ok (rest.0, pkg ∷ rest.1))
                (other next)
                (λ r k. (
                  (new, k.0),
                  (λ p m. elim m [
                    | inl e ↦ inr (inl (ap to_string e))
                    | inr n ↦ elim (k.1 p n) [
                      | inl among ↦ among_cases (to_string p) t removed r.1 pkg refl among
                      | inr has ↦ inr (inr has)
                    ]
                  ]),
                  (λ d. k.2 d ∙ dry d),
                  (λ d. (next, wet d, k.3 d)),
                  inr (r.1, refl, k.4),
                ))))

  -- A removal is refused exactly for more than one package, without force, and not in a dry run. Otherwise
  -- the packages that it takes are some of those to be removed, in the reverse order; their texts differ;
  -- and for each package that was to be removed one has its text. In a dry run the context stays as it is,
  -- else it is what deregistering those packages one after another makes of it.
  pub remove_packages_lem :
      (dry_run use_force : Bool) (ctx : Context) (to_remove : Packages)
      → OnOk
          (Described dry_run use_force ctx to_remove)
          (remove_packages dry_run use_force ctx to_remove)
  unfolding remove_packages
  remove_packages_lem dry_run use_force ctx to_remove =
      let P = Described dry_run use_force ctx to_remove in
      let removing = (do
        r ← remove_each dry_run [] ctx (reverse to_remove)
        ok (removed_all r.0 r.1)) in
      if_cases (OnOk P) (ltb 1 (length to_remove) && (not use_force && not dry_run)) (ok refused)
        removing (λ many. (ground arith, ground arith, ground arith))
        (λ allowed.
          OnOk-bind (Removes dry_run [] ctx (reverse to_remove)) P
            (remove_each dry_run [] ctx (reverse to_remove)) (λ r. ok (removed_all r.0 r.1))
            (remove_each_lem dry_run [] ctx (reverse to_remove))
            (λ r k. (
              k.0,
              (λ p m. elim (k.1 p (In-reverse p to_remove m)) [ inl e ↦ cc | inr h ↦ h ]),
              k.2,
              k.3,
              k.4,
              (λ many weak. ground arith),
            )))
