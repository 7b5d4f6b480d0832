-- ===== src/Solver/Relation.antt =====
-- What it means that packages can be used together and that one package meets the requirement which
-- another stands for: the terms in which src/Spock/Solver.C describes `appendConstraint`.
use rmc_spock.Base.{
  ℕ, ◌≡◌, refl, subst⁻¹, aborted, Bool, Bool-cases, inl, inr, true, false, List, [], ◌∷◌, ◌++◌,
  Text, All-map, All-zip, All-In, text_eq, is_empty, all, All, All-append, In, ok, arith,
}
use rmc_spock.Libraries.{VersionNumber, Libraries}
use rmc_spock.Libraries.Laws.{SetLaws}
use rmc_spock.Definition.{is_supported_version}
use rmc_spock.Package.{Package, Kind, Ghost, installed, ghost, names_in_common, ghost_with_versions}
use rmc_spock.PackageLists.{Packages}

module _ ⦃lib : Libraries⦄ where
  -- Two packages of different names with no name or alias in common, `q` being the newer.
  abbrev pub Compatible : Package → Package → Type 0
  Compatible q p =
      (text_eq q.name p.name ≡ false) × (lib.texts.is_empty (names_in_common q p) ≡ true)

  -- Each package of the list is compatible with those before it.
  abbrev pub IsConsistent : Packages → Type 0
  IsConsistent [] = Unit {0}
  IsConsistent (p ∷ ps) = All (λ q. Compatible q p) ps × IsConsistent ps

  abbrev pub MeetsKind : Text → Kind → Text → Kind → Type 0
  MeetsKind a (installed i) b (installed j) = a ≡ b
  MeetsKind a (installed i) b (ghost g) = lib.versions.exists g.versions i.version ≡ true
  MeetsKind a (ghost h) b (installed j) = ⊥
  MeetsKind a (ghost h) b (ghost g) =
      (v : VersionNumber)
      → lib.versions.exists h.versions v ≡ true
      → lib.versions.exists g.versions v ≡ true

  -- `q` has the name of `p` and is a choice that `p` allows: the same installation, or one of the
  -- versions of a ghost.
  abbrev pub Meets : Package → Package → Type 0
  Meets q p = (q.name ≡ p.name) × MeetsKind q.hash q.kind p.hash p.kind

  abbrev pub KeepsKind : Package → Package → Kind → Type 0
  KeepsKind q p (installed i) = q ≡ p
  KeepsKind q p (ghost g) = Meets q p

  -- `q` may stand where `p` stood: an installed package stays what it is.
  abbrev pub Keeps : Package → Package → Type 0
  Keeps q p = KeepsKind q p p.kind

  -- What the constructors of ghosts assert.
  abbrev pub IsSoundKind : Package → Kind → Type 0
  IsSoundKind p (installed i) = Unit {0}
  IsSoundKind p (ghost g) =
      (is_empty p.name ≡ false)
      × (is_empty g.definition.name ≡ false)
      × ((v : VersionNumber)
          → In v (lib.versions.values g.versions)
          → is_supported_version g.definition v ≡ true)

  abbrev pub IsSound : Package → Type 0
  IsSound p = IsSoundKind p p.kind

  pub IsConsistent-snoc :
      (ps : Packages) (q : Package)
      → IsConsistent ps
      → All (Compatible q) ps
      → IsConsistent (ps ++ (q ∷ []))
  IsConsistent-snoc [] q h a = (tt, tt)
  IsConsistent-snoc (p ∷ ps) q h a =
      (All-append (λ r. Compatible r p) ps (q ∷ []) h.0 (a.0, tt), IsConsistent-snoc ps q h.1 a.1)

  -- The packages of `rest` are compatible with those of `kept` and with one another.
  abbrev pub Behind : Packages → Packages → Type 0
  Behind kept rest = All (λ d. All (Compatible d) kept) rest × IsConsistent rest

  pub Behind-nil : (rest : Packages) → IsConsistent rest → Behind [] rest
  Behind-nil rest h = (All-In _ rest (λ d m. tt), h)

  pub Behind-step :
      (kept : Packages) (c : Package) (rest : Packages)
      → Behind kept (c ∷ rest)
      → Behind (kept ++ (c ∷ [])) rest
  Behind-step kept c rest (h, k) =
      (All-zip (λ d a b. All-append (Compatible d) kept (c ∷ []) a (b, tt)) rest h.1 k.0, k.1)

  pub IsConsistent-append :
      (kept rest : Packages) → IsConsistent kept → Behind kept rest → IsConsistent (kept ++ rest)
  IsConsistent-append [] rest h b = b.1
  IsConsistent-append (k ∷ kept) rest h b = (
    All-append _ kept rest h.0 (All-map (λ d a. a.0) rest b.0),
    IsConsistent-append kept rest h.1 (All-map (λ d a. a.1) rest b.0, b.1),
  )

  Keeps-refl : (p : Package) (k : Kind) → p.kind ≡ k → KeepsKind p p k
  Keeps-refl p (installed i) e = refl
  Keeps-refl p (ghost g) e = (refl, rw e (λ v h. h))

  -- A package of the same name and aliases is compatible with the same packages.
  pub Compatible-rename :
      (q p e : Package) → q.name ≡ p.name → q.aliases ≡ p.aliases → Compatible p e → Compatible q e
  unfolding names_in_common
  Compatible-rename q p e n a h = rw (n, a) h

  pub all_at :
      (p : VersionNumber → Bool) (vs : List VersionNumber)
      → all p vs ≡ true
      → (v : VersionNumber) → In v vs
      → p v ≡ true
  all_at p (w ∷ vs) e v (inl same) = subst⁻¹ (λ x. p x ≡ true) same (ground (arith, e))
  all_at p (w ∷ vs) e v (inr m) = all_at p vs (ground (arith, e)) v m
  all_at p [] e v m = absurd m

  pub all_fails :
      (p : VersionNumber → Bool) (vs : List VersionNumber)
      → all p vs ≡ false
      → (v : VersionNumber) × In v vs × (p v ≡ false)
  all_fails p [] e = cc
  all_fails p (w ∷ vs) e = elim (Bool-cases (p w)) [
    | inl h ↦ let (v, m, f) = all_fails p vs (ground (arith, e, h)) in (v, inr m, f)
    | inr f ↦ (w, inl refl, f)
  ]

  module _ (laws : SetLaws lib.versions) where
    open laws use {exists_all_iff}

    -- Fewer versions of a sound ghost make a ghost under the same name and aliases, if its definition
    -- supports each of them as it is spelled.
    pub ghost_with_versions_lem :
        (address : ℕ) (c : Package) (h : Ghost) (vs : lib.versions.Carrier)
        → IsSoundKind c (ghost h)
        → lib.versions.is_empty vs ≡ false
        → ((v : VersionNumber)
            → lib.versions.exists vs v ≡ true
            → lib.versions.exists h.versions v ≡ true)
        → all (is_supported_version h.definition) (lib.versions.values vs) ≡ true
        → ghost_with_versions address c h vs
          ≡ ok (record {
            address = address;
            hash = [];
            name = c.name;
            aliases = c.aliases;
            kind = ghost (record { definition = h.definition; versions = vs });
          })
    unfolding ghost_with_versions
    ghost_with_versions_lem address c h vs sound some sub supported =
        rw (some, (exists_all_iff h.versions vs).1 sub, supported, sound.1, sound.0) refl

    -- Otherwise the assertion of the constructor fails.
    pub ghost_with_versions_unsupported :
        (address : ℕ) (c : Package) (h : Ghost) (vs : lib.versions.Carrier)
        → lib.versions.is_empty vs ≡ false
        → ((v : VersionNumber)
            → lib.versions.exists vs v ≡ true
            → lib.versions.exists h.versions v ≡ true)
        → all (is_supported_version h.definition) (lib.versions.values vs) ≡ false
        → ghost_with_versions address c h vs ≡ aborted
    unfolding ghost_with_versions
    ghost_with_versions_unsupported address c h vs some sub unsupported =
        rw (some, (exists_all_iff h.versions vs).1 sub, unsupported) refl
