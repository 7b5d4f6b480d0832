-- ===== src/Solver/Tighten.antt =====
-- How requirements are passed on as the constraints of src/Spock/Solver.C are tightened, and what
-- follows from the results of `appendConstraint` for the packages that it was given.
use rmc_spock.Base.{
  ◌≡◌, refl, sym, ap, subst, subst⁻¹, ◌∙◌, ◌⊎◌, inl, inr, [], ◌∷◌, ◌++◌, Text, All, All-append,
  All-left, All-right, In, In-left, In-middle, In-cases,
}
use rmc_spock.Libraries.{Libraries}
use rmc_spock.Package.{Package, Kind, Ghost, installed, ghost}
use rmc_spock.PackageLists.{Packages}
use rmc_spock.Solver.Constraint.{Appended}
use rmc_spock.Solver.Relation.{
  IsConsistent, IsConsistent-snoc, Meets, MeetsKind, Keeps, KeepsKind, IsSound,
}
use rmc_spock.Solver.Results.{AppendSpec, refused, added, present, tightened}

module _ ⦃lib : Libraries⦄ where
  MeetsKind-trans :
      (a b c : Text) (k : Kind) (h : Ghost) (l : Kind)
      → MeetsKind a k b (ghost h)
      → MeetsKind b (ghost h) c l
      → MeetsKind a k c l
  MeetsKind-trans a b c (installed i) h (installed j) m n = absurd n
  MeetsKind-trans a b c (installed i) h (ghost g) m n = n i.version m
  MeetsKind-trans a b c (ghost f) h (installed j) m n = n
  MeetsKind-trans a b c (ghost f) h (ghost g) m n = λ v x. n v (m v x)

  Keeps-Meets_kind :
      (r q p : Package) (k : Kind) → q.kind ≡ k → KeepsKind r q k → Meets q p → Meets r p
  Keeps-Meets_kind r q p (installed i) e same m = subst (λ x. Meets x p) (sym same) m
  Keeps-Meets_kind r q p (ghost h) e (n, m) (n', m') = (
    n ∙ n',
    MeetsKind-trans r.hash q.hash p.hash r.kind h p.kind
        (subst (λ k. MeetsKind r.hash r.kind q.hash k) e m)
        (subst (λ k. MeetsKind q.hash k p.hash p.kind) e m'),
  )

  -- What meets a requirement still does when it is tightened.
  pub Keeps-Meets : (r q p : Package) → Keeps r q → Meets q p → Meets r p
  Keeps-Meets r q p = Keeps-Meets_kind r q p q.kind refl

  Keeps-trans_kind :
      (r q p : Package) (k : Kind) → p.kind ≡ k → Keeps r q → KeepsKind q p k → KeepsKind r p k
  Keeps-trans_kind r q p (installed i) e keep same =
      subst (KeepsKind r p) e (subst (Keeps r) same keep)
  Keeps-trans_kind r q p (ghost g) e keep meets = Keeps-Meets r q p keep meets

  pub Keeps-trans : (r q p : Package) → Keeps r q → Keeps q p → Keeps r p
  Keeps-trans r q p = Keeps-trans_kind r q p p.kind refl

  MeetsKind-refl : (a : Text) (k : Kind) → MeetsKind a k a k
  MeetsKind-refl a (installed i) = refl
  MeetsKind-refl a (ghost g) = λ v m. m

  pub Meets-refl : (p : Package) → Meets p p
  Meets-refl p = (refl, MeetsKind-refl p.hash p.kind)

  Keeps_refl_kind : (p : Package) (k : Kind) → KeepsKind p p k
  Keeps_refl_kind p (installed i) = refl
  Keeps_refl_kind p (ghost g) = Meets-refl p

  pub Keeps-refl : (p : Package) → Keeps p p
  Keeps-refl p = Keeps_refl_kind p p.kind

  -- Some package of the list may stand where `c` stood.
  abbrev pub KeptIn : Packages → Package → Type 0
  KeptIn cs c = (q : Package) × In q cs × Keeps q c

  abbrev pub MetIn : Packages → Package → Type 0
  MetIn cs p = (q : Package) × In q cs × Meets q p

  -- What holds of constraints that are not empty after a package was appended: they are consistent
  -- and sound, they keep each constraint, and they meet the package.
  pub record AppendPost (cs : Packages) (pkg : Package) (ds : Packages) : Type 0 where
    pub consistent : IsConsistent ds
    pub sound : All IsSound ds
    pub kept : (c : Package) → In c cs → KeptIn ds c
    pub met : MetIn ds pkg

  replaced :
      (before after : Packages) (c new : Package)
      → Keeps new c
      → (a : Package) → In a (before ++ (c ∷ after))
      → KeptIn (before ++ (new ∷ after)) a
  replaced before after c new keep a m = elim (In-cases before c after a m) [
    | inl e ↦ (new, In-middle before new after, subst (Keeps new) (sym e) keep)
    | inr k ↦ (a, k new, Keeps-refl a)
  ]

  -- For consistent and sound constraints, every result of `appendConstraint` is empty or such.
  pub AppendSpec-post :
      (cs : Packages) (pkg : Package) (a : Appended)
      → IsConsistent cs
      → All IsSound cs
      → IsSound pkg
      → AppendSpec cs pkg a
      → (a.0 ≡ []) ⊎ AppendPost cs pkg a.0
  AppendSpec-post cs pkg a h s p (refused e clash) = inl (ap (λ x. x.0) e)
  AppendSpec-post cs pkg a h s p (added e new) = inr (
      subst⁻¹ (λ x. AppendPost cs pkg x.0) e
        (record {
          consistent = IsConsistent-snoc cs pkg h new;
          sound = All-append IsSound cs (pkg ∷ []) s (p, tt);
          kept = λ c m. (c, In-left cs c (pkg ∷ []) m, Keeps-refl c);
          met = (pkg, In-middle cs pkg [], Meets-refl pkg);
        }))
  AppendSpec-post cs pkg a h s p (present c e m meets) = inr (
      subst⁻¹ (λ x. AppendPost cs pkg x.0) e
        (record {
          consistent = h;
          sound = s;
          kept = λ d k. (d, k, Keeps-refl d);
          met = (c, m, meets);
        }))
  AppendSpec-post cs pkg a h s p (tightened before after c new e r ok_ds keep meets ok_new) =
      let s' = subst (All IsSound) e s in
      let behind = All-right IsSound before (c ∷ after) s' in
      inr (
        subst⁻¹ (λ x. AppendPost cs pkg x.0) r
          (record {
            consistent = ok_ds;
            sound =
                All-append IsSound before (new ∷ after) (All-left IsSound before (c ∷ after) s')
                  (ok_new, behind.1);
            kept = λ d m. replaced before after c new keep d (subst (In d) e m);
            met = (new, In-middle before new after, meets);
          }))
