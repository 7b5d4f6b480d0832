-- ===== src/Solver/Triple.antt =====
-- Proof rules for actions of the solver: an invariant of the fields that the search changes, which
-- holds however an action ends, and a condition on the value that it returns.
use rmc_spock.Base.{
  inl, inr, OnOk, Option, none, some, ℕ, zero, suc, ◌≡◌, refl, ap, subst⁻¹, ◌⊎◌, Bool, true, false,
  not, List, [], ◌∷◌, ◌++◌, Text, All, length, text_eq, Outcome, ok, threw, aborted, exhausted,
  is_empty, if◌then◌else◌,
}
use rmc_spock.Libraries.{Libraries}
use rmc_spock.Libraries.Laws.{SetLaws}
use rmc_spock.Package.{
  Package, Kind, installed, ghost, names_in_common, is_valid_version, ghost_with_versions,
}
use rmc_spock.PackageLists.{Packages}
use rmc_spock.Solver.State.{Solver, M, pure, and_then, ◌>>=◌, lift, insert_message, new_address}
use rmc_spock.Solver.Constraint.{
  Appended, refuse, revalidate, meet_kinds, scan, append_within, append_constraint, overlap_message,
  conflict_message, disjoint_message, unmatched_message,
}
use rmc_spock.Solver.Relation.{IsConsistent, IsSound}
use rmc_spock.Solver.Append.{append_constraint_lem}
use rmc_spock.Solver.Tighten.{AppendPost, AppendSpec-post}

module _ ⦃lib : Libraries⦄ where
  -- An invariant over the limit, the kind of solutions and the solutions.
  abbrev pub Fields : Type 1
  Fields = ℕ → Bool → List Packages → Type 0

  abbrev pub At : Fields → Solver → Type 0
  At J s = J s.max_solutions s.full_solutions s.solutions

  -- The invariant is kept, and the value satisfies `Q` if the action returns one.
  pub record Ensures {A : Type 0} (J : Fields) (m : M A) (Q : A → Type 0) : Type 0 where
    pub run : (s : Solver) → At J s → At J (m s).1 × OnOk Q (m s).0

  abbrev pub Any : {A : Type 0} → A → Type 0
  Any a = Unit {0}

  pub OnOk-Any : {A : Type 0} (r : Outcome A) → OnOk Any r
  OnOk-Any (ok a) = tt
  OnOk-Any (threw e) = tt
  OnOk-Any aborted = tt
  OnOk-Any exhausted = tt

  -- From some state the action returns the value.

  module _ (J : Fields) where
    and_then_rule :
        {A B : Type 0} (Q : A → Type 0) (R : B → Type 0) (r : Outcome A) (f : A → M B) (s : Solver)
        → At J s
        → OnOk Q r
        → ((a : A) → Q a → Ensures J (f a) R)
        → At J (and_then r f s).1 × OnOk R (and_then r f s).0
    and_then_rule Q R (ok a) f s i q h = (h a q).run s i
    and_then_rule Q R (threw e) f s i q h = (i, tt)
    and_then_rule Q R aborted f s i q h = (i, tt)
    and_then_rule Q R exhausted f s i q h = (i, tt)

    pub bind_rule :
        {A B : Type 0} (Q : A → Type 0) (R : B → Type 0) (m : M A) (f : A → M B)
        → Ensures J m Q
        → ((a : A) → Q a → Ensures J (f a) R)
        → Ensures J (m >>= f) R
    bind_rule Q R m f h k = record {
      run = λ s i. let (j, q) = h.run s i in and_then_rule Q R (m s).0 f (m s).1 j q k;
    }

    pub pure_rule : {A : Type 0} (Q : A → Type 0) (a : A) → Q a → Ensures J (pure a) Q
    pure_rule Q a q = record { run = λ s i. (i, q) }

    pub lift_rule : {A : Type 0} (Q : A → Type 0) (r : Outcome A) → OnOk Q r → Ensures J (lift r) Q
    lift_rule Q r q = record { run = λ s i. (i, q) }

    pub elim_rule :
        {A : Type 0} (Q : A → Type 0) (b : Bool) (m n : M A)
        → (b ≡ true → Ensures J m Q)
        → (b ≡ false → Ensures J n Q)
        → Ensures J (elim b [ true ↦ m | false ↦ n ]) Q
    elim_rule Q true m n h k = h refl
    elim_rule Q false m n h k = k refl

    -- `bind_rule` for a single state.
    pub bind_run :
        {A B : Type 0} (Q : A → Type 0) (R : B → Type 0) (m : M A) (f : A → M B) (s : Solver)
        → At J (m s).1 × OnOk Q (m s).0
        → ((a : A) → Q a → Ensures J (f a) R)
        → At J ((m >>= f) s).1 × OnOk R ((m >>= f) s).0
    bind_run Q R m f s (j, q) k = and_then_rule Q R (m s).0 f (m s).1 j q k

    OnOk-both :
        {A : Type 0} (Q R : A → Type 0) (r : Outcome A)
        → OnOk Q r
        → OnOk R r
        → OnOk (λ a. Q a × R a) r
    OnOk-both Q R (ok a) q r = (q, r)
    OnOk-both Q R (threw e) q r = tt
    OnOk-both Q R aborted q r = tt
    OnOk-both Q R exhausted q r = tt

    pub both_rule :
        {A : Type 0} (Q R : A → Type 0) (m : M A)
        → Ensures J m Q
        → Ensures J m R
        → Ensures J m (λ a. Q a × R a)
    both_rule Q R m h k = record {
      run = λ s i. ((h.run s i).0, OnOk-both Q R (m s).0 (h.run s i).1 (k.run s i).1);
    }

    known_run :
        {A B : Type 0} (R : B → Type 0) (r : Outcome A) (f : A → M B) (t : Solver)
        → At J t
        → ((a : A) → r ≡ ok a → At J (f a t).1 × OnOk R (f a t).0)
        → At J (and_then r f t).1 × OnOk R (and_then r f t).0
    known_run R (ok a) f t j k = k a refl
    known_run R (threw e) f t j k = (j, tt)
    known_run R aborted f t j k = (j, tt)
    known_run R exhausted f t j k = (j, tt)

    -- The same with the value that the first action returned.
    pub bind_known :
        {A B : Type 0} (R : B → Type 0) (m : M A) (f : A → M B) (s : Solver)
        → At J (m s).1
        → ((a : A) → (m s).0 ≡ ok a → At J (f a (m s).1).1 × OnOk R (f a (m s).1).0)
        → At J ((m >>= f) s).1 × OnOk R ((m >>= f) s).0
    bind_known R m f s j k = known_run R (m s).0 f (m s).1 j k

    pub elim_run :
        {A : Type 0} (Q : A → Type 0) (b : Bool) (m n : M A) (s : Solver)
        → (b ≡ true → At J (m s).1 × OnOk Q (m s).0)
        → (b ≡ false → At J (n s).1 × OnOk Q (n s).0)
        → At J ((elim b as (λ x. M A) [ true ↦ m | false ↦ n ]) s).1
          × OnOk Q ((elim b as (λ x. M A) [ true ↦ m | false ↦ n ]) s).0
    elim_run Q true m n s h k = h refl
    elim_run Q false m n s h k = k refl

    pub option_rule :
        {A B : Type 0} (Q : A → Type 0) (o : Option B) (m : M A) (f : B → M A)
        → Ensures J m Q
        → ((b : B) → Ensures J (f b) Q)
        → Ensures J (elim o [ none ↦ m | some b ↦ f b ]) Q
    option_rule Q none m f h k = h
    option_rule Q (some b) m f h k = k b

    pub if_rule :
        {A : Type 0} (Q : A → Type 0) (b : Bool) (m n : M A)
        → (b ≡ true → Ensures J m Q)
        → (b ≡ false → Ensures J n Q)
        → Ensures J (if b then m else n) Q
    if_rule Q true m n h k = h refl
    if_rule Q false m n h k = k refl

    OnOk-weaken :
        {A : Type 0} (Q R : A → Type 0) (r : Outcome A)
        → OnOk Q r
        → ((a : A) → Q a → R a)
        → OnOk R r
    OnOk-weaken Q R (ok a) q f = f a q
    OnOk-weaken Q R (threw e) q f = tt
    OnOk-weaken Q R aborted q f = tt
    OnOk-weaken Q R exhausted q f = tt

    pub weaken_rule :
        {A : Type 0} (Q R : A → Type 0) (m : M A)
        → Ensures J m Q
        → ((a : A) → Q a → R a)
        → Ensures J m R
    weaken_rule Q R m h f = record {
      run = λ s i. let (j, q) = h.run s i in (j, OnOk-weaken Q R (m s).0 q f);
    }

    pub message_rule : (mesg : Text) → Ensures J (insert_message mesg) Any
    unfolding insert_message
    message_rule mesg = record { run = λ s i. (i, tt) }

    pub address_rule : Ensures J new_address Any
    unfolding new_address
    address_rule = record { run = λ s i. (i, tt) }

    abbrev pub Quiet : {A : Type 0} → M A → Type 0
    Quiet m = Ensures J m Any

    pub Quiet-value : {A : Type 0} (a : A) → Quiet (pure a)
    Quiet-value a = pure_rule Any a tt

    refuse-Quiet : (mesg : Text) → Quiet (refuse mesg)
    unfolding refuse
    refuse-Quiet mesg =
        bind_rule Any Any (insert_message mesg) _ (message_rule mesg)
          (λ a q. Quiet-value {A = Appended} ([], false))

    module _ (again : Packages → Package → M Appended)
        (quiet : (cs : Packages) (p : Package) → Quiet (again cs p)) where
      revalidate-Quiet : (kept rest : Packages) → Quiet (revalidate again kept rest)
      unfolding revalidate
      revalidate-Quiet kept [] = Quiet-value kept
      revalidate-Quiet kept (d ∷ rest) = bind_rule Any Any (again kept d) _ (quiet kept d) (λ r q.
          elim_rule Any (is_empty r.0) (pure []) _ (λ e. Quiet-value [])
            (λ e. revalidate-Quiet r.0 rest))

      finish-Quiet :
          (kept rest : Packages) (need : Packages → Bool)
          → Quiet {A = Appended} (do cs ← revalidate again kept rest; pure (cs, need cs))
      finish-Quiet kept rest need =
          bind_rule Any Any (revalidate again kept rest) _ (revalidate-Quiet kept rest)
            (λ cs q. Quiet-value {A = Appended} (cs, need cs))

      meet_kinds-Quiet :
          (pkg : Package) (k : Kind) (c : Package) (l : Kind) (kept rest : Packages)
          → Quiet (meet_kinds again pkg k c l kept rest)
      unfolding meet_kinds
      meet_kinds-Quiet pkg (installed i) c (installed j) kept rest =
          if_rule Any (text_eq pkg.hash c.hash) (pure {A = Appended} (kept ++ (c ∷ rest), false))
            (refuse (conflict_message pkg c))
            (λ e. Quiet-value {A = Appended} (kept ++ (c ∷ rest), false))
            (λ e. refuse-Quiet (conflict_message pkg c))
      meet_kinds-Quiet pkg (ghost g) c (ghost h) kept rest =
          let vs = lib.versions.meet g.versions h.versions in
          if_rule Any (lib.versions.same vs h.versions)
            (pure {A = Appended} (kept ++ (c ∷ rest), false)) _
            (λ e. Quiet-value {A = Appended} (kept ++ (c ∷ rest), false))
            (λ e.
              if_rule Any (not (lib.versions.is_empty vs)) _ (refuse (disjoint_message pkg c))
                (λ e'. bind_rule Any Any new_address _ address_rule (λ address q.
                  bind_rule Any Any (lift (ghost_with_versions address c h vs)) _
                    (lift_rule Any (ghost_with_versions address c h vs)
                      (OnOk-Any (ghost_with_versions address c h vs)))
                    (λ new q'. finish-Quiet (kept ++ (new ∷ [])) rest (λ cs. false))))
                (λ e'. refuse-Quiet (disjoint_message pkg c)))
      meet_kinds-Quiet pkg (installed i) c (ghost h) kept rest =
          if_rule Any (is_valid_version h i.version) _ (refuse (unmatched_message pkg h))
            (λ e. finish-Quiet (kept ++ (pkg ∷ [])) rest (λ cs. not (is_empty cs)))
            (λ e. refuse-Quiet (unmatched_message pkg h))
      meet_kinds-Quiet pkg (ghost g) c (installed j) kept rest =
          if_rule Any (is_valid_version g j.version) _ (refuse (unmatched_message c g))
            (λ e. finish-Quiet (kept ++ (c ∷ [])) rest (λ cs. false))
            (λ e. refuse-Quiet (unmatched_message c g))

      scan-Quiet : (pkg : Package) (kept cs : Packages) → Quiet (scan again pkg kept cs)
      unfolding scan
      scan-Quiet pkg kept [] = Quiet-value {A = Appended} (kept ++ (pkg ∷ []), true)
      scan-Quiet pkg kept (c ∷ rest) =
          elim_rule Any (text_eq pkg.name c.name) _ _
            (λ e. meet_kinds-Quiet pkg pkg.kind c c.kind kept rest)
            (λ e.
              elim_rule Any (lib.texts.is_empty (names_in_common pkg c)) _ _
                (λ e'. scan-Quiet pkg (kept ++ (c ∷ [])) rest)
                (λ e'. refuse-Quiet (overlap_message pkg c)))

    append_within-Quiet : (f : ℕ) (cs : Packages) (pkg : Package) → Quiet (append_within f cs pkg)
    unfolding append_within
    append_within-Quiet zero cs pkg = lift_rule Any exhausted tt
    append_within-Quiet (suc f) cs pkg =
        scan-Quiet (append_within f) (append_within-Quiet f) pkg [] cs

    pub Quiet-append : (cs : Packages) (pkg : Package) → Quiet (append_constraint cs pkg)
    unfolding append_constraint
    Quiet-append cs pkg = append_within-Quiet (suc (suc (length cs))) cs pkg

    -- For consistent and sound constraints the result is empty or as `AppendPost` says.
    pub append_rule :
        SetLaws lib.versions
        → (cs : Packages) (pkg : Package) → IsConsistent cs
        → All IsSound cs
        → IsSound pkg
        → Ensures J (append_constraint cs pkg) (λ a. (a.0 ≡ []) ⊎ AppendPost cs pkg a.0)
    append_rule laws cs pkg h a p = record {
      run = λ s i. (
        ((Quiet-append cs pkg).run s i).0,
        elim (append_constraint_lem laws cs pkg s h a p) [
          | inl (r, t, e, spec) ↦
              subst⁻¹ (OnOk (λ a. (a.0 ≡ []) ⊎ AppendPost cs pkg a.0)) (ap (λ x. x.0) e)
                (AppendSpec-post cs pkg r h a p spec)
          | inr (t, e, clash) ↦
              subst⁻¹ (OnOk (λ a. (a.0 ≡ []) ⊎ AppendPost cs pkg a.0)) (ap (λ x. x.0) e) tt
        ],
      );
    }
