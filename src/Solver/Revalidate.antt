-- ===== src/Solver/Revalidate.antt =====
-- How the recursive calls of `appendConstraint` of src/Spock/Solver.C behave: a constraint is appended
-- again to those that were kept.
use rmc_spock.Base.{
  ℕ, suc, ◌≡◌, refl, ap, subst, ◌∙◌, ◌⊎◌, inl, inr, Bool, true, false, [], ◌∷◌, ◌++◌, Text, text_eq,
  is_empty, is_empty-snoc, append-nil, append_assoc, All, All-append, All-zip, In, Bool-cases,
  Outcome, ok,
}
use rmc_spock.Libraries.{Libraries}
use rmc_spock.Package.{Package, names_in_common}
use rmc_spock.PackageLists.{Packages}
use rmc_spock.Solver.State.{Solver, M, insert_message}
use rmc_spock.Solver.Constraint.{
  Appended, refuse, revalidate, meet_kinds, scan, append_within, overlap_message,
}
use rmc_spock.Solver.Relation.{Compatible, IsConsistent, IsConsistent-snoc}

module _ ⦃lib : Libraries⦄ where
  abbrev pub Overlaps : Package → Package → Type 0
  Overlaps q p = lib.texts.is_empty (names_in_common q p) ≡ false

  -- Of another name than each package of the list, and compatible with each but perhaps `new`.
  abbrev pub NewAmong : Package → Package → Packages → Type 0
  NewAmong new d cs =
      All
        (λ e.
          (text_eq d.name e.name ≡ false)
          × ((lib.texts.is_empty (names_in_common d e) ≡ true) ⊎ (e ≡ new)))
        cs

  pub refuse_lem : (mesg : Text) (s : Solver) → (t : Solver) × (refuse mesg s ≡ (ok ([], false), t))
  unfolding refuse insert_message
  refuse_lem mesg s = (_, refl)

  pub overlap_new :
      (new d e : Package)
      → ((lib.texts.is_empty (names_in_common d e) ≡ true) ⊎ (e ≡ new))
      → Overlaps d e
      → Overlaps d new
  overlap_new new d e (inl free) over = cc
  overlap_new new d e (inr same) over = subst (λ p. Overlaps d p) same over

  -- The rounds of the loop.
  module _ (again : Packages → Package → M Appended) (d e : Package) (kept cs : Packages) where
    pub scan_free : Compatible d e → scan again d kept (e ∷ cs) ≡ scan again d (kept ++ (e ∷ [])) cs
    unfolding scan
    scan_free (n, free) = rw (n, scan) (rw (free, scan))

    pub scan_overlap :
        text_eq d.name e.name ≡ false
        → Overlaps d e
        → scan again d kept (e ∷ cs) ≡ refuse (overlap_message d e)
    unfolding scan
    scan_overlap n over = rw (n, scan) (rw (over, scan))

    pub scan_same :
        text_eq d.name e.name ≡ true
        → scan again d kept (e ∷ cs) ≡ meet_kinds again d d.kind e e.kind kept cs
    unfolding scan
    scan_same n = rw (n, scan)

  abbrev pub ScanNew :
      (new d : Package) (cs result : Packages) (r : Outcome Appended × Solver) → Type 0
  ScanNew new d cs result r =
      (t : Solver) × (((r ≡ (ok (result, true), t)) × All (Compatible d) cs)
        ⊎ ((r ≡ (ok ([], false), t)) × Overlaps d new))

  -- A package of a new name is appended, or refused since its names overlap.
  pub scan_new :
      (again : Packages → Package → M Appended) (new d : Package) (kept cs : Packages) (s : Solver)
      → NewAmong new d cs
      → ScanNew new d cs (kept ++ (cs ++ (d ∷ []))) (scan again d kept cs s)
  unfolding scan
  scan_new again new d kept [] s h = (s, inl (refl, tt))
  scan_new again new d kept (e ∷ cs) s ((n, h), hs) =
      elim (Bool-cases (lib.texts.is_empty (names_in_common d e))) [
        | inl free ↦
            let step = ap (λ (m : M Appended). m s) (scan_free again d e kept cs (n, free)) in
            let (t, r) = scan_new again new d (kept ++ (e ∷ [])) cs s hs in
            elim r [
              | inl (eq, all) ↦ (t, inl (step ∙ eq ∙ rw append_assoc, ((n, free), all)))
              | inr (eq, over) ↦ (t, inr (step ∙ eq, over))
            ]
        | inr over ↦
            let step = ap (λ (m : M Appended). m s) (scan_overlap again d e kept cs n over) in
            let (t, r) = refuse_lem (overlap_message d e) s in
            (t, inr (step ∙ r, overlap_new new d e h over))
      ]

  module _ (again : Packages → Package → M Appended) (kept : Packages) (d : Package)
      (rest : Packages) (s t : Solver) (b : Bool) where
    pub revalidate_step :
        (cs : Packages)
        → again kept d s ≡ (ok (cs, b), t)
        → is_empty cs ≡ false
        → revalidate again kept (d ∷ rest) s ≡ revalidate again cs rest t
    unfolding revalidate
    revalidate_step [] e n = cc
    revalidate_step (c ∷ cs) e n = rw e

    pub revalidate_stop :
        again kept d s ≡ (ok ([], b), t) → revalidate again kept (d ∷ rest) s ≡ (ok [], t)
    unfolding revalidate
    revalidate_stop e = rw e

  abbrev pub Revalidated :
      (new : Package) (kept rest : Packages) (r : Outcome Packages × Solver) → Type 0
  Revalidated new kept rest r =
      (t : Solver) × (((r ≡ (ok (kept ++ rest), t)) × IsConsistent (kept ++ rest))
        ⊎ ((r ≡ (ok [], t)) × ((d : Package) × In d rest × Overlaps d new)))

  pub revalidate_lem :
      (f : ℕ) (new : Package) (kept rest : Packages) (s : Solver)
      → IsConsistent kept
      → All (λ d. NewAmong new d kept) rest
      → IsConsistent rest
      → Revalidated new kept rest (revalidate (append_within (suc f)) kept rest s)
  unfolding revalidate append_within
  revalidate_lem f new kept [] s h a c = (s, inl (rw append-nil, rw append-nil h))
  revalidate_lem f new kept (d ∷ rest) s h a c =
      let again = append_within (suc f) in
      let (t, r) = scan_new (append_within f) new d [] kept s a.0 in
      elim r [
        | inl (e, all) ↦
            let step = revalidate_step again kept d rest s t true _ e (is_empty-snoc kept d) in
            let longer =
              All-zip (λ x p q. All-append _ kept (d ∷ []) p ((q.0, inl q.1), tt)) rest a.1 c.0 in
            let (u, next) =
              revalidate_lem f new (kept ++ (d ∷ [])) rest t (IsConsistent-snoc kept d h all) longer
                c.1 in
            elim next [
              | inl (e', k) ↦ (u, inl (step ∙ e' ∙ rw append_assoc, rw append_assoc at k))
              | inr (e', (x, m, over)) ↦ (u, inr (step ∙ e', (x, inr m, over)))
            ]
        | inr (e, over) ↦
            (t, inr (revalidate_stop again kept d rest s t false e, (d, inl refl, over)))
      ]
