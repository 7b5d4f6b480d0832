-- ===== src/Solver/Append.antt =====
-- What `appendConstraint` of src/Spock/Solver.C returns, on every path.
use rmc_spock.Base.{
  ℕ, suc, refl, inl, inr, true, false, [], ◌∷◌, ◌++◌, length, text_eq, append-nil, append_assoc,
  All, All-append, In-middle, Bool-cases,
}
use rmc_spock.Libraries.{Libraries}
use rmc_spock.Libraries.Laws.{SetLaws}
use rmc_spock.Package.{Package, names_in_common}
use rmc_spock.PackageLists.{Packages}
use rmc_spock.Solver.State.{Solver}
use rmc_spock.Solver.Constraint.{scan, append_within, append_constraint, overlap_message}
use rmc_spock.Solver.Relation.{
  Compatible, IsConsistent, IsSound, Behind, Behind-nil, Behind-step, IsConsistent-snoc,
}
use rmc_spock.Solver.Revalidate.{refuse_lem, scan_free, scan_overlap, scan_same}
use rmc_spock.Solver.Meet.{meet_lem}
use rmc_spock.Solver.Results.{overlapping, refused, added, Returns}

module _ ⦃lib : Libraries⦄ where
  module _ (laws : SetLaws lib.versions) where
    scan_lem :
        (f : ℕ) (pkg : Package) (kept cs : Packages) (s : Solver)
        → IsSound pkg
        → IsConsistent kept
        → All (Compatible pkg) kept
        → Behind kept cs
        → All IsSound cs
        → Returns (kept ++ cs) pkg (scan (append_within (suc f)) pkg kept cs s)
    unfolding scan
    scan_lem f pkg kept [] s p h n b a =
        rw append-nil (inl ((kept ++ (pkg ∷ []), true), s, refl, added refl n))
    scan_lem f pkg kept (c ∷ rest) s p h n b a =
        let again = append_within (suc f) in
        elim (Bool-cases (text_eq pkg.name c.name)) [
          | inl e ↦
              rw (scan_same again pkg c kept rest e)
                (meet_lem laws f pkg kept c rest a.0 p h n b e pkg.kind c.kind s refl refl)
          | inr ne ↦ elim (Bool-cases (lib.texts.is_empty (names_in_common pkg c))) [
            | inl e ↦
                let k = IsConsistent-snoc kept c h b.0.0 in
                let more = All-append (Compatible pkg) kept (c ∷ []) n ((ne, e), tt) in
                rw (scan_free again pkg c kept rest (ne, e)) (
                  rw append_assoc at (
                    scan_lem f pkg (kept ++ (c ∷ [])) rest s p k more (Behind-step kept c rest b)
                      a.1))
            | inr over ↦
                let (t, r) = refuse_lem (overlap_message pkg c) s in
                rw (scan_overlap again pkg c kept rest ne over) (
                  inl (
                    ([], false),
                    t,
                    r,
                    refused refl (overlapping c (In-middle kept c rest) ne over),
                  ))
          ]
        ]

    pub append_constraint_lem :
        (cs : Packages) (pkg : Package) (s : Solver)
        → IsConsistent cs
        → All IsSound cs
        → IsSound pkg
        → Returns cs pkg (append_constraint cs pkg s)
    unfolding append_constraint append_within
    append_constraint_lem cs pkg s h a p =
        scan_lem (length cs) pkg [] cs s p tt tt (Behind-nil cs h) a
