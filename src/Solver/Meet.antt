-- ===== src/Solver/Meet.antt =====
-- Which of the results of `appendConstraint` of src/Spock/Solver.C a constraint of the same name leads to.
use rmc_spock.Base.{
  ℕ, suc, ◌≡◌, refl, sym, ap, subst, subst⁻¹, ◌∙◌, inl, inr, Bool, true, false, not, ◌&&◌, [], ◌∷◌,
  ◌++◌, Text, text_eq, text_eq_sound, is_empty, append_assoc, All, All-map, All-append, All-zip, In,
  In-middle, In-right, Bool-cases, Outcome, ok, all, arith,
}
use rmc_spock.Libraries.{VersionNumber, Libraries}
use rmc_spock.Libraries.Laws.{SetLaws}
use rmc_spock.Definition.{is_supported_version}
use rmc_spock.Package.{Package, Kind, Ghost, installed, ghost, is_installed, is_installed_kind}
use rmc_spock.PackageLists.{Packages}
use rmc_spock.Solver.State.{Solver, pure, and_then}
use rmc_spock.Solver.Constraint.{Appended, refuse, revalidate, meet_kinds, append_within}
use rmc_spock.Solver.Relation.{
  Compatible, IsConsistent, Meets, MeetsKind, Keeps, KeepsKind, IsSound, IsSoundKind, Behind,
  IsConsistent-snoc, Compatible-rename, all_at, all_fails, ghost_with_versions_lem,
  ghost_with_versions_unsupported,
}
use rmc_spock.Solver.Revalidate.{refuse_lem, revalidate_lem}
use rmc_spock.Solver.Results.{
  Clash, other_hash, disjoint, unmatched, squeezed, refused, present, tightened, Returns,
}

module _ ⦃lib : Libraries⦄ where
  pub MeetsKind-subst :
      (a b : Text) (k l k' l' : Kind) → k ≡ k' → l ≡ l' → MeetsKind a k' b l' → MeetsKind a k b l
  MeetsKind-subst a b k l k' l' e e' m = rw (e, e') m

  pub meet_left : (x y z : Bool) → x ≡ (y && z) → x ≡ true → y ≡ true
  meet_left x y z e h = ground arith

  pub meet_right : (x y z : Bool) → x ≡ (y && z) → x ≡ true → z ≡ true
  meet_right x y z e h = ground arith

  pub Meets-refl : (a : Text) (k : Kind) → MeetsKind a k a k
  Meets-refl a (installed i) = refl
  Meets-refl a (ghost g) = λ v m. m

  pub not_empty_middle :
      (xs : Packages) (p : Package) (ys : Packages) → not (is_empty (xs ++ (p ∷ ys))) ≡ true
  not_empty_middle [] p ys = refl
  not_empty_middle (x ∷ xs) p ys = refl

  abbrev pub finish : Outcome Packages × Solver → (Packages → Bool) → Outcome Appended × Solver
  finish r need = and_then r.0 (λ cs. pure (cs, need cs)) r.1

  module _ (laws : SetLaws lib.versions) (f : ℕ) (pkg : Package) (kept : Packages) (c : Package)
      (rest : Packages) (sound : IsSound c) (pkg_sound : IsSound pkg) (kept_ok : IsConsistent kept)
      (pkg_new : All (Compatible pkg) kept) (behind : Behind kept (c ∷ rest))
      (same : text_eq pkg.name c.name ≡ true) where
    open laws use {exists-meet, same_sound}

    pub here : In c (kept ++ (c ∷ rest))
    here = In-middle kept c rest

    -- The result of tightening `c` to `new` and appending the rest again.
    pub tighten :
        (new : Package) (s : Solver) (need : Packages → Bool)
        → Keeps new c
        → Meets new pkg
        → IsSound new
        → new.name ≡ c.name
        → All (Compatible new) kept
        → need [] ≡ false
        → need (kept ++ (new ∷ rest)) ≡ (is_installed pkg && not (is_installed c))
        → Returns
            (kept ++ (c ∷ rest))
            pkg
            (finish (revalidate (append_within (suc f)) (kept ++ (new ∷ [])) rest s) need)
    tighten new s need keeps meets ok_new name free none some =
        let (t, r) =
          revalidate_lem f new (kept ++ (new ∷ [])) rest s (IsConsistent-snoc kept new kept_ok free)
            (All-zip
              (λ d p q.
                All-append _ kept (new ∷ []) (All-map (λ e k. (k.0, inl k.1)) kept p)
                  ((rw name q.0, inr refl), tt))
              rest behind.0.1 behind.1.0)
            behind.1.1 in
        elim r [
          | inl (e, k) ↦ inl (
            (kept ++ (new ∷ rest), need (kept ++ (new ∷ rest))),
            t,
            rw e (rw append_assoc refl),
            tightened kept rest c new refl (ap (λ b. (kept ++ (new ∷ rest), b)) some)
                (rw append_assoc at k) keeps meets ok_new,
          )
          | inr (e, (d, m, over)) ↦ inl (
            ([], need []),
            t,
            rw e refl,
            refused (ap (λ b. ([], b)) none)
                (squeezed c new d here (In-right kept d (c ∷ rest) (inr m)) keeps meets over),
          )
        ]

    pub pkg_name : pkg.name ≡ c.name
    pkg_name = text_eq_sound pkg.name c.name same

    -- `c` stays, and the constraints with it.
    pub stays :
        (k l : Kind) (s : Solver)
        → pkg.kind ≡ k
        → c.kind ≡ l
        → MeetsKind c.hash l pkg.hash k
        → Returns (kept ++ (c ∷ rest)) pkg (ok (kept ++ (c ∷ rest), false), s)
    stays k l s ek el m = inl (
      (kept ++ (c ∷ rest), false),
      s,
      refl,
      present c refl here
          (sym pkg_name, MeetsKind-subst c.hash pkg.hash c.kind pkg.kind l k el ek m),
    )

    pub refuses :
        (mesg : Text) (s : Solver)
        → Clash (kept ++ (c ∷ rest)) pkg
        → Returns (kept ++ (c ∷ rest)) pkg (refuse mesg s)
    refuses mesg s clash =
        let (t, r) = refuse_lem mesg s in inl (([], false), t, r, refused refl clash)

    -- `c` with fewer versions.
    abbrev pub narrowed : ℕ → Ghost → lib.versions.Carrier → Package
    narrowed address h vs = record {
      address = address;
      hash = [];
      name = c.name;
      aliases = c.aliases;
      kind = ghost (record { definition = h.definition; versions = vs });
    }

    pub narrowed-IsSound :
        (address : ℕ) (h : Ghost) (vs : lib.versions.Carrier)
        → c.kind ≡ ghost h
        → all (is_supported_version h.definition) (lib.versions.values vs) ≡ true
        → IsSound (narrowed address h vs)
    narrowed-IsSound address h vs el supported =
        let old = subst (IsSoundKind c) el sound in
        (
          old.0,
          old.1,
          all_at (is_supported_version h.definition) (lib.versions.values vs) supported,
        )

    -- The intersection is supported and takes the place of `c`.
    pub intersected :
        (g h : Ghost) (s : Solver)
        → pkg.kind ≡ ghost g
        → c.kind ≡ ghost h
        → all
            (is_supported_version h.definition)
            (lib.versions.values (lib.versions.meet g.versions h.versions))
          ≡ true
        → Returns (kept ++ (c ∷ rest)) pkg (
            finish
              (revalidate
                (append_within (suc f))
                (kept ++ (narrowed s.next_address h (lib.versions.meet g.versions h.versions) ∷ []))
                rest
                (record s { next_address = suc s.next_address }))
              (λ _. false))
    intersected g h s ek el fine =
        let vs = lib.versions.meet g.versions h.versions in
        let new = narrowed s.next_address h vs in
        tighten new (record s { next_address = suc s.next_address }) (λ _. false)
          (subst⁻¹ (KeepsKind new c) el (
            refl,
            MeetsKind-subst [] c.hash new.kind c.kind new.kind (ghost h) refl el
                (λ v m. meet_right _ _ _ (exists-meet g.versions h.versions v) m),
          ))
          (
            sym pkg_name,
            MeetsKind-subst [] pkg.hash new.kind pkg.kind new.kind (ghost g) refl ek
                (λ v m. meet_left _ _ _ (exists-meet g.versions h.versions v) m),
          )
          (narrowed-IsSound s.next_address h vs el fine) refl
          (All-map (λ x k. Compatible-rename new c x refl refl k) kept behind.0.0) refl
          (rw (ek) refl)

    pub meet_ghosts :
        (g h : Ghost) (s : Solver)
        → pkg.kind ≡ ghost g
        → c.kind ≡ ghost h
        → Returns
            (kept ++ (c ∷ rest))
            pkg
            (meet_kinds (append_within (suc f)) pkg (ghost g) c (ghost h) kept rest s)
    unfolding meet_kinds
    meet_ghosts g h s ek el =
        let vs = lib.versions.meet g.versions h.versions in
        elim (Bool-cases (lib.versions.same vs h.versions)) [
          | inl e ↦
              rw (e, meet_kinds)
                (stays (ghost g) (ghost h) s ek el (λ v m.
                  meet_left _ _ _ (exists-meet g.versions h.versions v)
                    (same_sound vs h.versions e v ∙ m)))
          | inr n ↦ elim (Bool-cases (lib.versions.is_empty vs)) [
            | inl e ↦
                rw (n, meet_kinds)
                  (rw (e, meet_kinds) (refuses _ s (disjoint c g h here ek el same e)))
            | inr e ↦
                let sub : (v : VersionNumber)
                    → lib.versions.exists vs v ≡ true
                    → lib.versions.exists h.versions v ≡ true =
                  λ v m. meet_right _ _ _ (exists-meet g.versions h.versions v) m in
                elim (Bool-cases
                  (all (is_supported_version h.definition) (lib.versions.values vs))) [
                    | inl fine ↦
                        rw (n, meet_kinds)
                          (rw (e, meet_kinds)
                            (rw
                              (
                                ghost_with_versions_lem laws s.next_address c h vs
                                    (subst (IsSoundKind c) el sound) e sub fine,
                                meet_kinds,
                              )
                              (intersected g h s ek el fine)))
                    | inr fails ↦
                        let (v, m, differs) = all_fails _ _ fails in
                        rw (n, meet_kinds)
                          (rw (e, meet_kinds)
                            (rw
                              (
                                ghost_with_versions_unsupported laws s.next_address c h vs e sub
                                    fails,
                                meet_kinds,
                              )
                              (inr (
                                record s { next_address = suc s.next_address },
                                refl,
                                record {
                                  constraint = c;
                                  asked = g;
                                  held = h;
                                  version = v;
                                  among = here;
                                  pkg_kind = ek;
                                  constraint_kind = el;
                                  same_name = same;
                                  common = m;
                                  unsupported = differs;
                                },
                              ))))
                  ]
          ]
        ]

    pub meet_lem :
        (k l : Kind) (s : Solver)
        → pkg.kind ≡ k
        → c.kind ≡ l
        → Returns
            (kept ++ (c ∷ rest))
            pkg
            (meet_kinds (append_within (suc f)) pkg k c l kept rest s)
    unfolding meet_kinds
    meet_lem (installed i) (installed j) s ek el = elim (Bool-cases (text_eq pkg.hash c.hash)) [
      | inl e ↦
          rw (e, meet_kinds)
            (stays (installed i) (installed j) s ek el (sym (text_eq_sound pkg.hash c.hash e)))
      | inr n ↦ rw (n, meet_kinds) (refuses _ s (other_hash c i j here ek el same n))
    ]
    meet_lem (ghost g) (ghost h) s ek el = meet_ghosts g h s ek el
    meet_lem (installed i) (ghost h) s ek el =
        elim (Bool-cases (lib.versions.exists h.versions i.version)) [
          | inl e ↦
              rw (e, meet_kinds)
                (tighten pkg s (λ cs. not (is_empty cs))
                  (subst⁻¹ (KeepsKind pkg c) el (
                    pkg_name,
                    MeetsKind-subst pkg.hash c.hash pkg.kind c.kind (installed i) (ghost h) ek el e,
                  ))
                  (refl, Meets-refl pkg.hash pkg.kind) pkg_sound pkg_name pkg_new refl
                  (not_empty_middle kept pkg rest
                    ∙ rw (ap is_installed_kind ek, ap is_installed_kind el) refl))
          | inr n ↦ rw (n, meet_kinds) (refuses _ s (unmatched c i h here (inl (ek, el)) same n))
        ]
    meet_lem (ghost g) (installed j) s ek el =
        elim (Bool-cases (lib.versions.exists g.versions j.version)) [
          | inl e ↦
              rw (e, meet_kinds)
                (tighten c s (λ _. false) (subst⁻¹ (KeepsKind c c) el refl)
                  (
                    sym pkg_name,
                    MeetsKind-subst c.hash pkg.hash c.kind pkg.kind (installed j) (ghost g) el ek e,
                  )
                  sound refl behind.0.0 refl (rw (ap is_installed_kind ek) refl))
          | inr n ↦ rw (n, meet_kinds) (refuses _ s (unmatched c j g here (inr (el, ek)) same n))
        ]
