-- ===== src/Solver/Results.antt =====
-- The results of `appendConstraint` of src/Spock/Solver.C: what it returns, and why a package is refused.
use rmc_spock.Base.{
  ◌≡◌, ◌⊎◌, true, false, not, ◌&&◌, [], ◌∷◌, ◌++◌, text_eq, All, In, Outcome, ok, aborted,
}
use rmc_spock.Libraries.{VersionNumber, Libraries}
use rmc_spock.Definition.{is_supported_version}
use rmc_spock.Package.{Package, Installed, Ghost, installed, ghost, is_installed}
use rmc_spock.PackageLists.{Packages}
use rmc_spock.Solver.State.{Solver}
use rmc_spock.Solver.Constraint.{Appended}
use rmc_spock.Solver.Relation.{Compatible, IsConsistent, Meets, Keeps, IsSound}
use rmc_spock.Solver.Revalidate.{Overlaps}

module _ ⦃lib : Libraries⦄ where
  -- Why a package is refused. `new` is what a constraint was tightened to.
  pub data Clash (cs : Packages) (pkg : Package) : Type 0 where
    overlapping :
        (c : Package) → In c cs → text_eq pkg.name c.name ≡ false → Overlaps pkg c → Clash cs pkg
    other_hash :
        (c : Package) (i j : Installed)
        → In c cs
        → pkg.kind ≡ installed i
        → c.kind ≡ installed j
        → text_eq pkg.name c.name ≡ true
        → text_eq pkg.hash c.hash ≡ false
        → Clash cs pkg
    disjoint :
        (c : Package) (g h : Ghost)
        → In c cs
        → pkg.kind ≡ ghost g
        → c.kind ≡ ghost h
        → text_eq pkg.name c.name ≡ true
        → lib.versions.is_empty (lib.versions.meet g.versions h.versions) ≡ true
        → Clash cs pkg
    unmatched :
        (c : Package) (i : Installed) (g : Ghost)
        → In c cs
        → ((pkg.kind ≡ installed i) × (c.kind ≡ ghost g))
          ⊎ ((c.kind ≡ installed i) × (pkg.kind ≡ ghost g))
        → text_eq pkg.name c.name ≡ true
        → lib.versions.exists g.versions i.version ≡ false
        → Clash cs pkg
    squeezed :
        (c new d : Package)
        → In c cs
        → In d cs
        → Keeps new c
        → Meets new pkg
        → Overlaps d new
        → Clash cs pkg

  -- The four results for consistent constraints: none, since the package clashes; the package at the
  -- end; the constraints as they were; or the constraint of the same name tightened in its place,
  -- where the dependencies are needed if a ghost became an installed package.
  pub data AppendSpec (cs : Packages) (pkg : Package) (r : Appended) : Type 0 where
    refused : r ≡ ([], false) → Clash cs pkg → AppendSpec cs pkg r
    added : r ≡ (cs ++ (pkg ∷ []), true) → All (Compatible pkg) cs → AppendSpec cs pkg r
    present : (c : Package) → r ≡ (cs, false) → In c cs → Meets c pkg → AppendSpec cs pkg r
    tightened :
        (kept rest : Packages) (c new : Package)
        → cs ≡ kept ++ (c ∷ rest)
        → r ≡ (kept ++ (new ∷ rest), is_installed pkg && not (is_installed c))
        → IsConsistent (kept ++ (new ∷ rest))
        → Keeps new c
        → Meets new pkg
        → IsSound new
        → AppendSpec cs pkg r

  -- A version that is, by the order, one of two ghosts of one name, but that the definition of the
  -- constraint does not support as it is spelled in the intersection.
  pub record Unsupported (cs : Packages) (pkg : Package) : Type 0 where
    pub constraint : Package
    pub asked : Ghost
    pub held : Ghost
    pub version : VersionNumber
    pub among : In constraint cs
    pub pkg_kind : pkg.kind ≡ ghost asked
    pub constraint_kind : constraint.kind ≡ ghost held
    pub same_name : text_eq pkg.name constraint.name ≡ true
    pub common : In version (lib.versions.values (lib.versions.meet asked.versions held.versions))
    pub unsupported : is_supported_version held.definition version ≡ false

  -- One of the four results, or the failed assertion of the constructor of a ghost.
  abbrev pub Returns : (cs : Packages) (pkg : Package) (r : Outcome Appended × Solver) → Type 0
  Returns cs pkg r =
      ((a : Appended) × (t : Solver) × (r ≡ (ok a, t)) × AppendSpec cs pkg a)
      ⊎ ((t : Solver) × (r ≡ (aborted, t)) × Unsupported cs pkg)
