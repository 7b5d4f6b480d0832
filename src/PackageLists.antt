-- ===== src/PackageLists.antt =====
-- src/Spock/PackageLists.C: a list of lists of packages.
use rmc_spock.Base.{
  ℕ, Bool, true, false, not, ◌&&◌, ◌||◌, none, some, List, [], ◌∷◌, ◌++◌, map, text_eq, text_lt,
  is_empty, any, length, take, get_elem?, ltb, leb, ◌==◌, sort_by, Outcome, ok, aborted, ◌>>◌,
  assert, if◌then◌else◌,
}
use rmc_spock.Libraries.{Libraries}
use rmc_spock.Version.{version_eq, version_lt}
use rmc_spock.Package.{Package, Kind, installed, is_installed, version, identical}

module _ ⦃lib : Libraries⦄ where
  abbrev pub Packages : Type 0
  Packages = List Package

  -- `lists_`.
  abbrev pub PackageLists : Type 0
  PackageLists = List Packages

  unfoldable pub insert : PackageLists → Packages → PackageLists
  insert lists pkgs = lists ++ (pkgs ∷ [])

  unfoldable pub insert_one : PackageLists → Package → PackageLists
  insert_one lists pkg = lists ++ ((pkg ∷ []) ∷ [])

  -- `operator[]`, whose assertion is the bound.
  unfoldable pub nth_list : PackageLists → ℕ → Outcome Packages
  nth_list lists n = elim (get_elem? lists n) [ none ↦ aborted | some pkgs ↦ ok pkgs ]

  unfoldable pub is_any_list_empty : PackageLists → Bool
  is_any_list_empty lists = any is_empty lists

  -- The rounds of `sortByNameVersion` behind the versions.
  unfoldable pub by_time_stamp : Package → Kind → Package → Kind → Bool
  by_time_stamp a (installed i) b (installed j) =
      if not (i.installed_time_stamp == j.installed_time_stamp)
      then ltb j.installed_time_stamp i.installed_time_stamp
      else text_lt a.hash b.hash
  by_time_stamp a _ b _ = text_lt a.hash b.hash

  unfoldable pub sort_by_name_version : Package → Package → Bool
  unfolding by_time_stamp version
  sort_by_name_version a b =
      if is_installed a && not (is_installed b) || not (is_installed a) && is_installed b
      then is_installed a
      else (if not (text_eq a.name b.name)
          then text_lt a.name b.name
          else (if not (version_eq (version a) (version b))
              then version_lt (version b) (version a)
              else by_time_stamp a a.kind b b.kind))

  unfoldable pub sort_by_size : Packages → Packages → Bool
  sort_by_size a b = ltb (length a) (length b)

  -- The class method `sort`.
  unfoldable pub sort : Packages → Packages
  unfolding sort_by_name_version
  sort pkgs = sort_by sort_by_name_version pkgs

  unfoldable pub sort_packages : PackageLists → PackageLists
  unfolding sort
  sort_packages lists = map sort lists

  unfoldable pub sort_lists : PackageLists → PackageLists
  unfolding sort_by_size
  sort_lists lists = sort_by sort_by_size lists

  unfoldable pub sort_all : PackageLists → PackageLists
  unfolding sort_packages sort_lists
  sort_all lists = sort_lists (sort_packages lists)

  -- The elementwise loop of `listExists`, over lists of one length.
  unfoldable pub all_identical : Packages → Packages → Bool
  all_identical [] bs = true
  all_identical (a ∷ as') [] = false
  all_identical (a ∷ as') (b ∷ bs) = identical a b && all_identical as' bs

  unfoldable pub list_exists : PackageLists → Packages → Bool
  unfolding all_identical
  list_exists lists a = any (λ b. length a == length b && all_identical a b) lists

  unfoldable pub resize : PackageLists → ℕ → Outcome PackageLists
  resize lists n = assert (leb n (length lists)) >> ok (take n lists)
