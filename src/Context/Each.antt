-- ===== src/Context/Each.antt =====
-- What holds of the context after each `insertEmployed` of src/Spock/Context.C holds after all of them.
use rmc_spock.Base.{
  ◌≡◌, refl, subst, Bool, true, false, not, [], ◌∷◌, is_empty, Outcome, ok, threw, aborted,
  exhausted, ◌>>=◌, ◌>>◌, assert,
}
use rmc_spock.Libraries.{Libraries}
use rmc_spock.Package.{Package}
use rmc_spock.PackageLists.{Packages}
use rmc_spock.Context.{Context, insert_employed, insert_employed_each, insert_employed_all}

module _ ⦃lib : Libraries⦄ (I : Context → Type 0)
    (employed_kept : (pkg : Package) (ctx next : Context)
      → I ctx
      → insert_employed ctx pkg ≡ ok next
      → I next) where
  insert_employed_each-kept :
      (pkgs : Packages) (ctx next : Context)
      → I ctx
      → insert_employed_each ctx pkgs ≡ ok next
      → I next
  unfolding insert_employed_each
  insert_employed_each-kept [] ctx next i e = subst I (ok-inj ctx next e) i
    where
      ok-inj : (a b : Context) → ok a ≡ ok b → a ≡ b
      ok-inj a b q = cc
  insert_employed_each-kept (pkg ∷ pkgs) ctx next i e =
      go (insert_employed ctx pkg) refl (λ c. insert_employed_each-kept pkgs c next) e
    where
      go :
          (o : Outcome Context)
          → insert_employed ctx pkg ≡ o
          → ((c : Context) → I c → insert_employed_each c pkgs ≡ ok next → I next)
          → (do c ← o; insert_employed_each c pkgs) ≡ ok next
          → I next
      go (ok c) q rest k = rest c (employed_kept pkg ctx c i q) k
      go (threw x) q rest k = cc
      go aborted q rest k = cc
      go exhausted q rest k = cc

  pub insert_employed_all-kept :
      (pkgs : Packages) (ctx next : Context)
      → I ctx
      → insert_employed_all ctx pkgs ≡ ok next
      → I next
  unfolding insert_employed_all
  insert_employed_all-kept pkgs ctx next i e = go (not (is_empty ctx.env_stack)) e
    where
      go : (b : Bool) → (do assert b; insert_employed_each ctx pkgs) ≡ ok next → I next
      go true k = insert_employed_each-kept pkgs ctx next i k
      go false k = cc
