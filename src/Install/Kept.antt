-- ===== src/Install/Kept.antt =====
-- What an installation (src/Spock/DefinedPackage.C) keeps true of the context: rules for its statements,
-- and the way through them.
use rmc_spock.Base.{
  ℕ, ◌≡◌, refl, Bool, true, false, List, [], ◌∷◌, Text, Outcome, ok, threw, aborted, exhausted,
  Exception,
}
use rmc_spock.Libraries.{Libraries}
use rmc_spock.Libraries.Graphs.{GraphOps}
use rmc_spock.Pattern.{PackagePattern}
use rmc_spock.Definition.{DefinedPackage}
use rmc_spock.Definition.Script.{Settings}
use rmc_spock.Package.{Package}
use rmc_spock.PackageLists.{Packages}
use rmc_spock.Context.{Context, push_environment, restore, insert_employed, insert_employed_all}
use rmc_spock.Context.Each.{insert_employed_all-kept}
use rmc_spock.Install.{Outside, Options, run_command, fetch, download, required}
use rmc_spock.Install.Parasites.{
  register, scan_installed_package, scan_parasite, scan_parasites, post_install,
}
use rmc_spock.Install.Build.{build, excursion, prepare}
use rmc_spock.Install.Effects.{
  M, pure, and_then, ◌>>=◌, ◌>>◌, reads, lift, changed, update, push, saved,
}

module _ ⦃lib : Libraries⦄ (I : Context → Type 0) where
  pub data Keeps {A : Type 0} (m : M A) : Type 0 where
    keeping : ((ctx : Context) → I ctx → I (m ctx).1) → Keeps m

  pub run_kept : {A : Type 0} (m : M A) → Keeps m → (ctx : Context) → I ctx → I (m ctx).1
  run_kept m (keeping h) = h

  still : {A : Type 0} (f : Context → Outcome A) → Keeps (reads f)
  unfolding reads
  still f = keeping (λ ctx i. i)

  same : {A : Type 0} (o : Outcome A) → Keeps (lift o)
  unfolding lift
  same o = keeping (λ ctx i. i)

  done : {A : Type 0} (a : A) → Keeps (pure a)
  unfolding pure
  done a = keeping (λ ctx i. i)

  and_then-Keeps :
      {A B : Type 0} (o : Outcome A) (f : A → M B) (ctx : Context)
      → I ctx
      → ((a : A) → Keeps (f a))
      → I (and_then o f ctx).1
  and_then-Keeps (ok a) f ctx i h = run_kept (f a) (h a) ctx i
  and_then-Keeps (threw e) f ctx i h = i
  and_then-Keeps aborted f ctx i h = i
  and_then-Keeps exhausted f ctx i h = i

  pub bind_rule :
      {A B : Type 0} (m : M A) (f : A → M B) → Keeps m → ((a : A) → Keeps (f a)) → Keeps (m >>= f)
  unfolding ◌>>=◌
  bind_rule m f h k = keeping (λ ctx i. and_then-Keeps (m ctx).0 f (m ctx).1 (run_kept m h ctx i) k)

  -- A statement that leaves the context alone comes first.
  first_still :
      {A B : Type 0} (o : Outcome A) (f : A → M B) → ((a : A) → Keeps (f a)) → Keeps (lift o >>= f)
  first_still o f k = bind_rule (lift o) f (same o) k

  elim_rule :
      {A : Type 0} (b : Bool) (m n : M A)
      → Keeps m
      → Keeps n
      → Keeps (elim b [ true ↦ m | false ↦ n ])
  elim_rule true m n h k = h
  elim_rule false m n h k = k

  required-Keeps : (b : Bool) (e : Exception) → Keeps (required b e)
  required-Keeps true e = done tt
  required-Keeps false e = same (threw e)

  update-Keeps :
      (f : Context → Outcome Context)
      → ((ctx next : Context) → I ctx → f ctx ≡ ok next → I next)
      → Keeps (update f)
  unfolding update
  update-Keeps f h = keeping (λ ctx i. go ctx i (f ctx) refl)
    where
      go : (ctx : Context) → I ctx → (o : Outcome Context) → f ctx ≡ o → I (changed ctx o).1
      go ctx i (ok next) e = h ctx next i e
      go ctx i (threw x) e = i
      go ctx i aborted e = i
      go ctx i exhausted e = i

  -- What the statements that change a context must keep.
  pub record KeptBySteps (size : ℕ) : Type 0 where
    pub pushed : (ctx : Context) → I ctx → I (push_environment ctx)
    pub employed :
        (pkg : Package) (ctx next : Context) → I ctx → insert_employed ctx pkg ≡ ok next → I next
    pub registered :
        (pkg : Package) (ctx next : Context) → I ctx → register pkg ctx ≡ ok next → I next
    pub afresh : (ctx : Context) → I ctx → I (push_environment (restore size ctx))

  module _ {size : ℕ} (kept : KeptBySteps size) where
    behind_push :
        {A : Type 0} (m : M A)
        → Keeps m
        → (ctx : Context) → I (push_environment ctx)
        → I ((push >> m) ctx).1
    unfolding ◌>>=◌ push
    behind_push m h ctx i = run_kept m h (push_environment ctx) i

    -- The stack is restored, and an environment pushed.
    begin_afresh :
        {A : Type 0} (m : M A) → Keeps m → Keeps ((λ c. (ok tt, restore size c)) >> (push >> m))
    unfolding ◌>>=◌ push
    begin_afresh m h =
        keeping (λ ctx i. run_kept m h (push_environment (restore size ctx)) (kept.afresh ctx i))

    employs : (pkgs : Packages) → Keeps (update (λ ctx. insert_employed_all ctx pkgs))
    employs pkgs =
        update-Keeps (λ ctx. insert_employed_all ctx pkgs)
          (insert_employed_all-kept I kept.employed pkgs)

    module _ (outside : Outside) where
      run_command-Keeps :
          (d : DefinedPackage) (script mesg output : Text)
          → Keeps (run_command outside d script mesg output)
      unfolding run_command
      run_command-Keeps d script mesg output =
          bind_rule _ _ (still _) (λ status. required-Keeps _ _)

      fetch-Keeps :
          (d : DefinedPackage) (st : Settings) (options : Options) (dest : Text)
          → Keeps (fetch outside d st options dest)
      unfolding fetch
      fetch-Keeps d st options dest = first_still _ _ (λ commands. first_still _ _ (λ script.
          bind_rule _ _ (bind_rule _ _ (still _) (λ status. required-Keeps _ _)) (λ _.
            bind_rule _ _ (required-Keeps outside.download_made _)
              (λ _. required-Keeps outside.download_copied _))))

      download-Keeps :
          (d : DefinedPackage) (st : Settings) (options : Options)
          → Keeps (download outside d st options)
      unfolding download
      download-Keeps d st options =
          bind_rule _ _ (elim_rule outside.is_downloaded _ _ (done tt) (fetch-Keeps d st options _))
            (λ _. first_still _ _ (λ _. done _))

      scan_installed_package-Keeps :
          (spec : PackagePattern) → Keeps (scan_installed_package outside spec)
      unfolding scan_installed_package
      scan_installed_package-Keeps spec = first_still _ _ (λ _. first_still _ _ (λ _.
          first_still _ _ (λ _. bind_rule (reads _) _ (still _) (λ found. first_still _ _ (λ _.
            first_still _ _ (λ pkg.
              bind_rule _ _ (update-Keeps (register pkg) (kept.registered pkg))
                (λ _. done pkg)))))))

      scan_parasite-Keeps :
          (d : DefinedPackage) (line : Text) → Keeps (scan_parasite outside d line)
      unfolding scan_parasite
      scan_parasite-Keeps d line = elim_rule _ _ _ (done []) (
          first_still _ _ (λ pattern.
            bind_rule _ _ (required-Keeps _ _)
              (λ _. bind_rule _ _ (scan_installed_package-Keeps pattern) (λ pkg. done _))))

      scan_parasites-Keeps :
          (d : DefinedPackage) (lines : List Text) → Keeps (scan_parasites outside d lines)
      unfolding scan_parasites
      scan_parasites-Keeps d [] = done []
      scan_parasites-Keeps d (line ∷ lines) =
          bind_rule _ _ (scan_parasite-Keeps d line)
            (λ first. bind_rule _ _ (scan_parasites-Keeps d lines) (λ rest. done _))

      post_install-Keeps :
          (d : DefinedPackage) (st : Settings) (options : Options) (root : Text)
          → Keeps (post_install outside d st options root)
      unfolding post_install
      post_install-Keeps d st options root = elim_rule _ _ _ (done []) (
          first_still _ _ (λ commands. first_still _ _ (λ script.
            bind_rule _ _ (bind_rule _ _ (still _) (λ status. required-Keeps _ _)) (λ _.
              first_still _ _ (λ patterns.
                elim_rule _ _ _ (done [])
                  (bind_rule _ _ (required-Keeps _ _) (λ _. scan_parasites-Keeps d _)))))))

      module _ ⦃graphs : GraphOps⦄ where
        build-Keeps :
            (d : DefinedPackage) (st : Settings) (options : Options) (tarball : Text)
            (install_deps : Packages)
            → Keeps (build outside d st options tarball install_deps)
        unfolding build
        build-Keeps d st options tarball install_deps =
            bind_rule _ _ (first_still _ _ (λ commands. same _)) (λ script.
              bind_rule _ _ (required-Keeps _ _) (λ _.
                bind_rule _ _ (run_command-Keeps d script _ _) (λ _.
                  bind_rule _ _ (required-Keeps _ _) (λ _. first_still _ _ (λ config. done tt)))))

        -- The excursion behind its first `pushEnvironment`.
        pub excursion-Keeps :
            (d : DefinedPackage) (st : Settings) (options : Options) (tarball : Text)
            (install_deps build_deps : Packages) (ctx : Context)
            → I (push_environment ctx)
            → I
                (excursion outside d st options tarball install_deps build_deps
                  (λ c. (ok tt, restore size c))
                  ctx).1
        unfolding excursion
        excursion-Keeps d st options tarball install_deps build_deps ctx i =
            behind_push _
              (bind_rule _ _ (employs build_deps) (λ _.
                bind_rule _ _ (build-Keeps d st options tarball install_deps) (λ _.
                  first_still _ _ (λ spec. bind_rule _ _ (scan_installed_package-Keeps spec) (λ pkg.
                    begin_afresh _ (
                      bind_rule _ _ (employs install_deps) (λ _.
                        bind_rule _ _
                          (update-Keeps (λ c. insert_employed c pkg) (kept.employed pkg))
                          (λ _.
                            bind_rule _ _ (post_install-Keeps d st options _)
                              (λ parasites. done _)))))))))
              ctx i

        -- The preparation behind its first `pushEnvironment`, for a way to keep the excursion's block.
        pub prepare-Keeps :
            (fuel : ℕ) (d : DefinedPackage) (settings : Settings) (options : Options)
            → ((st : Settings) (tarball : Text) (install_deps build_deps : Packages)
                → Keeps (saved (excursion outside d st options tarball install_deps build_deps)))
            → (ctx : Context) → I (push_environment ctx)
            → I (prepare outside fuel d settings options ctx).1
        unfolding prepare
        prepare-Keeps fuel d settings options nested ctx i =
            behind_push _
              (first_still _ _ (λ _. bind_rule _ _ (download-Keeps d settings options) (λ tarball.
                first_still _ _ (λ _. bind_rule _ _ (still _) (λ install_deps.
                  bind_rule _ _ (still _)
                    (λ build_deps. nested _ tarball install_deps build_deps))))))
              ctx i
