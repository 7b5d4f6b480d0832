-- ===== src/Install/Stack.antt =====
-- However `install` of src/Spock/DefinedPackage.C ends, it leaves the environments as they were.
use rmc_spock.Base.{
  ℕ, ◌≡◌, refl, sym, ap, subst, ◌∙◌, List, [], ◌∷◌, ◌++◌, Text, length, Outcome, ok, threw, aborted,
  exhausted,
}
use rmc_spock.Libraries.{Libraries}
use rmc_spock.Libraries.Graphs.{GraphOps}
use rmc_spock.Definition.{DefinedPackage}
use rmc_spock.Definition.Script.{Settings}
use rmc_spock.Package.{Package}
use rmc_spock.PackageLists.{Packages}
use rmc_spock.Directory
use rmc_spock.Directory.{Directory}
use rmc_spock.Context.{
  EnvStackItem, Context, with_stack, new_top, push_environment, restore, restore_stack,
  insert_employed,
}
use rmc_spock.Context.Excursion.{Above, act_employ, act-Above, restore_stack-more}
use rmc_spock.Install.{Outside, Options}
use rmc_spock.Install.Parasites.{register}
use rmc_spock.Install.Build.{excursion, prepare, install}
use rmc_spock.Install.Effects.{saved}
use rmc_spock.Install.Kept.{Keeps, keeping, KeptBySteps, excursion-Keeps, prepare-Keeps}

module _ ⦃lib : Libraries⦄ where
  -- Packages were entered, and nothing else was done to a directory.
  pub data Grown (from : Directory) : Directory → Type 0 where
    as_before : Grown from from
    one_more :
        (dir next : Directory) (pkg : Package)
        → Grown from dir
        → Directory.insert dir pkg ≡ ok next
        → Grown from next

  -- Besides the environments: definitions are as at the beginning, and the directory has grown.
  abbrev pub Onward : Context → Context → Type 0
  Onward start ctx =
      Grown start.all_packages ctx.all_packages
      × (ctx.definitions_by_name ≡ start.definitions_by_name)

  -- At least one environment lies on the stack `base`.
  abbrev InStack : Context → List EnvStackItem → Context → Type 0
  InStack start base ctx =
      (top : EnvStackItem) × (more : List EnvStackItem) × (ctx.env_stack ≡ top ∷ (more ++ base))
      × Onward start ctx

  pushed-InStack :
      (start : Context) (base : List EnvStackItem) (ctx : Context)
      → InStack start base ctx
      → InStack start base (push_environment ctx)
  unfolding push_environment
  pushed-InStack start base ctx (top, more, e, on) =
      (new_top ctx.env_stack, top ∷ more, ap (λ s. new_top ctx.env_stack ∷ s) e, on)

  employed-InStack :
      (start : Context) (base : List EnvStackItem) (pkg : Package) (ctx next : Context)
      → InStack start base ctx
      → insert_employed ctx pkg ≡ ok next
      → InStack start base next
  employed-InStack start base pkg ctx next (top, more, e, on) k =
      let under = with_stack ctx base in
      let above : Above under ctx = (top, more, ap (with_stack ctx) e) in
      let (top', more', r) = act-Above under ctx next (act_employ pkg) above k in
      (top', more', ap (λ (c : Context). c.env_stack) r, subst (Onward start) (sym r) on)

  registered-InStack :
      (start : Context) (base : List EnvStackItem) (pkg : Package) (ctx next : Context)
      → InStack start base ctx
      → register pkg ctx ≡ ok next
      → InStack start base next
  registered-InStack start base pkg ctx next (top, more, e, (grown, same)) k =
      go (Directory.insert ctx.all_packages pkg) refl k
    where
      ok-inj : (a b : Context) → ok a ≡ ok b → a ≡ b
      ok-inj a b q = cc

      go :
          (o : Outcome Directory)
          → Directory.insert ctx.all_packages pkg ≡ o
          → elim o as (λ x. Outcome Context) [
            | ok larger ↦ ok (record ctx { all_packages = larger })
            | threw x ↦ threw x
            | aborted ↦ aborted
            | exhausted ↦ exhausted
          ]
            ≡ ok next
          → InStack start base next
      go (ok larger) q h =
          subst (InStack start base) (ok-inj (record ctx { all_packages = larger }) next h)
            (top, more, e, (one_more ctx.all_packages larger pkg grown q, same))
      go (threw x) q h = cc
      go aborted q h = cc
      go exhausted q h = cc

  -- The size of the stack below is restored.
  restored :
      (start : Context) (base : List EnvStackItem) (ctx : Context)
      → InStack start base ctx
      → (restore (length base) ctx).env_stack ≡ base
  unfolding restore
  restored start base ctx (top, more, e, on) =
      ap (restore_stack (length base)) e ∙ restore_stack-more (top ∷ more) base

  restored-Onward :
      (start : Context) (base : List EnvStackItem) (ctx : Context)
      → InStack start base ctx
      → Onward start (restore (length base) ctx)
  unfolding restore
  restored-Onward start base ctx (top, more, e, on) = on

  afresh-InStack :
      (start : Context) (base : List EnvStackItem) (ctx : Context)
      → InStack start base ctx
      → InStack start base (push_environment (restore (length base) ctx))
  unfolding push_environment
  afresh-InStack start base ctx h =
      let lower = restore (length base) ctx in
      (
        new_top lower.env_stack,
        [],
        ap (λ s. new_top lower.env_stack ∷ s) (restored start base ctx h),
        restored-Onward start base ctx h,
      )

  InStack-KeptBySteps :
      (start : Context) (base : List EnvStackItem) → KeptBySteps (InStack start base) (length base)
  InStack-KeptBySteps start base = record {
    pushed = pushed-InStack start base;
    employed = employed-InStack start base;
    registered = registered-InStack start base;
    afresh = afresh-InStack start base;
  }

  push-InStack :
      (start ctx : Context) → Onward start ctx → InStack start ctx.env_stack (push_environment ctx)
  unfolding push_environment
  push-InStack start ctx on = (new_top ctx.env_stack, [], refl, on)

  module _ ⦃graphs : GraphOps⦄ (outside : Outside) where
    -- The excursion leaves the stack as it was.
    excursion-kept :
        (start : Context) (d : DefinedPackage) (st : Settings) (options : Options) (tarball : Text)
        (install_deps build_deps : Packages) (ctx : Context)
        → Onward start ctx
        → ((saved (excursion outside d st options tarball install_deps build_deps) ctx).1.env_stack
            ≡ ctx.env_stack)
          × Onward start
              (saved (excursion outside d st options tarball install_deps build_deps) ctx).1
    unfolding saved
    excursion-kept start d st options tarball install_deps build_deps ctx on =
        let base = ctx.env_stack in
        let after =
          excursion outside d st options tarball install_deps build_deps
            (λ c. (ok tt, restore (length base) c)) ctx in
        let h : InStack start base after.1 =
          excursion-Keeps (InStack start base) (InStack-KeptBySteps start base) outside d st options
            tarball install_deps build_deps ctx (push-InStack start ctx on) in
        (restored start base after.1 h, restored-Onward start base after.1 h)

    nested :
        (start : Context) (base : List EnvStackItem) (d : DefinedPackage) (options : Options)
        (st : Settings) (tarball : Text) (install_deps build_deps : Packages)
        → Keeps
            (InStack start base)
            (saved (excursion outside d st options tarball install_deps build_deps))
    nested start base d options st tarball install_deps build_deps =
        keeping (λ ctx (top, more, e, on).
          let (stack, onward) =
            excursion-kept start d st options tarball install_deps build_deps ctx on in
          (top, more, stack ∙ e, onward))

    -- However `install` ends, with a package, an exception or a failed assertion: the stack of environments
    -- is the one from before, with the packages in use and the variables of each environment, the
    -- definitions are the same, and the directory of packages is as before but for packages that were
    -- entered.
    pub install-env_stack :
        (fuel : ℕ) (d : DefinedPackage) (settings : Settings) (options : Options) (ctx : Context)
        → ((install outside fuel d settings options ctx).1.env_stack ≡ ctx.env_stack)
          × Grown ctx.all_packages (install outside fuel d settings options ctx).1.all_packages
          × ((install outside fuel d settings options ctx).1.definitions_by_name
              ≡ ctx.definitions_by_name)
    unfolding install saved
    install-env_stack fuel d settings options ctx =
        let base = ctx.env_stack in
        let after = prepare outside fuel d settings options ctx in
        let h : InStack ctx base after.1 =
          prepare-Keeps (InStack ctx base) (InStack-KeptBySteps ctx base) outside fuel d settings
            options (nested ctx base d options) ctx (push-InStack ctx ctx (as_before, refl)) in
        let (grown, same) = restored-Onward ctx base after.1 h in
        (restored ctx base after.1 h, grown, same)
