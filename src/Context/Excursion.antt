-- ===== src/Context/Excursion.antt =====
-- Work in an environment of its own, as `Context::SavedStack` of src/Spock/Context.C makes possible.
use rmc_spock.Base.{
  ◌≡◌, refl, ap, sym, subst, ◌∙◌, Bool, true, false, List, [], ◌∷◌, ◌++◌, Text, length,
  length-append, lt→ltb, Outcome, ok, threw, aborted, exhausted, ◌>>=◌, ◌>>◌, assert, arith,
}
use rmc_spock.Libraries.{Libraries}
use rmc_spock.Package.{Package, is_installed}
use rmc_spock.Environment.{set}
use rmc_spock.Context.{
  EnvStackItem, Context, with_stack, new_top, employed, among, push_environment, restore_stack,
  restore, is_employed, employ_at, insert_employed, set_env_var,
}

module _ ⦃lib : Libraries⦄ where
  -- What is done in an environment.
  pub data Action : Type 0 where
    act_push : Action
    act_employ : Package → Action
    act_set : Text → Text → Action

  abbrev pub act : Action → Context → Outcome Context
  act act_push ctx = ok (push_environment ctx)
  act (act_employ pkg) ctx = insert_employed ctx pkg
  act (act_set name value) ctx = set_env_var ctx name value

  abbrev pub perform : List Action → Context → Outcome Context
  perform [] ctx = ok ctx
  perform (a ∷ as') ctx = do next ← act a ctx; perform as' next

  -- The context has at least one more item on the stack than `base`, and is the same besides.
  abbrev pub Above : Context → Context → Type 0
  Above base ctx =
      (top : EnvStackItem) × (more : List EnvStackItem) × (ctx
        ≡ with_stack base (top ∷ (more ++ base.env_stack)))

  push-Above : (base : Context) → Above base (push_environment base)
  unfolding push_environment
  push-Above base = (new_top base.env_stack, [], refl)

  ok-inj : (a b : Context) → ok a ≡ ok b → b ≡ a
  ok-inj a b e = cc

  employ-Above :
      (base next : Context) (top : EnvStackItem) (more : List EnvStackItem) (b k : Bool)
      (o : Outcome EnvStackItem)
      → (do
        assert b
        known ← elim b as (λ x. Outcome Bool) [ false ↦ ok false | true ↦ ok k ]
        elim known [
          | true ↦ ok (with_stack base (top ∷ (more ++ base.env_stack)))
          | false ↦ (do changed ← o; ok (with_stack base (changed ∷ (more ++ base.env_stack))))
        ])
        ≡ ok next
      → Above base next
  employ-Above base next top more false k o e = cc
  employ-Above base next top more true true o e = (top, more, ok-inj _ next e)
  employ-Above base next top more true false (ok t) e = (t, more, ok-inj _ next e)
  employ-Above base next top more true false (threw x) e = cc
  employ-Above base next top more true false aborted e = cc
  employ-Above base next top more true false exhausted e = cc

  act_at-Above :
      (base next : Context) (top : EnvStackItem) (more : List EnvStackItem) (a : Action)
      → act a (with_stack base (top ∷ (more ++ base.env_stack))) ≡ ok next
      → Above base next
  unfolding push_environment insert_employed set_env_var is_employed employed
  act_at-Above base next top more act_push e =
      (new_top (top ∷ (more ++ base.env_stack)), top ∷ more, ok-inj _ next e)
  act_at-Above base next top more (act_employ pkg) e =
      employ-Above base next top more (is_installed pkg) (among pkg top.packages)
        (employ_at top pkg) e
  act_at-Above base next top more (act_set name value) e =
      (record top { variables = set top.variables name value }, more, ok-inj _ next e)

  pub act-Above :
      (base ctx next : Context) (a : Action)
      → Above base ctx
      → act a ctx ≡ ok next
      → Above base next
  act-Above base ctx next a (top, more, r) e =
      act_at-Above base next top more a (ap (act a) (sym r) ∙ e)

  perform-Above :
      (base ctx after : Context) (acts : List Action)
      → Above base ctx
      → perform acts ctx ≡ ok after
      → Above base after
  perform-Above base ctx after [] h e = subst (Above base) (sym (ok-inj ctx after e)) h
  perform-Above base ctx after (a ∷ acts) h e =
      go (act a ctx) refl
        (λ next k. perform-Above base next after acts (act-Above base ctx next a h k)) e
    where
      go :
          (o : Outcome Context)
          → act a ctx ≡ o
          → ((next : Context)
              → act a ctx ≡ ok next
              → perform acts next ≡ ok after
              → Above base after)
          → (o >>= λ next. perform acts next) ≡ ok after
          → Above base after
      go (ok next) k f q = f next k q
      go (threw x) k f q = cc
      go aborted k f q = cc
      go exhausted k f q = cc

  pub restore_stack-more :
      (more stack : List EnvStackItem) → restore_stack (length stack) (more ++ stack) ≡ stack
  unfolding restore_stack
  restore_stack-more [] [] = refl
  restore_stack-more [] (t ∷ stack) = ground arith
  restore_stack-more (m ∷ more) stack =
      rw
        (
          restore_stack,
          lt→ltb (length stack) (length (m ∷ (more ++ stack)))
              (omega (arith, length-append more stack)),
        )
        (restore_stack-more more stack)

  -- After an environment was pushed, and whatever environments were pushed, packages employed and
  -- variables set since, restoring the size that the stack had before gives the context back.
  pub excursion_lem :
      (ctx after : Context) (acts : List Action)
      → perform acts (push_environment ctx) ≡ ok after
      → restore (length ctx.env_stack) after ≡ ctx
  unfolding restore
  excursion_lem ctx after acts e =
      let (top, more, r) = perform-Above ctx (push_environment ctx) after acts (push-Above ctx) e in
      ap (λ c. with_stack c (restore_stack (length ctx.env_stack) c.env_stack)) r
      ∙ ap (with_stack ctx) (restore_stack-more (top ∷ more) ctx.env_stack)
