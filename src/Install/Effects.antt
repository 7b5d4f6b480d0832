-- ===== src/Install/Effects.antt =====
-- Statements that change the context and may end with an exception, and `Context::SavedStack` of
-- src/Spock/Context.C, whose destructor restores the stack however a block ends.
use rmc_spock.Base.{length, Outcome, ok, threw, aborted, exhausted}
use rmc_spock.Libraries.{Libraries}
use rmc_spock.Context.{Context, restore, push_environment}

module _ ⦃lib : Libraries⦄ where
  abbrev pub M : Type 0 → Type 0
  M A = Context → Outcome A × Context

  unfoldable pub pure : {A : Type 0} → A → M A
  pure a ctx = (ok a, ctx)

  abbrev pub and_then : {A B : Type 0} → Outcome A → (A → M B) → M B
  and_then (ok a) f ctx = f a ctx
  and_then (threw e) f ctx = (threw e, ctx)
  and_then aborted f ctx = (aborted, ctx)
  and_then exhausted f ctx = (exhausted, ctx)

  infixl 5 ◌>>=◌ ◌>>◌
  unfoldable pub ◌>>=◌ : {A B : Type 0} → M A → (A → M B) → M B
  m >>= f = λ ctx. let r = m ctx in and_then r.0 f r.1

  abbrev pub ◌>>◌ : {B : Type 0} → M (Unit {0}) → M B → M B
  m >> n = m >>= λ _. n

  -- What only reads the context.
  unfoldable pub reads : {A : Type 0} → (Context → Outcome A) → M A
  reads f ctx = (f ctx, ctx)

  unfoldable pub lift : {A : Type 0} → Outcome A → M A
  lift o ctx = (o, ctx)

  -- The context after an operation; before it, if the operation fails.
  abbrev pub changed : Context → Outcome Context → Outcome (Unit {0}) × Context
  changed ctx (ok next) = (ok tt, next)
  changed ctx (threw e) = (threw e, ctx)
  changed ctx aborted = (aborted, ctx)
  changed ctx exhausted = (exhausted, ctx)

  unfoldable pub update : (Context → Outcome Context) → M (Unit {0})
  update f ctx = changed ctx (f ctx)

  unfoldable pub push : M (Unit {0})
  push ctx = (ok tt, push_environment ctx)

  -- A block with a `SavedStack`, which it can restore itself too.
  unfoldable pub saved : {A : Type 0} → (M (Unit {0}) → M A) → M A
  saved block ctx =
      let size = length ctx.env_stack in
      let r = block (λ c. (ok tt, restore size c)) ctx in (r.0, restore size r.1)
