-- ===== src/Filter/Signals.antt =====
-- The order of the signals that src/spock-filter.C sends, and the invariant of its state.
use rmc_spock.Base.{
  ℕ, Option, List, none, some, [], ◌∷◌, ◌++◌, ◌≡◌, ◌⊎◌, inl, inr, refl, sym, append-nil,
  append_assoc, ap, subst, ◌∙◌, ◌<◌, arith,
}
use rmc_spock.Filter.State.{
  State, Event, EventKind, Ending, Sent, Signal, wait_for_natural_exit, int_primary, term_primary,
  kill_primary, int_filter, term_filter, status, failed_assertion, to_primary, to_filter, sigint,
  sigterm, sigkill,
}

-- Signals to the primary command only, none of them SIGKILL.
abbrev pub OnlyPrimary : List Sent → Type 0
OnlyPrimary [] = Unit {0}
OnlyPrimary (to_primary sigkill ∷ l) = ⊥
OnlyPrimary (to_primary sigint ∷ l) = OnlyPrimary l
OnlyPrimary (to_primary sigterm ∷ l) = OnlyPrimary l
OnlyPrimary (to_filter x ∷ l) = ⊥

abbrev pub OnlyFilter : List Sent → Type 0
OnlyFilter [] = Unit {0}
OnlyFilter (to_primary x ∷ l) = ⊥
OnlyFilter (to_filter x ∷ l) = OnlyFilter l

-- The signals to the primary command come before those to the filter, which are sent only when the
-- primary command is gone.
abbrev pub InOrder : List Sent → ℕ → Type 0
InOrder sent p =
    (front : List Sent) × (back : List Sent) × (sent ≡ front ++ back)
    × OnlyPrimary front
    × OnlyFilter back
    × (0 < p → back ≡ [])

pub OnlyPrimary-append : (l m : List Sent) → OnlyPrimary l → OnlyPrimary m → OnlyPrimary (l ++ m)
OnlyPrimary-append [] m h k = k
OnlyPrimary-append (to_primary sigint ∷ l) m h k = OnlyPrimary-append l m h k
OnlyPrimary-append (to_primary sigterm ∷ l) m h k = OnlyPrimary-append l m h k
OnlyPrimary-append (to_primary sigkill ∷ l) m h k = absurd h
OnlyPrimary-append (to_filter x ∷ l) m h k = absurd h

pub OnlyFilter-append : (l m : List Sent) → OnlyFilter l → OnlyFilter m → OnlyFilter (l ++ m)
OnlyFilter-append [] m h k = k
OnlyFilter-append (to_primary x ∷ l) m h k = absurd h
OnlyFilter-append (to_filter x ∷ l) m h k = OnlyFilter-append l m h k

pub InOrder-primary :
    (sent : List Sent) (p p' : ℕ) (x : Signal)
    → 0 < p
    → OnlyPrimary (to_primary x ∷ [])
    → InOrder sent p
    → InOrder (sent ++ to_primary x ∷ []) p'
InOrder-primary sent p p' x pos mild (f, b, e, hf, hb, none_yet) = (
  sent ++ to_primary x ∷ [],
  [],
  sym (append-nil _),
  OnlyPrimary-append sent (to_primary x ∷ [])
      (subst OnlyPrimary (sym (e ∙ ap (λ c. f ++ c) (none_yet pos) ∙ append-nil f)) hf) mild,
  tt,
  λ _. refl,
)

pub InOrder-filter :
    (sent : List Sent) (p : ℕ) (x : Signal)
    → p ≡ 0
    → InOrder sent p
    → InOrder (sent ++ to_filter x ∷ []) p
InOrder-filter sent p x gone (f, b, e, hf, hb, k) = (
  f,
  b ++ to_filter x ∷ [],
  rw e (append_assoc f b (to_filter x ∷ [])),
  hf,
  OnlyFilter-append b (to_filter x ∷ []) hb tt,
  λ pos. absurd (omega arith),
)

pub InOrder-gone :
    (sent : List Sent) (p p' : ℕ) → (p' ≡ p) ⊎ (p' ≡ 0) → InOrder sent p → InOrder sent p'
InOrder-gone sent p p' (inl e) h = rw e h
InOrder-gone sent p p' (inr e) (f, b, c, hf, hb, k) = (f, b, c, hf, hb, λ pos. absurd (omega arith))

-- The events behind those of the primary command stand for a command that is gone.
abbrev pub KindOk : EventKind → ℕ → Type 0
KindOk wait_for_natural_exit p = Unit {0}
KindOk int_primary p = Unit {0}
KindOk term_primary p = Unit {0}
KindOk kill_primary p = p ≡ 0
KindOk int_filter p = p ≡ 0
KindOk term_filter p = p ≡ 0

abbrev pub EventOk : Option Event → ℕ → Type 0
EventOk none p = Unit {0}
EventOk (some e) p = KindOk e.kind p

abbrev pub EndOk : Option Ending → ℕ → ℕ → Type 0
EndOk none p f = Unit {0}
EndOk (some failed_assertion) p f = Unit {0}
EndOk (some (status n)) p f = (p ≡ 0) × (f ≡ 0)

pub record Inv (s : State) : Type 0 where
  pub in_order : InOrder s.sent s.primary_pid
  pub event_ok : EventOk s.next_event s.primary_pid
  pub end_ok : EndOk s.ended s.primary_pid s.filter_pid

-- A process is as it was, or gone.
abbrev pub Fewer : ℕ → ℕ → Type 0
Fewer p p' = (p' ≡ p) ⊎ (p' ≡ 0)

pub KindOk-Fewer : (k : EventKind) (p p' : ℕ) → Fewer p p' → KindOk k p → KindOk k p'
KindOk-Fewer wait_for_natural_exit p p' h k = tt
KindOk-Fewer int_primary p p' h k = tt
KindOk-Fewer term_primary p p' h k = tt
KindOk-Fewer kill_primary p p' h k = ground arith
KindOk-Fewer int_filter p p' h k = ground arith
KindOk-Fewer term_filter p p' h k = ground arith

pub EventOk-Fewer : (o : Option Event) (p p' : ℕ) → Fewer p p' → EventOk o p → EventOk o p'
EventOk-Fewer none p p' h k = tt
EventOk-Fewer (some e) p p' h k = KindOk-Fewer e.kind p p' h k

pub EndOk-Fewer :
    (o : Option Ending) (p p' f f' : ℕ) → Fewer p p' → Fewer f f' → EndOk o p f → EndOk o p' f'
EndOk-Fewer none p p' f f' h g k = tt
EndOk-Fewer (some failed_assertion) p p' f f' h g k = tt
EndOk-Fewer (some (status n)) p p' f f' h g k = ground arith

-- What `waitpid` and the transfers change.
pub Inv-fewer :
    (s s' : State)
    → s'.sent ≡ s.sent
    → s'.next_event ≡ s.next_event
    → (s'.ended ≡ s.ended) ⊎ (s'.ended ≡ some failed_assertion)
    → Fewer s.primary_pid s'.primary_pid
    → Fewer s.filter_pid s'.filter_pid
    → Inv s
    → Inv s'
Inv-fewer s s' e n d h g i = record {
  in_order =
      subst (λ l. InOrder l s'.primary_pid) (sym e)
        (InOrder-gone s.sent s.primary_pid s'.primary_pid h i.in_order);
  event_ok =
      subst (λ o. EventOk o s'.primary_pid) (sym n)
        (EventOk-Fewer s.next_event s.primary_pid s'.primary_pid h i.event_ok);
  end_ok = elim d [
    | inl same ↦
        subst (λ o. EndOk o s'.primary_pid s'.filter_pid) (sym same)
          (EndOk-Fewer s.ended s.primary_pid s'.primary_pid s.filter_pid s'.filter_pid h g i.end_ok)
    | inr failed ↦ subst (λ o. EndOk o s'.primary_pid s'.filter_pid) (sym failed) tt
  ];
}
