-- ===== src/Filter/Exits.antt =====
-- Every step of src/spock-filter.C keeps the invariant of the signals: the exits that follow.
use rmc_spock.Base.{
  ℕ, List, none, some, [], ◌∷◌, ◌++◌, ◌≡◌, inl, inr, refl, sym, subst, ◌∙◌, ◌<◌, ◌+◌, ltb, ltb→lt,
  true, false, arith, Option-cases, if_cases, if_intro, not, ◌&&◌, ◌==◌, if◌then◌else◌,
}
use rmc_spock.Filter.State.{
  State, Round, Event, EventKind, Sent, Signal, assign_event, is_negative, signal_handler,
  wait_for_natural_exit, int_primary, term_primary, kill_primary, int_filter, term_filter,
  exit_with, send, is_expired, status, to_primary, to_filter, sigint, sigterm, sigkill,
}
use rmc_spock.Filter.Transfer.{transfer_data}
use rmc_spock.Filter.Events.{
  process, wait_condition, final_action, new_int_primary, new_wait_for_natural_exit,
  new_kill_filter, new_term_filter, new_int_filter, new_kill_primary, new_term_primary,
  signal_filter,
}
use rmc_spock.Filter.Loop.{run, round, next_step, advance, transferred}
use rmc_spock.Filter.Signals.{
  OnlyPrimary, OnlyFilter, InOrder, InOrder-primary, InOrder-filter, KindOk, EventOk, EndOk, Inv,
  Fewer, KindOk-Fewer, EventOk-Fewer, EndOk-Fewer, Inv-fewer,
}

wait_condition-Fewer :
    (k : EventKind) (r : Round) (s : State)
    → Fewer s.primary_pid (wait_condition k r s).0.primary_pid
      × Fewer s.filter_pid (wait_condition k r s).0.filter_pid
unfolding wait_condition
wait_condition-Fewer wait_for_natural_exit r s = (ground arith, ground arith)
wait_condition-Fewer kill_primary r s = (inl refl, inl refl)
wait_condition-Fewer k r s = (ground arith, ground arith)

wait_condition-same :
    (k : EventKind) (r : Round) (s : State)
    → ((wait_condition k r s).0.sent ≡ s.sent)
      × ((wait_condition k r s).0.next_event ≡ s.next_event)
      × ((wait_condition k r s).0.ended ≡ s.ended)
unfolding wait_condition
wait_condition-same wait_for_natural_exit r s = ground arith
wait_condition-same kill_primary r s = (refl, refl, refl)
wait_condition-same k r s = ground arith

wait_condition-Inv : (k : EventKind) (r : Round) (s : State) → Inv s → Inv (wait_condition k r s).0
wait_condition-Inv k r s i =
    let same = wait_condition-same k r s in
    let fewer = wait_condition-Fewer k r s in
    Inv-fewer s (wait_condition k r s).0 same.0 same.1 (inl same.2) fewer.0 fewer.1 i

transferred-Inv : (r : Round) (s : State) → Inv s → Inv (transferred r s)
unfolding transferred signal_handler transfer_data
transferred-Inv r s i =
    Inv-fewer s (transferred r s) (ground arith) (ground arith) (ground arith) (inl (ground arith))
      (inl (ground arith)) i

-- The constructors.
assign_event-Inv :
    (k : EventKind) (until : ℕ) (s : State)
    → KindOk k s.primary_pid
    → Inv s
    → Inv (assign_event k until s)
unfolding assign_event
assign_event-Inv k until s ok i = elim (Option-cases s.ended) [
  | inl e ↦
      subst
        (λ o. Inv (elim o [
          | none ↦ record s { next_event = some (record { kind = k; wait_until = until }) }
          | some e ↦ s
        ]))
        (sym e) (record { in_order = i.in_order; event_ok = ok; end_ok = i.end_ok })
  | inr (x, e) ↦
      subst
        (λ o. Inv (elim o [
          | none ↦ record s { next_event = some (record { kind = k; wait_until = until }) }
          | some e ↦ s
        ]))
        (sym e) i
]

-- `exit` with both processes gone.
exit_with-Inv :
    (n : ℕ) (s : State) → s.primary_pid ≡ 0 → s.filter_pid ≡ 0 → Inv s → Inv (exit_with n s)
unfolding exit_with
exit_with-Inv n s p f i = record { in_order = i.in_order; event_ok = i.event_ok; end_ok = (p, f) }

gone : (n : ℕ) → ltb 0 n ≡ false → n ≡ 0
gone n h = ground arith

signal_filter-Inv :
    (x : Signal) (r : Round) (s : State) → s.primary_pid ≡ 0 → Inv s → Inv (signal_filter x r s)
unfolding signal_filter exit_with send
signal_filter-Inv x r s p i =
    let order = InOrder-filter s.sent s.primary_pid x p i.in_order in
    if_intro Inv (ltb 0 s.filter_pid) _ s
      (if_intro Inv r.kill_filter_ok (send (to_filter x) s)
        (exit_with 2 (record (send (to_filter x) s) { filter_pid = 0 }))
        (record { in_order = order; event_ok = i.event_ok; end_ok = i.end_ok })
        (record { in_order = order; event_ok = i.event_ok; end_ok = (p, refl) }))
      i

signal_filter-primary_pid :
    (x : Signal) (r : Round) (s : State) → (signal_filter x r s).primary_pid ≡ s.primary_pid
unfolding signal_filter exit_with send
signal_filter-primary_pid x r s = ground arith

new_int_filter-Inv : (r : Round) (s : State) → s.primary_pid ≡ 0 → Inv s → Inv (new_int_filter r s)
unfolding new_int_filter
new_int_filter-Inv r s p i =
    assign_event-Inv int_filter (r.started_at + 5) (signal_filter sigint r s)
      (signal_filter-primary_pid sigint r s ∙ p) (signal_filter-Inv sigint r s p i)

new_term_filter-Inv :
    (r : Round) (s : State) → s.primary_pid ≡ 0 → Inv s → Inv (new_term_filter r s)
unfolding new_term_filter
new_term_filter-Inv r s p i =
    assign_event-Inv term_filter (r.started_at + 5) (signal_filter sigterm r s)
      (signal_filter-primary_pid sigterm r s ∙ p) (signal_filter-Inv sigterm r s p i)

new_kill_filter-Inv : (s : State) → s.primary_pid ≡ 0 → Inv s → Inv (new_kill_filter s)
unfolding new_kill_filter send exit_with
new_kill_filter-Inv s p i =
    if_cases Inv (ltb 0 s.filter_pid)
      (exit_with 2
        (record (send (to_filter sigkill) s) { program_exit_status = 2; filter_pid = 0 }))
      (exit_with s.program_exit_status s)
      (λ _. record {
        in_order = InOrder-filter s.sent s.primary_pid sigkill p i.in_order;
        event_ok = i.event_ok;
        end_ok = (p, refl);
      })
      (λ f. exit_with-Inv s.program_exit_status s p (gone s.filter_pid f) i)

-- A signal to the primary command, which is then forgotten or not.
send_primary-Inv :
    (x : Signal) (s s' : State)
    → OnlyPrimary (to_primary x ∷ [])
    → 0 < s.primary_pid
    → s'.sent ≡ s.sent ++ to_primary x ∷ []
    → s'.next_event ≡ s.next_event
    → s'.ended ≡ s.ended
    → Fewer s.primary_pid s'.primary_pid
    → s'.filter_pid ≡ s.filter_pid
    → Inv s
    → Inv s'
send_primary-Inv x s s' mild pos e n d h g i = record {
  in_order =
      subst (λ l. InOrder l s'.primary_pid) (sym e)
        (InOrder-primary s.sent s.primary_pid s'.primary_pid x pos mild i.in_order);
  event_ok =
      subst (λ o. EventOk o s'.primary_pid) (sym n)
        (EventOk-Fewer s.next_event s.primary_pid s'.primary_pid h i.event_ok);
  end_ok =
      subst (λ o. EndOk o s'.primary_pid s'.filter_pid) (sym d)
        (EndOk-Fewer s.ended s.primary_pid s'.primary_pid s.filter_pid s'.filter_pid h (inl g)
          i.end_ok);
}

new_kill_primary-Inv : (r : Round) (s : State) → Inv s → Inv (new_kill_primary r s)
unfolding new_kill_primary send
new_kill_primary-Inv r s i =
    let forgotten = record (send (to_primary sigint) s) {
      program_exit_status = 1;
      primary_pid = 0;
    } in
    let reached = λ (s' : State). Inv (assign_event kill_primary r.started_at s') in
    if_cases reached (ltb 0 s.primary_pid) forgotten s
      (λ p. assign_event-Inv kill_primary r.started_at forgotten refl (
        send_primary-Inv sigint s forgotten tt (ltb→lt 0 s.primary_pid p) refl refl refl (inr refl)
          refl i))
      (λ p. assign_event-Inv kill_primary r.started_at s (gone s.primary_pid p) i)

new_term_primary-Inv : (r : Round) (s : State) → Inv s → Inv (new_term_primary r s)
unfolding new_term_primary send
new_term_primary-Inv r s i =
    let called = send (to_primary sigterm) s in
    let lost = record called { primary_pid = 0 } in
    let reached = λ (s' : State). Inv (assign_event term_primary (r.started_at + 5) s') in
    let keep =
      λ (s' : State) (v : Inv s'). assign_event-Inv term_primary (r.started_at + 5) s' tt v in
    if_cases reached (ltb 0 s.primary_pid)
      (if r.kill_primary_ok then called else new_int_filter r lost)
      (new_int_filter r (record s { primary_pid = 0 }))
      (λ p.
        let pos = ltb→lt 0 s.primary_pid p in
        if_intro reached r.kill_primary_ok called (new_int_filter r lost)
          (keep called (send_primary-Inv sigterm s called tt pos refl refl refl (inl refl) refl i))
          (keep (new_int_filter r lost) (
            new_int_filter-Inv r lost refl
              (send_primary-Inv sigterm s lost tt pos refl refl refl (inr refl) refl i))))
      (λ p. keep (new_int_filter r (record s { primary_pid = 0 })) (
        new_int_filter-Inv r (record s { primary_pid = 0 }) refl
          (Inv-fewer s (record s { primary_pid = 0 }) refl refl (inl refl) (inr refl) (inl refl)
            i)))

new_int_primary-Inv : (r : Round) (s : State) → Inv s → Inv (new_int_primary r s)
unfolding new_int_primary send
new_int_primary-Inv r s i =
    let called = send (to_primary sigint) s in
    let lost = record called { program_exit_status = 1; primary_pid = 0 } in
    let none_left = record s { program_exit_status = 1; primary_pid = 0 } in
    let reached = λ (s' : State). Inv (assign_event int_primary (r.started_at + 5) s') in
    let keep =
      λ (s' : State) (v : Inv s'). assign_event-Inv int_primary (r.started_at + 5) s' tt v in
    if_cases reached (ltb 0 s.primary_pid)
      (if r.kill_primary_ok then called else new_int_filter r lost) (new_int_filter r none_left)
      (λ p.
        let pos = ltb→lt 0 s.primary_pid p in
        if_intro reached r.kill_primary_ok called (new_int_filter r lost)
          (keep called (send_primary-Inv sigint s called tt pos refl refl refl (inl refl) refl i))
          (keep (new_int_filter r lost) (
            new_int_filter-Inv r lost refl
              (send_primary-Inv sigint s lost tt pos refl refl refl (inr refl) refl i))))
      (λ p. keep (new_int_filter r none_left) (
        new_int_filter-Inv r none_left refl
          (Inv-fewer s none_left refl refl (inl refl) (inr refl) (inl refl) i)))

final_action-Inv :
    (k : EventKind) (r : Round) (s : State)
    → KindOk k s.primary_pid
    → Inv s
    → Inv (final_action k r s)
unfolding final_action
final_action-Inv wait_for_natural_exit r s ok i =
    if_cases Inv (not (ltb 0 s.primary_pid) && not (ltb 0 s.filter_pid))
      (exit_with s.program_exit_status s) (new_int_primary r s)
      (λ both. exit_with-Inv s.program_exit_status s (ground arith) (ground arith) i)
      (λ _. new_int_primary-Inv r s i)
final_action-Inv int_primary r s ok i =
    if_cases Inv (ltb 0 s.primary_pid) (new_term_primary r s) (new_int_filter r s)
      (λ _. new_term_primary-Inv r s i) (λ p. new_int_filter-Inv r s (gone s.primary_pid p) i)
final_action-Inv term_primary r s ok i =
    if_cases Inv (ltb 0 s.primary_pid) (new_kill_primary r s) (new_int_filter r s)
      (λ _. new_kill_primary-Inv r s i) (λ p. new_int_filter-Inv r s (gone s.primary_pid p) i)
final_action-Inv kill_primary r s ok i =
    if_cases Inv (ltb 0 s.filter_pid) (new_int_filter r s) (exit_with s.program_exit_status s)
      (λ _. new_int_filter-Inv r s ok i)
      (λ f. exit_with-Inv s.program_exit_status s ok (gone s.filter_pid f) i)
final_action-Inv int_filter r s ok i =
    if_cases Inv (ltb 0 s.filter_pid) (new_term_filter r s) (exit_with s.program_exit_status s)
      (λ _. new_term_filter-Inv r s ok i)
      (λ f. exit_with-Inv s.program_exit_status s ok (gone s.filter_pid f) i)
final_action-Inv term_filter r s ok i =
    if_cases Inv (ltb 0 s.filter_pid) (new_kill_filter s) (exit_with s.program_exit_status s)
      (λ _. new_kill_filter-Inv s ok i)
      (λ f. exit_with-Inv s.program_exit_status s ok (gone s.filter_pid f) i)

process-Inv :
    (e : Event) (r : Round) (s : State) → s.next_event ≡ some e → Inv s → Inv (process e r s)
unfolding process
process-Inv e r s at i =
    let asked = wait_condition e.kind r s in
    let ok = subst (λ o. EventOk o s.primary_pid) at i.event_ok in
    let i' = wait_condition-Inv e.kind r s i in
    let fewer = wait_condition-Fewer e.kind r s in
    if_intro Inv (is_expired r.tested_at e.wait_until) (final_action e.kind r s)
      (if asked.1 then final_action e.kind r asked.0 else asked.0)
      (final_action-Inv e.kind r s ok i)
      (if_intro Inv asked.1 (final_action e.kind r asked.0) asked.0
        (final_action-Inv e.kind r asked.0
          (KindOk-Fewer e.kind s.primary_pid asked.0.primary_pid fewer.0 ok) i')
        i')

next_step-Inv : (r : Round) (s : State) → Inv s → Inv (next_step r s)
unfolding next_step advance new_wait_for_natural_exit
next_step-Inv r s i = elim (Option-cases s.next_event) [
  | inr (e, at) ↦ subst (λ o. Inv (advance o r s)) (sym at) (process-Inv e r s at i)
  | inl at ↦
      let waiting = record s { filter_input_closed = true } in
      subst (λ o. Inv (advance o r s)) (sym at)
        (if_intro Inv (not (s.was_interrupted == 0)) (new_int_primary r s)
          (if is_negative s.output_fd && is_negative s.error_fd
            then new_wait_for_natural_exit r waiting
            else s)
          (new_int_primary-Inv r s i)
          (if_intro Inv (is_negative s.output_fd && is_negative s.error_fd)
            (new_wait_for_natural_exit r waiting) s
            (assign_event-Inv wait_for_natural_exit (r.started_at + 60) waiting tt
              (Inv-fewer s waiting refl refl (inl refl) (inl refl) (inl refl) i))
            i))
]

round-Inv : (r : Round) (s : State) → Inv s → Inv (round r s)
unfolding round
round-Inv r s i =
    let s1 = transferred r s in
    let i1 = transferred-Inv r s i in
    elim (Option-cases s1.ended) [
      | inl live ↦
          subst (λ o. Inv (elim o [ none ↦ next_step r s1 | some e ↦ s1 ])) (sym live)
            (next_step-Inv r s1 i1)
      | inr (x, over) ↦
          subst (λ o. Inv (elim o [ none ↦ next_step r s1 | some e ↦ s1 ])) (sym over) i1
    ]

run-Inv : (rs : List Round) (s : State) → Inv s → Inv (run rs s)
unfolding run
run-Inv [] s i = i
run-Inv (r ∷ rs) s i =
    let after = run-Inv rs (round r s) (round-Inv r s i) in
    elim (Option-cases s.ended) [
      | inl live ↦
          subst (λ o. Inv (elim o [ none ↦ run rs (round r s) | some e ↦ s ])) (sym live) after
      | inr (x, over) ↦
          subst (λ o. Inv (elim o [ none ↦ run rs (round r s) | some e ↦ s ])) (sym over) i
    ]

-- The state in which `main` enters the loop.
abbrev pub IsStarted : State → Type 0
IsStarted s = (s.sent ≡ []) × (s.next_event ≡ none) × (s.ended ≡ none)

IsStarted-Inv : (s : State) → IsStarted s → Inv s
IsStarted-Inv s h = record {
  in_order = ([], [], h.0, tt, tt, λ _. refl);
  event_ok = subst (λ o. EventOk o s.primary_pid) (sym h.1) tt;
  end_ok = subst (λ o. EndOk o s.primary_pid s.filter_pid) (sym h.2) tt;
}

-- From a start without signals, events or an end, if the tool has exited with a status after some rounds,
-- then neither the primary command nor the filter is still awaited.
pub run-gone :
    (rs : List Round) (s : State) (n : ℕ)
    → IsStarted s
    → (run rs s).ended ≡ some (status n)
    → ((run rs s).primary_pid ≡ 0) × ((run rs s).filter_pid ≡ 0)
run-gone rs s n h e =
    let i = run-Inv rs s (IsStarted-Inv s h) in
    subst (λ o. EndOk o (run rs s).primary_pid (run rs s).filter_pid) e i.end_ok

-- From a start without signals, events or an end, the signals of any rounds are signals to the primary
-- command, of which none is SIGKILL, and then signals to the filter, which there are only when the primary
-- command is no longer awaited.
pub run-sent :
    (rs : List Round) (s : State)
    → IsStarted s
    → (front : List Sent) × (back : List Sent) × ((run rs s).sent ≡ front ++ back)
      × OnlyPrimary front
      × OnlyFilter back
      × (0 < (run rs s).primary_pid → back ≡ [])
run-sent rs s h = let i = run-Inv rs s (IsStarted-Inv s h) in i.in_order
