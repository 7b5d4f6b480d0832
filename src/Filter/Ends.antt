-- ===== src/Filter/Ends.antt =====
-- The loop of src/spock-filter.C ends: each event is replaced by the next one, or the tool exits, as
-- soon as a round begins after its time.
use rmc_spock.Base.{
  ℕ, Option, List, none, some, [], ◌∷◌, ◌≡◌, ◌≢◌, inl, inr, refl, sym, ◌≤◌, ◌<◌, ◌+◌, ◌*◌, ltb,
  true, zero, suc, false, arith, Option-cases, if_cases, if_intro, ◌∙◌, subst, not, ◌&&◌,
  if◌then◌else◌, ◌==◌,
}
use rmc_spock.Filter.State.{
  State, Round, Event, EventKind, Ending, assign_event, is_negative, wait_for_natural_exit,
  int_primary, term_primary, kill_primary, int_filter, term_filter, is_expired, send, to_filter,
  sigkill, exit_with,
}
use rmc_spock.Filter.Events.{
  process, wait_condition, final_action, new_int_primary, new_wait_for_natural_exit,
  new_kill_filter, new_term_filter, new_int_filter, new_kill_primary, new_term_primary,
}
use rmc_spock.Filter.Loop.{
  run, round, next_step, advance, transferred, transferred-next_event, transferred-was_interrupted,
}

-- How many events can still follow.
abbrev pub rank : EventKind → ℕ
rank wait_for_natural_exit = 5
rank int_primary = 4
rank term_primary = 3
rank kill_primary = 2
rank int_filter = 1
rank term_filter = 0

abbrev pub HasEnded : State → Type 0
HasEnded s = (e : Ending) × (s.ended ≡ some e)

-- The clock at the rounds: it does not run back, a round begins at most `gap` after the one before,
-- and takes at most `delay` to start a new event.
abbrev pub Paced : ℕ → ℕ → ℕ → List Round → Type 0
Paced gap delay t [] = Unit {0}
Paced gap delay t (r ∷ rs) =
    (t ≤ r.tested_at)
    × (r.tested_at ≤ t + gap)
    × (r.tested_at ≤ r.started_at)
    × (r.started_at ≤ r.tested_at + delay)
    × Paced gap delay r.tested_at rs

abbrev pub last_time : ℕ → List Round → ℕ
last_time t [] = t
last_time t (r ∷ rs) = last_time r.tested_at rs

-- The tool has ended, or has an event that is not over at `t` and leaves time for those behind it.
abbrev DueAt : ℕ → ℕ → ℕ → Option Ending → Option Event → Type 0
DueAt pace t bound (some x) ev = Unit {0}
DueAt pace t bound none none = ⊥
DueAt pace t bound none (some e) =
    (e.wait_until + rank e.kind * pace ≤ bound) × (t ≤ e.wait_until) × (0 < e.wait_until)

abbrev Due : ℕ → ℕ → ℕ → State → Type 0
Due pace t bound s = DueAt pace t bound s.ended s.next_event

assign_event-Due :
    (pace t bound : ℕ) (k : EventKind) (until : ℕ) (s : State)
    → until + rank k * pace ≤ bound
    → t ≤ until
    → 0 < until
    → Due pace t bound (assign_event k until s)
unfolding assign_event
assign_event-Due pace t bound k until s h m p = elim (Option-cases s.ended) [
  | inl e ↦ rw (e, assign_event) (rw e (h, m, p))
  | inr (x, e) ↦ rw (e, assign_event) (rw e tt)
]

wait_condition-keeps :
    (k : EventKind) (r : Round) (s : State)
    → ((wait_condition k r s).0.ended ≡ s.ended)
      × ((wait_condition k r s).0.next_event ≡ s.next_event)
unfolding wait_condition
wait_condition-keeps wait_for_natural_exit r s = ground arith
wait_condition-keeps kill_primary r s = (refl, refl)
wait_condition-keeps k r s = ground arith

-- The final action leads to an event of a lower rank, or to the exit.
module _ (pace t bound : ℕ) where
  new_int_primary-Due :
      (r : Round) (s : State)
      → r.started_at + 5 + rank int_primary * pace ≤ bound
      → t ≤ r.started_at
      → 0 < r.started_at
      → Due pace t bound (new_int_primary r s)
  unfolding new_int_primary
  new_int_primary-Due r s h m p =
      assign_event-Due pace t bound int_primary (r.started_at + 5) _ h (omega arith) (omega arith)

  new_term_primary-Due :
      (r : Round) (s : State)
      → r.started_at + 5 + rank term_primary * pace ≤ bound
      → t ≤ r.started_at
      → 0 < r.started_at
      → Due pace t bound (new_term_primary r s)
  unfolding new_term_primary
  new_term_primary-Due r s h m p =
      assign_event-Due pace t bound term_primary (r.started_at + 5) _ h (omega arith) (omega arith)

  new_kill_primary-Due :
      (r : Round) (s : State)
      → r.started_at + rank kill_primary * pace ≤ bound
      → t ≤ r.started_at
      → 0 < r.started_at
      → Due pace t bound (new_kill_primary r s)
  unfolding new_kill_primary
  new_kill_primary-Due r s h m p =
      assign_event-Due pace t bound kill_primary (r.started_at) _ h (omega arith) (omega arith)

  new_int_filter-Due :
      (r : Round) (s : State)
      → r.started_at + 5 + rank int_filter * pace ≤ bound
      → t ≤ r.started_at
      → 0 < r.started_at
      → Due pace t bound (new_int_filter r s)
  unfolding new_int_filter
  new_int_filter-Due r s h m p =
      assign_event-Due pace t bound int_filter (r.started_at + 5) _ h (omega arith) (omega arith)

  new_term_filter-Due :
      (r : Round) (s : State)
      → r.started_at + 5 + rank term_filter * pace ≤ bound
      → t ≤ r.started_at
      → 0 < r.started_at
      → Due pace t bound (new_term_filter r s)
  unfolding new_term_filter
  new_term_filter-Due r s h m p =
      assign_event-Due pace t bound term_filter (r.started_at + 5) _ h (omega arith) (omega arith)

  final_action-Due :
      (k : EventKind) (r : Round) (s : State)
      → r.started_at + 5 + rank k * pace ≤ bound + pace
      → t ≤ r.started_at
      → 0 < r.started_at
      → Due pace t bound (final_action k r s)
  unfolding final_action exit_with new_kill_filter
  final_action-Due wait_for_natural_exit r s h m p =
      if_intro (Due pace t bound) _ (exit_with s.program_exit_status s) (new_int_primary r s) tt
        (new_int_primary-Due r s (omega arith) m p)
  final_action-Due int_primary r s h m p =
      if_intro (Due pace t bound) _ (new_term_primary r s) (new_int_filter r s)
        (new_term_primary-Due r s (omega arith) m p) (new_int_filter-Due r s (omega arith) m p)
  final_action-Due term_primary r s h m p =
      if_intro (Due pace t bound) _ (new_kill_primary r s) (new_int_filter r s)
        (new_kill_primary-Due r s (omega arith) m p) (new_int_filter-Due r s (omega arith) m p)
  final_action-Due kill_primary r s h m p =
      if_intro (Due pace t bound) _ (new_int_filter r s) (exit_with s.program_exit_status s)
        (new_int_filter-Due r s (omega arith) m p) tt
  final_action-Due int_filter r s h m p =
      if_intro (Due pace t bound) _ (new_term_filter r s) (exit_with s.program_exit_status s)
        (new_term_filter-Due r s (omega arith) m p) tt
  final_action-Due term_filter r s h m p =
      if_intro (Due pace t bound) _ (new_kill_filter s) (exit_with s.program_exit_status s)
        (if_intro (Due pace t bound) (ltb 0 s.filter_pid)
          (exit_with 2
            (record (send (to_filter sigkill) s) { program_exit_status = 2; filter_pid = 0 }))
          (exit_with s.program_exit_status s) tt tt)
        tt

is_expired-false : (now until : ℕ) → 0 < until → is_expired now until ≡ false → now ≤ until
unfolding is_expired
is_expired-false now zero p h = absurd (omega arith)
is_expired-false now (suc n) p h = ground arith

-- The predicate at a state whose two fields are known.
module _ (pace t bound : ℕ) (s : State) where
  Due-live :
      (e : Event)
      → s.ended ≡ none
      → s.next_event ≡ some e
      → Due pace t bound s
      → DueAt pace t bound none (some e)
  Due-live e live at h =
      subst (λ o. DueAt pace t bound o (some e)) live
        (subst (λ o. DueAt pace t bound s.ended o) at h)

  Due-no_event : s.ended ≡ none → s.next_event ≡ none → Due pace t bound s → ⊥
  Due-no_event live at h =
      subst (λ o. DueAt pace t bound o none) live (subst (λ o. DueAt pace t bound s.ended o) at h)

  Due-event :
      (e : Event) → s.next_event ≡ some e → DueAt pace t bound none (some e) → Due pace t bound s
  Due-event e at h = elim (Option-cases s.ended) [
    | inl live ↦ rw (live, at) h
    | inr (x, over) ↦ rw over tt
  ]

-- A state that agrees in the two fields is due as well.
Due-agrees :
    (pace t bound : ℕ) (s s' : State)
    → s'.ended ≡ s.ended
    → s'.next_event ≡ s.next_event
    → Due pace t bound s
    → Due pace t bound s'
Due-agrees pace t bound s s' e f h = rw (e, f) h

module _ (gap delay t bound : ℕ) (r : Round) where
  abbrev pace : ℕ
  pace = gap + delay + 5

  -- The clock of this round.
  abbrev InPace : Type 0
  InPace =
      (t ≤ r.tested_at)
      × (r.tested_at ≤ t + gap)
      × (r.tested_at ≤ r.started_at)
      × (r.started_at ≤ r.tested_at + delay)

  process-Due :
      (e : Event) (s : State)
      → s.ended ≡ none
      → s.next_event ≡ some e
      → e.wait_until + rank e.kind * pace ≤ bound
      → t ≤ e.wait_until
      → 0 < e.wait_until
      → 0 < t
      → InPace
      → Due pace r.tested_at bound (process e r s)
  unfolding process
  process-Due e s live at h m q p c =
      let asked = wait_condition e.kind r s in
      if_cases (Due pace r.tested_at bound) (is_expired r.tested_at e.wait_until)
        (final_action e.kind r s) (if asked.1 then final_action e.kind r asked.0 else asked.0)
        (λ _.
          final_action-Due pace r.tested_at bound e.kind r s (omega (arith, c)) c.2
            (omega (arith, c)))
        (λ early.
          if_intro (Due pace r.tested_at bound) asked.1 (final_action e.kind r asked.0) asked.0
            (final_action-Due pace r.tested_at bound e.kind r asked.0 (omega (arith, c)) c.2
              (omega (arith, c)))
            (Due-agrees pace r.tested_at bound s asked.0 (wait_condition-keeps e.kind r s).0
              (wait_condition-keeps e.kind r s).1
              (rw (live, at) (h, is_expired-false r.tested_at e.wait_until q early, q))))

  next_step-Due :
      (e : Event) (s : State)
      → s.ended ≡ none
      → s.next_event ≡ some e
      → DueAt pace t bound none (some e)
      → 0 < t
      → InPace
      → Due pace r.tested_at bound (next_step r s)
  unfolding next_step advance
  next_step-Due e s live at h q c =
      subst (λ o. Due pace r.tested_at bound (advance o r s)) (sym at)
        (process-Due e s live at h.0 h.1 h.2 q c)

  -- A round with an event keeps the time that is left.
  round-Due :
      (e : Event) (s : State)
      → s.next_event ≡ some e
      → DueAt pace t bound none (some e)
      → 0 < t
      → InPace
      → Due pace r.tested_at bound (round r s)
  unfolding round
  round-Due e s at h q c =
      let s1 = transferred r s in
      elim (Option-cases s1.ended) [
        | inl live ↦
            rw (live, round) (next_step-Due e s1 live (transferred-next_event r s ∙ at) h q c)
        | inr (x, over) ↦ rw (over, round) (rw over tt)
      ]

module _ (gap delay bound : ℕ) where
  run-Due :
      (rs : List Round) (t : ℕ) (s : State)
      → Due (gap + delay + 5) t bound s
      → 0 < t
      → Paced gap delay t rs
      → Due (gap + delay + 5) (last_time t rs) bound (run rs s)
  unfolding run
  run-Due [] t s h p c = h
  run-Due (r ∷ rs) t s h p c =
      let more = λ (d : Due (gap + delay + 5) r.tested_at bound (round r s)).
        run-Due rs r.tested_at (round r s) d (omega arith) c.4 in
      elim (Option-cases s.ended) [
        | inr (x, over) ↦ rw (over, run) (rw over tt)
        | inl live ↦ elim (Option-cases s.next_event) [
          | inl e ↦ absurd (Due-no_event (gap + delay + 5) t bound s live e h)
          | inr (e, at) ↦
              rw (live, run)
                (more (
                  round-Due gap delay t bound r e s at
                    (Due-live (gap + delay + 5) t bound s e live at h) p (c.0, c.1, c.2, c.3)))
        ]
      ]

-- What is due before a time that has passed is over.
Due-HasEnded : (pace t bound : ℕ) (s : State) → Due pace t bound s → bound < t → HasEnded s
Due-HasEnded pace t bound s h late = elim (Option-cases s.ended) [
  | inr over ↦ over
  | inl live ↦ elim (Option-cases s.next_event) [
    | inl e ↦ absurd (Due-no_event pace t bound s live e h)
    | inr (e, at) ↦ absurd (omega (arith, Due-live pace t bound s e live at h))
  ]
]

-- If the loop has an event whose time is not over at `t`, the clock does not run back, rounds follow one
-- another within `gap` and start an event within `delay`, then the tool has ended when a round began
-- later than the event's time and `gap + delay + 5` for each event that can follow.
pub run-HasEnded :
    (gap delay t : ℕ) (rs : List Round) (s : State) (e : Event)
    → s.next_event ≡ some e
    → 0 < t
    → t ≤ e.wait_until
    → Paced gap delay t rs
    → e.wait_until + rank e.kind * (gap + delay + 5) < last_time t rs
    → HasEnded (run rs s)
run-HasEnded gap delay t rs s e at p m c late =
    let bound = e.wait_until + rank e.kind * (gap + delay + 5) in
    let due = Due-event (gap + delay + 5) t bound s e at (omega arith, m, omega arith) in
    Due-HasEnded (gap + delay + 5) (last_time t rs) bound (run rs s)
      (run-Due gap delay bound rs t s due p c) late

-- Without an event, an interrupt starts the first.
next_step_interrupted :
    (r : Round) (s : State)
    → s.next_event ≡ none
    → s.was_interrupted ≢ 0
    → next_step r s ≡ new_int_primary r s
unfolding next_step advance
next_step_interrupted r s e i =
    let waiting =
      (if is_negative s.output_fd && is_negative s.error_fd
        then new_wait_for_natural_exit r (record s { filter_input_closed = true })
        else s) in
    subst (λ o. advance o r s ≡ new_int_primary r s) (sym e)
      (if_cases (λ x. x ≡ new_int_primary r s) (not (s.was_interrupted == 0)) (new_int_primary r s)
        waiting (λ _. refl) (λ clear. absurd (i (ground arith))))

module _ (gap delay t : ℕ) (r : Round) (s : State) where
  round-Due_interrupted :
      s.next_event ≡ none
      → s.was_interrupted ≢ 0
      → r.caught ≡ none
      → 0 < t
      → InPace gap delay t (t + 5 * (gap + delay + 5)) r
      → Due (gap + delay + 5) r.tested_at (t + 5 * (gap + delay + 5)) (round r s)
  unfolding round
  round-Due_interrupted e i quiet p c =
      let s1 = transferred r s in
      let still : s1.was_interrupted ≡ s.was_interrupted = transferred-was_interrupted r s quiet in
      elim (Option-cases s1.ended) [
        | inl live ↦
            rw (live, round)
              (rw
                (next_step_interrupted r s1 (transferred-next_event r s ∙ e)
                  (λ (z : s1.was_interrupted ≡ 0). i (sym still ∙ z)))
                (new_int_primary-Due (gap + delay + 5) r.tested_at (t + 5 * (gap + delay + 5)) r s1
                  (omega (arith, c)) c.2 (omega (arith, c))))
        | inr (x, over) ↦ rw (over, round) (rw over tt)
      ]

-- If a signal was caught and no event is set, the next round catches no other signal, and the clock is as
-- above, then the tool has ended when a round began later than five times `gap + delay + 5` after `t`.
pub run-HasEnded_interrupted :
    (gap delay t : ℕ) (r : Round) (rs : List Round) (s : State)
    → s.next_event ≡ none
    → s.was_interrupted ≢ 0
    → r.caught ≡ none
    → 0 < t
    → Paced gap delay t (r ∷ rs)
    → t + 5 * (gap + delay + 5) < last_time t (r ∷ rs)
    → HasEnded (run (r ∷ rs) s)
unfolding run
run-HasEnded_interrupted gap delay t r rs s e i quiet p c late =
    let bound = t + 5 * (gap + delay + 5) in
    elim (Option-cases s.ended) [
      | inr (x, over) ↦ rw (over, run) (rw over (x, refl))
      | inl live ↦
          rw (live, run)
            (Due-HasEnded (gap + delay + 5) (last_time r.tested_at rs) bound (run rs (round r s))
              (run-Due gap delay bound rs r.tested_at (round r s)
                (round-Due_interrupted gap delay t r s e i quiet p (c.0, c.1, c.2, c.3))
                (omega (arith, c)) c.4)
              late)
    ]
