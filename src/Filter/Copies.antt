-- ===== src/Filter/Copies.antt =====
-- The output of the primary command is copied whole and in order by src/spock-filter.C.
use rmc_spock.Base.{
  ℕ, Bool, Option, List, none, some, [], ◌∷◌, ◌++◌, ◌≡◌, inl, inr, refl, sym, ap, subst, ◌∙◌,
  append-nil, append_assoc, ltb, true, false, arith, Bool-cases, Option-cases, if_intro, not, ◌&&◌,
  ◌==◌, if◌then◌else◌, ◌+◌,
}
use rmc_spock.Filter.State.{
  State, Round, Event, EventKind, Signal, assign_event, is_negative, signal_handler,
  wait_for_natural_exit, int_primary, term_primary, kill_primary, int_filter, term_filter,
  exit_with, send, is_expired, sigint, sigterm, to_primary, Ending,
}
use rmc_spock.Filter.Transfer.{
  transfer_data, receive, forward, close_stream, Stream, from_output, from_error,
}
use rmc_spock.Filter.Events.{
  process, wait_condition, final_action, new_int_primary, new_wait_for_natural_exit,
  new_kill_filter, new_term_filter, new_int_filter, new_kill_primary, new_term_primary,
  signal_filter,
}
use rmc_spock.Filter.Loop.{run, round, next_step, advance, transferred}

-- What was copied, and where the copies go.
pub record Copied : Type 0 where
  pub filtered : List ℕ
  pub output : List ℕ
  pub error : List ℕ
  pub filter : Option ℕ

abbrev pub copied : State → Copied
copied s = record {
  filtered = s.to_filter_bytes;
  output = s.to_stdout;
  error = s.to_stderr;
  filter = s.filter_input;
}

abbrev bytes : Option (List ℕ) → List ℕ
bytes none = []
bytes (some buf) = buf

-- What a round reads from the two streams: the standard output comes first.
abbrev pub output_read : Round → List ℕ
output_read r = if r.poll_positive && r.output_pollin then bytes r.read_bytes else []

abbrev pub error_read : Round → List ℕ
error_read r =
    if r.poll_positive && (not r.output_pollin && r.error_pollin) then bytes r.read_bytes else []

-- The copy of what was read: to the filter if there is one, and else to the stream of its kind.
abbrev pub add_copy : Stream → List ℕ → Copied → Copied
add_copy from_output buf c = elim c.filter [
  | some fd ↦ record c { filtered = c.filtered ++ buf }
  | none ↦ record c { output = c.output ++ buf }
]
add_copy from_error buf c = elim c.filter [
  | some fd ↦ record c { filtered = c.filtered ++ buf }
  | none ↦ record c { error = c.error ++ buf }
]

abbrev pub add_copies : Round → Copied → Copied
add_copies r c = add_copy from_error (error_read r) (add_copy from_output (output_read r) c)

add_copy-nil : (i : Stream) (c : Copied) → add_copy i [] c ≡ c
add_copy-nil from_output c = ground (arith, append-nil c.filtered, append-nil c.output)
add_copy-nil from_error c = ground (arith, append-nil c.filtered, append-nil c.error)

add_copies-by :
    (r : Round) (c : Copied) (x y : List ℕ)
    → output_read r ≡ x
    → error_read r ≡ y
    → add_copies r c ≡ add_copy from_error y (add_copy from_output x c)
add_copies-by r c x y h k = λ i. add_copy from_error (k i) (add_copy from_output (h i) c)

close_stream-copied :
    (i : Stream) (s : State)
    → (copied (close_stream i s) ≡ copied s) × ((close_stream i s).ended ≡ s.ended)
unfolding close_stream
close_stream-copied from_output s = (refl, refl)
close_stream-copied from_error s = (refl, refl)

forward-copied :
    (i : Stream) (buf : List ℕ) (n : ℕ) (s : State)
    → (forward i buf n s).ended ≡ none
    → copied (forward i buf n s) ≡ add_copy i buf (copied s)
unfolding forward
forward-copied from_output buf n s h = ground arith
forward-copied from_error buf n s h = ground arith

receive-copied :
    (i : Stream) (o : Option (List ℕ)) (n : ℕ) (s : State)
    → (receive i o n s).ended ≡ none
    → copied (receive i o n s) ≡ add_copy i (bytes o) (copied s)
unfolding receive
receive-copied i none n s h = (close_stream-copied i s).0 ∙ sym (add_copy-nil i (copied s))
receive-copied i (some []) n s h = (close_stream-copied i s).0 ∙ sym (add_copy-nil i (copied s))
receive-copied i (some (b ∷ buf)) n s h = forward-copied i (b ∷ buf) n s h

hung_up-copied :
    (b : Bool) (i : Stream) (s : State) → copied (if b then close_stream i s else s) ≡ copied s
hung_up-copied true i s = (close_stream-copied i s).0
hung_up-copied false i s = refl

transfer_data-copied :
    (r : Round) (s : State)
    → r.poll_positive ≡ true
    → (transfer_data r s).ended ≡ none
    → copied (transfer_data r s) ≡ add_copies r (copied s)
unfolding transfer_data
transfer_data-copied r s p h =
    let s1 = (if r.output_pollhup then close_stream from_output s else s) in
    let hung = hung_up-copied r.output_pollhup from_output s in
    elim (Bool-cases r.output_pollin) [
      | inl o ↦
          let taken : transfer_data r s ≡ receive from_output r.read_bytes r.written s =
            ground arith in
          ap copied taken
          ∙ receive-copied from_output r.read_bytes r.written s (ground arith)
          ∙ sym (add_copy-nil from_error _)
          ∙ sym (add_copies-by r (copied s) (bytes r.read_bytes) [] (ground arith) (ground arith))
      | inr o ↦ elim (Bool-cases r.error_pollin) [
        | inl e ↦
            let taken : transfer_data r s ≡ receive from_error r.read_bytes r.written s1 =
              ground arith in
            ap copied taken
            ∙ receive-copied from_error r.read_bytes r.written s1 (ground arith)
            ∙ ap (add_copy from_error (bytes r.read_bytes))
                (hung ∙ sym (add_copy-nil from_output (copied s)))
            ∙ sym (add_copies-by r (copied s) [] (bytes r.read_bytes) (ground arith) (ground arith))
        | inr e ↦
            let taken : transfer_data r s
                ≡ (if r.error_pollhup then close_stream from_error s1 else s1) =
              ground arith in
            ap copied taken
            ∙ hung_up-copied r.error_pollhup from_error s1
            ∙ hung
            ∙ sym (add_copy-nil from_output (copied s))
            ∙ sym (add_copy-nil from_error _)
            ∙ sym (add_copies-by r (copied s) [] [] (ground arith) (ground arith))
      ]
    ]

assign_event-copied :
    (k : EventKind) (until : ℕ) (s : State) → copied (assign_event k until s) ≡ copied s
unfolding assign_event
assign_event-copied k until s = ground arith

signal_filter-copied :
    (x : Signal) (r : Round) (s : State) → copied (signal_filter x r s) ≡ copied s
unfolding signal_filter exit_with send
signal_filter-copied x r s = ground arith

new_int_filter-copied : (r : Round) (s : State) → copied (new_int_filter r s) ≡ copied s
unfolding new_int_filter
new_int_filter-copied r s = assign_event-copied _ _ _ ∙ signal_filter-copied sigint r s

wait_condition-copied :
    (k : EventKind) (r : Round) (s : State) → copied (wait_condition k r s).0 ≡ copied s
unfolding wait_condition
wait_condition-copied wait_for_natural_exit r s = ground arith
wait_condition-copied kill_primary r s = refl
wait_condition-copied k r s = ground arith

new_term_filter-copied : (r : Round) (s : State) → copied (new_term_filter r s) ≡ copied s
unfolding new_term_filter
new_term_filter-copied r s = assign_event-copied _ _ _ ∙ signal_filter-copied sigterm r s

new_kill_filter-copied : (s : State) → copied (new_kill_filter s) ≡ copied s
unfolding new_kill_filter exit_with send
new_kill_filter-copied s = ground arith

new_kill_primary-copied : (r : Round) (s : State) → copied (new_kill_primary r s) ≡ copied s
unfolding new_kill_primary send
new_kill_primary-copied r s =
    let lost = record (send (to_primary sigint) s) { program_exit_status = 1; primary_pid = 0 } in
    assign_event-copied kill_primary r.started_at (if ltb 0 s.primary_pid then lost else s)
    ∙ if_intro (λ x. copied x ≡ copied s) (ltb 0 s.primary_pid) lost s refl refl

new_term_primary-copied : (r : Round) (s : State) → copied (new_term_primary r s) ≡ copied s
unfolding new_term_primary send
new_term_primary-copied r s =
    let called = send (to_primary sigterm) s in
    let lost = record called { primary_pid = 0 } in
    let none_left = record s { primary_pid = 0 } in
    let chosen = (if r.kill_primary_ok then called else new_int_filter r lost) in
    assign_event-copied term_primary (r.started_at + 5)
      (if ltb 0 s.primary_pid then chosen else new_int_filter r none_left)
    ∙ if_intro (λ x. copied x ≡ copied s) (ltb 0 s.primary_pid) chosen (new_int_filter r none_left)
        (if_intro (λ x. copied x ≡ copied s) r.kill_primary_ok called (new_int_filter r lost) refl
          (new_int_filter-copied r lost))
        (new_int_filter-copied r none_left)

new_int_primary-copied : (r : Round) (s : State) → copied (new_int_primary r s) ≡ copied s
unfolding new_int_primary send
new_int_primary-copied r s =
    let called = send (to_primary sigint) s in
    let lost = record called { program_exit_status = 1; primary_pid = 0 } in
    let none_left = record s { program_exit_status = 1; primary_pid = 0 } in
    let chosen = (if r.kill_primary_ok then called else new_int_filter r lost) in
    assign_event-copied int_primary (r.started_at + 5)
      (if ltb 0 s.primary_pid then chosen else new_int_filter r none_left)
    ∙ if_intro (λ x. copied x ≡ copied s) (ltb 0 s.primary_pid) chosen (new_int_filter r none_left)
        (if_intro (λ x. copied x ≡ copied s) r.kill_primary_ok called (new_int_filter r lost) refl
          (new_int_filter-copied r lost))
        (new_int_filter-copied r none_left)

final_action-copied :
    (k : EventKind) (r : Round) (s : State) → copied (final_action k r s) ≡ copied s
unfolding final_action exit_with
final_action-copied wait_for_natural_exit r s =
    if_intro (λ x. copied x ≡ copied s) (not (ltb 0 s.primary_pid) && not (ltb 0 s.filter_pid))
      (exit_with s.program_exit_status s) (new_int_primary r s) refl (new_int_primary-copied r s)
final_action-copied int_primary r s =
    if_intro (λ x. copied x ≡ copied s) (ltb 0 s.primary_pid) (new_term_primary r s)
      (new_int_filter r s) (new_term_primary-copied r s) (new_int_filter-copied r s)
final_action-copied term_primary r s =
    if_intro (λ x. copied x ≡ copied s) (ltb 0 s.primary_pid) (new_kill_primary r s)
      (new_int_filter r s) (new_kill_primary-copied r s) (new_int_filter-copied r s)
final_action-copied kill_primary r s =
    if_intro (λ x. copied x ≡ copied s) (ltb 0 s.filter_pid) (new_int_filter r s)
      (exit_with s.program_exit_status s) (new_int_filter-copied r s) refl
final_action-copied int_filter r s =
    if_intro (λ x. copied x ≡ copied s) (ltb 0 s.filter_pid) (new_term_filter r s)
      (exit_with s.program_exit_status s) (new_term_filter-copied r s) refl
final_action-copied term_filter r s =
    if_intro (λ x. copied x ≡ copied s) (ltb 0 s.filter_pid) (new_kill_filter s)
      (exit_with s.program_exit_status s) (new_kill_filter-copied s) refl

process-copied : (e : Event) (r : Round) (s : State) → copied (process e r s) ≡ copied s
unfolding process
process-copied e r s =
    let asked = wait_condition e.kind r s in
    let waited = wait_condition-copied e.kind r s in
    if_intro (λ x. copied x ≡ copied s) (is_expired r.tested_at e.wait_until)
      (final_action e.kind r s) (if asked.1 then final_action e.kind r asked.0 else asked.0)
      (final_action-copied e.kind r s)
      (if_intro (λ x. copied x ≡ copied s) asked.1 (final_action e.kind r asked.0) asked.0
        (final_action-copied e.kind r asked.0 ∙ waited) waited)

advance-copied : (o : Option Event) (r : Round) (s : State) → copied (advance o r s) ≡ copied s
unfolding advance new_wait_for_natural_exit
advance-copied (some e) r s = process-copied e r s
advance-copied none r s =
    let waiting = record s { filter_input_closed = true } in
    let closed = is_negative s.output_fd && is_negative s.error_fd in
    if_intro (λ x. copied x ≡ copied s) (not (s.was_interrupted == 0)) (new_int_primary r s)
      (if closed then new_wait_for_natural_exit r waiting else s) (new_int_primary-copied r s)
      (if_intro (λ x. copied x ≡ copied s) closed (new_wait_for_natural_exit r waiting) s
        (assign_event-copied wait_for_natural_exit (r.started_at + 60) waiting) refl)

signal_handler-copied : (o : Option ℕ) (s : State) → copied (signal_handler o s) ≡ copied s
unfolding signal_handler
signal_handler-copied none s = refl
signal_handler-copied (some n) s = refl

transferred-copied :
    (r : Round) (s : State)
    → (transferred r s).ended ≡ none
    → copied (transferred r s) ≡ add_copies r (copied s)
unfolding transferred
transferred-copied r s h =
    let s0 = signal_handler r.caught s in
    elim (Bool-cases r.poll_positive) [
      | inl p ↦
          let taken : transferred r s ≡ transfer_data r s0 = ground arith in
          ap copied taken
          ∙ transfer_data-copied r s0 p (subst (λ x. x.ended ≡ none) taken h)
          ∙ ap (add_copies r) (signal_handler-copied r.caught s)
      | inr p ↦
          let taken : transferred r s ≡ s0 = ground arith in
          ap copied taken
          ∙ signal_handler-copied r.caught s
          ∙ sym (add_copy-nil from_output (copied s))
          ∙ sym (add_copy-nil from_error _)
          ∙ sym (add_copies-by r (copied s) [] [] (ground arith) (ground arith))
    ]

round-copied :
    (r : Round) (s : State)
    → (transferred r s).ended ≡ none
    → copied (round r s) ≡ add_copies r (copied s)
unfolding round next_step
round-copied r s h =
    let s1 = transferred r s in
    subst (λ o. copied (elim o [ none ↦ next_step r s1 | some e ↦ s1 ]) ≡ add_copies r (copied s))
      (sym h) (advance-copied s1.next_event r s1 ∙ transferred-copied r s h)

run-ended : (rs : List Round) (s : State) (x : Ending) → s.ended ≡ some x → run rs s ≡ s
unfolding run
run-ended [] s x e = refl
run-ended (r ∷ rs) s x e =
    subst (λ o. elim o [ none ↦ run rs (round r s) | some e ↦ s ] ≡ s) (sym e) refl

round-ended :
    (r : Round) (s : State) (x : Ending)
    → (transferred r s).ended ≡ some x
    → (round r s).ended ≡ some x
unfolding round
round-ended r s x e =
    let s1 = transferred r s in
    subst (λ o. (elim o as (λ _. State) [ none ↦ next_step r s1 | some e ↦ s1 ]).ended ≡ some x)
      (sym e) e

pub outputs_read : List Round → List ℕ
outputs_read [] = []
outputs_read (r ∷ rs) = output_read r ++ outputs_read rs

pub errors_read : List Round → List ℕ
errors_read [] = []
errors_read (r ∷ rs) = error_read r ++ errors_read rs

pub all_read : List Round → List ℕ
all_read [] = []
all_read (r ∷ rs) = output_read r ++ (error_read r ++ all_read rs)

-- The copies of all rounds.
abbrev pub copied_by : List Round → Copied → Copied
copied_by [] c = c
copied_by (r ∷ rs) c = copied_by rs (add_copies r c)

run-copied :
    (rs : List Round) (s : State)
    → (run rs s).ended ≡ none
    → copied (run rs s) ≡ copied_by rs (copied s)
unfolding run
run-copied [] s h = refl
run-copied (r ∷ rs) s h =
    let rest = run-copied rs (round r s) in
    elim (Option-cases s.ended) [
      | inr (x, over) ↦ absurd (ground (arith, run-ended (r ∷ rs) s x over))
      | inl live ↦
          let taken : run (r ∷ rs) s ≡ run rs (round r s) =
            subst
              (λ o.
                (elim o as (λ _. State) [ none ↦ run rs (round r s) | some e ↦ s ])
                ≡ run rs (round r s))
              (sym live) refl in
          elim (Option-cases (transferred r s).ended) [
            | inl going ↦
                ap copied taken
                ∙ rest (subst (λ x. x.ended ≡ none) taken h)
                ∙ ap (copied_by rs) (round-copied r s going)
            | inr (x, over) ↦
                absurd (ground (arith, taken, run-ended rs (round r s) x, round-ended r s x over))
          ]
    ]

add_copy_no_filter :
    (c : Copied) (x y : List ℕ)
    → c.filter ≡ none
    → add_copy from_error y (add_copy from_output x c)
      ≡ record c { output = c.output ++ x; error = c.error ++ y }
add_copy_no_filter c x y e = ground arith

add_copy_filter :
    (c : Copied) (x y : List ℕ) (fd : ℕ)
    → c.filter ≡ some fd
    → add_copy from_error y (add_copy from_output x c)
      ≡ record c { filtered = (c.filtered ++ x) ++ y }
add_copy_filter c x y fd e = ground arith

copied_by-no_filter :
    (rs : List Round) (c : Copied)
    → c.filter ≡ none
    → copied_by rs c
      ≡ record c { output = c.output ++ outputs_read rs; error = c.error ++ errors_read rs }
unfolding outputs_read errors_read
copied_by-no_filter [] c e = ground (arith, append-nil c.output, append-nil c.error)
copied_by-no_filter (r ∷ rs) c e =
    let c' = record c { output = c.output ++ output_read r; error = c.error ++ error_read r } in
    let taken : add_copies r c ≡ c' = add_copy_no_filter c (output_read r) (error_read r) e in
    ap (copied_by rs) taken
    ∙ copied_by-no_filter rs c' e
    ∙ ground (
      arith,
      append_assoc c.output (output_read r) (outputs_read rs),
      append_assoc c.error (error_read r) (errors_read rs),
    )

copied_by-filter :
    (rs : List Round) (c : Copied) (fd : ℕ)
    → c.filter ≡ some fd
    → copied_by rs c ≡ record c { filtered = c.filtered ++ all_read rs }
unfolding all_read
copied_by-filter [] c fd e = ground (arith, append-nil c.filtered)
copied_by-filter (r ∷ rs) c fd e =
    let c' = record c { filtered = (c.filtered ++ output_read r) ++ error_read r } in
    let taken : add_copies r c ≡ c' = add_copy_filter c (output_read r) (error_read r) fd e in
    ap (copied_by rs) taken
    ∙ copied_by-filter rs c' fd e
    ∙ ground (
      arith,
      append_assoc (c.filtered ++ output_read r) (error_read r) (all_read rs),
      append_assoc c.filtered (output_read r) (error_read r ++ all_read rs),
    )

-- Without a filter, and if the tool has not ended after some rounds, what they read from the standard output
-- was added to its own standard output, in order, what they read from the standard error to its own standard
-- error, and nothing was written to a filter.
pub run-to_stdout :
    (rs : List Round) (s : State)
    → s.filter_input ≡ none
    → (run rs s).ended ≡ none
    → ((run rs s).to_stdout ≡ s.to_stdout ++ outputs_read rs)
      × ((run rs s).to_stderr ≡ s.to_stderr ++ errors_read rs)
      × ((run rs s).to_filter_bytes ≡ s.to_filter_bytes)
run-to_stdout rs s e h =
    let all = run-copied rs s h ∙ copied_by-no_filter rs (copied s) e in
    (ap (λ c. c.output) all, ap (λ c. c.error) all, ap (λ c. c.filtered) all)

-- With a filter, and if the tool has not ended after some rounds, all that they read was added to the filter's
-- input in the order in which it was read, and nothing was written to its own output and error.
pub run-to_filter :
    (rs : List Round) (s : State) (fd : ℕ)
    → s.filter_input ≡ some fd
    → (run rs s).ended ≡ none
    → ((run rs s).to_filter_bytes ≡ s.to_filter_bytes ++ all_read rs)
      × ((run rs s).to_stdout ≡ s.to_stdout)
      × ((run rs s).to_stderr ≡ s.to_stderr)
run-to_filter rs s fd e h =
    let all = run-copied rs s h ∙ copied_by-filter rs (copied s) fd e in
    (ap (λ c. c.filtered) all, ap (λ c. c.output) all, ap (λ c. c.error) all)
