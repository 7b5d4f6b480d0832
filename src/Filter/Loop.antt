-- ===== src/Filter/Loop.antt =====
-- `mainLoop` of src/spock-filter.C (lines 496-524): one round, and any number of rounds.
use rmc_spock.Base.{
  ℕ, true, List, none, some, [], ◌∷◌, ◌==◌, not, ◌&&◌, if◌then◌else◌, Option, ◌≡◌, refl, ◌∙◌,
  if_intro,
}
use rmc_spock.Filter.State.{State, Round, Event, is_negative, signal_handler}
use rmc_spock.Filter.Transfer.{
  transfer_data, transfer_data-next_event, transfer_data-was_interrupted,
}
use rmc_spock.Filter.Events.{process, new_int_primary, new_wait_for_natural_exit}

-- The part of the body behind `transferData`, by what `nextEvent` is.
unfoldable pub advance : Option Event → Round → State → State
unfolding is_negative
advance (some e) r s = process e r s
advance none r s =
    if not (s.was_interrupted == 0)
    then new_int_primary r s
    else (if is_negative s.output_fd && is_negative s.error_fd
        then new_wait_for_natural_exit r (record s { filter_input_closed = true })
        else s)

unfoldable pub next_step : Round → State → State
next_step r s = advance s.next_event r s

-- A round up to the next step: the signals that arrived since the last, `poll`, and the transfer.
unfoldable pub transferred : Round → State → State
unfolding signal_handler
transferred r s =
    let s0 = signal_handler r.caught s in if r.poll_positive then transfer_data r s0 else s0

unfoldable pub round : Round → State → State
round r s = let s1 = transferred r s in elim s1.ended [ none ↦ next_step r s1 | some e ↦ s1 ]

-- Rounds until the tool has ended.
unfoldable pub run : List Round → State → State
run [] s = s
run (r ∷ rs) s = let more = run rs (round r s) in elim s.ended [ none ↦ more | some e ↦ s ]

signal_handler-next_event :
    (o : Option ℕ) (s : State) → (signal_handler o s).next_event ≡ s.next_event
unfolding signal_handler
signal_handler-next_event none s = refl
signal_handler-next_event (some n) s = refl

pub transferred-next_event : (r : Round) (s : State) → (transferred r s).next_event ≡ s.next_event
unfolding transferred
transferred-next_event r s =
    let s0 = signal_handler r.caught s in
    if_intro (λ (s1 : State). s1.next_event ≡ s.next_event) r.poll_positive (transfer_data r s0) s0
      (transfer_data-next_event r s0 ∙ signal_handler-next_event r.caught s)
      (signal_handler-next_event r.caught s)

pub transferred-was_interrupted :
    (r : Round) (s : State)
    → r.caught ≡ none
    → (transferred r s).was_interrupted ≡ s.was_interrupted
unfolding transferred
transferred-was_interrupted r s quiet =
    let s0 = signal_handler r.caught s in
    if_intro (λ (s1 : State). s1.was_interrupted ≡ s.was_interrupted) r.poll_positive
      (transfer_data r s0) s0 (transfer_data-was_interrupted r s0 ∙ rw (quiet, signal_handler) refl)
      (rw (quiet, signal_handler) refl)
