-- ===== src/Filter/Transfer.antt =====
-- `transferData` of src/spock-filter.C (lines 456-492).
use rmc_spock.Base.{
  ℕ, Option, List, none, some, [], ◌∷◌, ◌++◌, length, ◌==◌, if◌then◌else◌, ◌≡◌, arith,
}
use rmc_spock.Filter.State.{State, Round, negate, failed_assertion}

-- The two elements of `fds`.
pub data Stream : Type 0 where
  from_output from_error : Stream

unfoldable pub close_stream : Stream → State → State
unfolding negate
close_stream from_output s = record s { output_fd = negate s.output_fd }
close_stream from_error s = record s { error_fd = negate s.error_fd }

-- The `write` of what was read, whose result is asserted to be the number of bytes.
unfoldable pub forward : Stream → List ℕ → ℕ → State → State
forward i buf n s =
    if n == length buf
    then (elim s.filter_input [
      | some fd ↦ record s { to_filter_bytes = s.to_filter_bytes ++ buf }
      | none ↦ elim i [
        | from_output ↦ record s { to_stdout = s.to_stdout ++ buf }
        | from_error ↦ record s { to_stderr = s.to_stderr ++ buf }
      ]
    ])
    else record s { ended = some failed_assertion }

unfoldable pub receive : Stream → Option (List ℕ) → ℕ → State → State
unfolding close_stream forward
receive i none n s = close_stream i s
receive i (some []) n s = close_stream i s
receive i (some (b ∷ buf)) n s = forward i (b ∷ buf) n s

-- A stream that is ready ends the loop over the two; one that was hung up does not.
unfoldable pub transfer_data : Round → State → State
unfolding receive close_stream
transfer_data r s =
    if r.output_pollin
    then receive from_output r.read_bytes r.written s
    else (let s1 = (if r.output_pollhup then close_stream from_output s else s) in
        if r.error_pollin
        then receive from_error r.read_bytes r.written s1
        else (if r.error_pollhup then close_stream from_error s1 else s1))

pub transfer_data-next_event :
    (r : Round) (s : State) → (transfer_data r s).next_event ≡ s.next_event
unfolding transfer_data
transfer_data-next_event r s = ground arith

pub transfer_data-was_interrupted :
    (r : Round) (s : State) → (transfer_data r s).was_interrupted ≡ s.was_interrupted
unfolding transfer_data
transfer_data-was_interrupted r s = ground arith
