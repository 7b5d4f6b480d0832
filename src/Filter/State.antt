-- ===== src/Filter/State.antt =====
-- The variables of src/spock-filter.C (lines 35-42), what one round of its loop is told by the
-- operating system, and `DoThenWait`.
use rmc_spock.Base.{ℕ, Bool, Option, List, none, some, ◌∷◌, ◌++◌, true, false, zero, suc, ltb, []}

-- A descriptor in a `pollfd`: the source multiplies it by -1 when it is closed.
pub data Descriptor : Type 0 where
  open_fd closed_fd : ℕ → Descriptor

unfoldable pub negate : Descriptor → Descriptor
negate (open_fd n) = closed_fd n
negate (closed_fd n) = open_fd n

unfoldable pub is_negative : Descriptor → Bool
is_negative (open_fd n) = false
is_negative (closed_fd n) = true

-- The classes derived from `DoThenWait` whose construction can return: that of `KillFilter` exits.
pub data EventKind : Type 0 where
  wait_for_natural_exit int_primary term_primary kill_primary int_filter term_filter : EventKind

-- An object of such a class: its time is the `waitUntil_` of `DoThenWait`.
pub record Event : Type 0 where
  pub kind : EventKind
  pub wait_until : ℕ

pub data Signal : Type 0 where
  sigint sigterm sigkill : Signal

-- A call of `kill`.
pub data Sent : Type 0 where
  to_primary to_filter : Signal → Sent

-- How the tool ends: by `exit` with a status, or by a failed assertion.
pub data Ending : Type 0 where
  status : ℕ → Ending
  failed_assertion : Ending

-- What `waitpid` with `WNOHANG` says of a process.
pub data Waited : Type 0 where
  still_running wait_failed signaled stopped : Waited
  exited_with : ℕ → Waited

-- A process identifier that is not positive is 0 here: the source only asks for the sign.
pub record State : Type 0 where
  pub primary_pid : ℕ
  pub filter_pid : ℕ
  pub program_exit_status : ℕ
  pub was_interrupted : ℕ
  pub next_event : Option Event
  pub output_fd : Descriptor
  pub error_fd : Descriptor
  pub filter_input : Option ℕ
  pub filter_input_closed : Bool
  pub to_filter_bytes : List ℕ
  pub to_stdout : List ℕ
  pub to_stderr : List ℕ
  pub sent : List Sent
  pub ended : Option Ending

-- What the system answers in one round: `poll` and its `revents`, `read` (none on an error, no bytes
-- at the end of the stream), `write`, the clock, `waitpid` and `kill` (true if it succeeds).
pub record Round : Type 0 where
  pub caught : Option ℕ
  pub poll_positive : Bool
  pub output_pollin : Bool
  pub output_pollhup : Bool
  pub error_pollin : Bool
  pub error_pollhup : Bool
  pub read_bytes : Option (List ℕ)
  pub written : ℕ
  pub tested_at : ℕ
  pub started_at : ℕ
  pub primary_waited : Waited
  pub filter_waited : Waited
  pub kill_primary_ok : Bool
  pub kill_filter_ok : Bool

-- `signalHandler`, if a signal was caught.
unfoldable pub signal_handler : Option ℕ → State → State
signal_handler none s = s
signal_handler (some signum) s = record s { was_interrupted = signum }

unfoldable pub exit_with : ℕ → State → State
exit_with n s = record s { ended = some (status n) }

unfoldable pub send : Sent → State → State
send x s = record s { sent = s.sent ++ x ∷ [] }

-- `DoThenWait::isExpired`, with the cancelled time 0.
unfoldable pub is_expired : ℕ → ℕ → Bool
is_expired now zero = false
is_expired now (suc n) = ltb (suc n) now

-- The assignment of a new object to `nextEvent`, which is not reached if the constructor exits.
unfoldable pub assign_event : EventKind → ℕ → State → State
assign_event k until s =
    let renewed = record s { next_event = some (record { kind = k; wait_until = until }) } in
    elim s.ended [ none ↦ renewed | some e ↦ s ]
