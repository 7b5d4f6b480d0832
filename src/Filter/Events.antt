-- ===== src/Filter/Events.antt =====
-- The events of src/spock-filter.C (lines 55-352): what their constructors do, their conditions and
-- their final actions. A constructor runs before the assignment to `nextEvent`.
use rmc_spock.Base.{Bool, true, false, ◌+◌, ◌&&◌, not, ltb, ◌==◌, if◌then◌else◌}
use rmc_spock.Filter.State.{
  State, Round, Event, EventKind, Waited, Signal, is_expired, assign_event, exit_with, send,
  wait_for_natural_exit, int_primary, term_primary, kill_primary, int_filter, term_filter, sigint,
  sigterm, sigkill, to_primary, to_filter, still_running, wait_failed, signaled, stopped,
  exited_with,
}

-- `filterPid > 0 && -1 == kill(filterPid, sig)`, with the call recorded.
unfoldable pub signal_filter : Signal → Round → State → State
unfolding exit_with send
signal_filter sig r s =
    if ltb 0 s.filter_pid
    then (if r.kill_filter_ok
        then send (to_filter sig) s
        else exit_with 2 (record (send (to_filter sig) s) { filter_pid = 0 }))
    else s

unfoldable pub new_kill_filter : State → State
unfolding exit_with send
new_kill_filter s =
    if ltb 0 s.filter_pid
    then exit_with 2
        (record (send (to_filter sigkill) s) { program_exit_status = 2; filter_pid = 0 })
    else exit_with s.program_exit_status s

unfoldable pub new_term_filter : Round → State → State
unfolding signal_filter assign_event
new_term_filter r s = assign_event term_filter (r.started_at + 5) (signal_filter sigterm r s)

unfoldable pub new_int_filter : Round → State → State
unfolding signal_filter assign_event
new_int_filter r s = assign_event int_filter (r.started_at + 5) (signal_filter sigint r s)

unfoldable pub new_kill_primary : Round → State → State
unfolding assign_event send
new_kill_primary r s = assign_event kill_primary r.started_at (
    if ltb 0 s.primary_pid
    then record (send (to_primary sigint) s) { program_exit_status = 1; primary_pid = 0 }
    else s)

-- The construction of `IntFilter` inside is followed by the assignment of the `TermPrimary` itself.
unfoldable pub new_term_primary : Round → State → State
unfolding assign_event send new_int_filter
new_term_primary r s =
    let called = send (to_primary sigterm) s in
    assign_event term_primary (r.started_at + 5) (
      if ltb 0 s.primary_pid
      then (if r.kill_primary_ok
          then called
          else new_int_filter r (record called { primary_pid = 0 }))
      else new_int_filter r (record s { primary_pid = 0 }))

unfoldable pub new_int_primary : Round → State → State
unfolding assign_event send new_int_filter
new_int_primary r s =
    let called = send (to_primary sigint) s in
    assign_event int_primary (r.started_at + 5) (
      if ltb 0 s.primary_pid
      then (if r.kill_primary_ok
          then called
          else new_int_filter r (record called { program_exit_status = 1; primary_pid = 0 }))
      else new_int_filter r (record s { program_exit_status = 1; primary_pid = 0 }))

unfoldable pub new_wait_for_natural_exit : Round → State → State
unfolding assign_event
new_wait_for_natural_exit r s = assign_event wait_for_natural_exit (r.started_at + 60) s

-- The wait for the filter in `TermFilter` and `IntFilter`.
await_filter : Waited → State → State × Bool
await_filter still_running s = (s, false)
await_filter wait_failed s = (record s { program_exit_status = 2; filter_pid = 0 }, true)
await_filter signaled s = (record s { program_exit_status = 2; filter_pid = 0 }, true)
await_filter (exited_with n) s = (
  if n == 0
      then record s { filter_pid = 0 }
      else record s { program_exit_status = 2; filter_pid = 0 },
  true,
)
await_filter stopped s = (s, false)

-- The wait for the primary command in `TermPrimary` and `IntPrimary`.
await_primary : Waited → State → State × Bool
await_primary still_running s = (s, false)
await_primary wait_failed s = (record s { program_exit_status = 1; primary_pid = 0 }, true)
await_primary signaled s = (record s { program_exit_status = 1; primary_pid = 0 }, true)
await_primary (exited_with n) s = (record s { program_exit_status = n; primary_pid = 0 }, true)
await_primary stopped s = (s, false)

-- The two waits of `WaitForNaturalExit`.
natural_primary : Waited → State → State
natural_primary still_running s = s
natural_primary wait_failed s = record s { primary_pid = 0; program_exit_status = 1 }
natural_primary signaled s = record s { primary_pid = 0; program_exit_status = 1 }
natural_primary (exited_with n) s =
    if n == 0
    then record s { primary_pid = 0 }
    else record s { primary_pid = 0; program_exit_status = 1 }
natural_primary stopped s = s

natural_filter : Waited → State → State
natural_filter still_running s = s
natural_filter wait_failed s = record s { filter_pid = 0; program_exit_status = 2 }
natural_filter signaled s = record s { filter_pid = 0; program_exit_status = 2 }
natural_filter (exited_with n) s =
    if n == 0
    then record s { filter_pid = 0 }
    else record s { filter_pid = 0; program_exit_status = 2 }
natural_filter stopped s = s

-- `WaitForNaturalExit::waitCondition`.
unfoldable pub natural_condition : Round → State → State × Bool
unfolding natural_primary natural_filter
natural_condition r s =
    let s1 = (if ltb 0 s.primary_pid then natural_primary r.primary_waited s else s) in
    let s2 = (if ltb 0 s1.filter_pid then natural_filter r.filter_waited s1 else s1) in
    (s2, not (ltb 0 s2.primary_pid) && not (ltb 0 s2.filter_pid))

int_primary_condition : Round → State → State × Bool
unfolding await_primary
int_primary_condition r s =
    if ltb 0 s.primary_pid then await_primary r.primary_waited s else (s, true)

term_primary_condition : Round → State → State × Bool
unfolding await_primary
term_primary_condition r s =
    if ltb 0 s.primary_pid then await_primary r.primary_waited s else (s, true)

int_filter_condition : Round → State → State × Bool
unfolding await_filter
int_filter_condition r s = if ltb 0 s.filter_pid then await_filter r.filter_waited s else (s, true)

term_filter_condition : Round → State → State × Bool
unfolding await_filter
term_filter_condition r s = if ltb 0 s.filter_pid then await_filter r.filter_waited s else (s, true)

-- The virtual `waitCondition`.
unfoldable pub wait_condition : EventKind → Round → State → State × Bool
unfolding natural_condition int_primary_condition term_primary_condition int_filter_condition
    term_filter_condition
wait_condition wait_for_natural_exit r s = natural_condition r s
wait_condition int_primary r s = int_primary_condition r s
wait_condition term_primary r s = term_primary_condition r s
wait_condition kill_primary r s = (s, true)
wait_condition int_filter r s = int_filter_condition r s
wait_condition term_filter r s = term_filter_condition r s

natural_action : Round → State → State
unfolding exit_with new_int_primary
natural_action r s =
    if not (ltb 0 s.primary_pid) && not (ltb 0 s.filter_pid)
    then exit_with s.program_exit_status s
    else new_int_primary r s

int_primary_action : Round → State → State
unfolding new_term_primary new_int_filter
int_primary_action r s = if ltb 0 s.primary_pid then new_term_primary r s else new_int_filter r s

term_primary_action : Round → State → State
unfolding new_kill_primary new_int_filter
term_primary_action r s = if ltb 0 s.primary_pid then new_kill_primary r s else new_int_filter r s

kill_primary_action : Round → State → State
unfolding new_int_filter exit_with
kill_primary_action r s =
    if ltb 0 s.filter_pid then new_int_filter r s else exit_with s.program_exit_status s

int_filter_action : Round → State → State
unfolding new_term_filter exit_with
int_filter_action r s =
    if ltb 0 s.filter_pid then new_term_filter r s else exit_with s.program_exit_status s

term_filter_action : Round → State → State
unfolding new_kill_filter exit_with
term_filter_action r s =
    if ltb 0 s.filter_pid then new_kill_filter s else exit_with s.program_exit_status s

-- The virtual `finalAction`.
unfoldable pub final_action : EventKind → Round → State → State
unfolding natural_action int_primary_action term_primary_action kill_primary_action
    int_filter_action term_filter_action
final_action wait_for_natural_exit r s = natural_action r s
final_action int_primary r s = int_primary_action r s
final_action term_primary r s = term_primary_action r s
final_action kill_primary r s = kill_primary_action r s
final_action int_filter r s = int_filter_action r s
final_action term_filter r s = term_filter_action r s

-- `DoThenWait::process`: the condition is not asked when the time is over. Every final action
-- replaces the object or exits, so that the `cancel` behind it is of no effect.
unfoldable pub process : Event → Round → State → State
unfolding is_expired wait_condition final_action
process e r s =
    let asked = wait_condition e.kind r s in
    if is_expired r.tested_at e.wait_until
    then final_action e.kind r s
    else (if asked.1 then final_action e.kind r asked.0 else asked.0)
