-- ===== src/Registry/Tests.antt =====
-- The registry over short histories.
use msgtrans.Prelude.{
  ◌+◌, ◌%◌, ◌≤◌, ◌≡◌, ◌≢◌, refl, ◌⊎◌, List, [], ◌∷◌, none, some, true, false, length, arith,
  if◌then◌else◌, get_or,
}
use msgtrans.Prelude.Map.{has, nat_eq, get, insert}
use msgtrans.Packet.{Packet, response_packet}
use msgtrans.Registry.{
  RequestRegistry, RequestKey, RequestToken, RequestEntry, SessionRuntime, inbound, pending,
  responding, key_eq, new_with_timing, updated, already, not_found, count_duplicate, u64_mod,
}
use msgtrans.Registry.Register.{
  outbound_key, next_request_id, register, try_register_waiter, open_session, register_impl,
  resolve_runtime, admit, track_request, now_closing, schedule_for_deadline, ticks_until,
  add_waiter,
}
use msgtrans.Registry.Respond.{begin_respond, finish_respond, complete_waiter}
use msgtrans.Registry.Abort.{abort_request_token}
use msgtrans.Registry.Close.{close_session_pending}
use msgtrans.Registry.Wheel.{scan_timeout_bucket}
use msgtrans.Registry.Step.{Call, step, run, opens, registers, registers_waiter}
use msgtrans.Registry.Invariant.{Inv}
use msgtrans.Registry.Gauge.{run-new_with_timing-Inv}
use msgtrans.Registry.Tokens.{Untouched, stale_token, claim_is_exclusive}
use msgtrans.Registry.Waiters.{complete_waiter_once}
use msgtrans.Registry.Deadlines.{unless, is_due, scan_timeout_bucket-entries}
use msgtrans.Registry.Refused.{close_session_pending-entries}
use msgtrans.Registry.Abort.{abort_all}
use msgtrans.Registry.Aborting.{is_pending, abort_all-entries}
use msgtrans.Registry.Orphans.{pending_is_listed}
use msgtrans.Registry.Race.{
  Turn, closes, ends, play, open_race, take_turn, registrar, closer_step, ender_step, idle,
}
use msgtrans.Registry.Race.Ends.{nothing_left_behind}

abbrev in_key : RequestKey
in_key = record { session_id = some 4; request_id = 9; direction = inbound }

abbrev out_key : RequestKey
out_key = outbound_key (some 4) 1

-- One session with an inbound and an outbound request.
abbrev two_calls : List Call
two_calls = opens 4 ∷ registers 9 (some 4) 2 30 100 101 ∷ registers_waiter 1 (some 4) 2 50 100 ∷ []

abbrev start : RequestRegistry
start = new_with_timing 8 10

abbrev busy : RequestRegistry
busy = run start two_calls

abbrev in_token : RequestToken
in_token = record { session_id = some 4; request_id = 9; direction = inbound; generation = 1 }

abbrev old_token : RequestToken
old_token = record { session_id = some 4; request_id = 9; direction = inbound; generation = 7 }

abbrev in_entry : RequestEntry
in_entry = record {
  key = in_key;
  biz_type = 2;
  created_at = 100;
  deadline_at = 130;
  generation = 1;
  state = pending;
}

abbrev out_entry : RequestEntry
out_entry = record {
  key = out_key;
  biz_type = 2;
  created_at = 100;
  deadline_at = 150;
  generation = 2;
  state = pending;
}

busy-in : get in_key busy.entries ≡ some in_entry
unfolding run step new_with_timing open_session register try_register_waiter register_impl
    resolve_runtime admit track_request now_closing schedule_for_deadline ticks_until add_waiter get
    insert
busy-in = refl

busy-out : get out_key busy.entries ≡ some out_entry
unfolding run step new_with_timing open_session register try_register_waiter register_impl
    resolve_runtime admit track_request now_closing schedule_for_deadline ticks_until add_waiter get
    insert
busy-out = refl

busy-waiter : get out_key busy.waiters ≡ some 0
unfolding run step new_with_timing open_session register try_register_waiter register_impl
    resolve_runtime admit track_request now_closing schedule_for_deadline ticks_until add_waiter get
    insert
busy-waiter = refl

busy-claim : (begin_respond busy in_token).0 ≡ updated
unfolding run step new_with_timing open_session register try_register_waiter register_impl
    resolve_runtime admit track_request now_closing schedule_for_deadline ticks_until add_waiter get
    insert begin_respond
busy-claim = refl

abbrev busy_session : SessionRuntime
busy_session = record {
  closing = false;
  requests = (in_key, tt) ∷ (out_key, tt) ∷ [];
  next_request_id = 1;
}

busy-session : get 4 busy.sessions ≡ some busy_session
unfolding run step new_with_timing open_session register try_register_waiter register_impl
    resolve_runtime admit track_request now_closing schedule_for_deadline ticks_until add_waiter get
    insert
busy-session = refl

-- The wheel lists the inbound request under tick 3.
busy-buckets : busy.buckets ≡ [] ∷ [] ∷ [] ∷ (in_key ∷ []) ∷ [] ∷ [] ∷ [] ∷ [] ∷ []
unfolding run step new_with_timing open_session register try_register_waiter register_impl
    resolve_runtime admit track_request now_closing schedule_for_deadline ticks_until add_waiter get
    insert
busy-buckets = refl

busy-Inv : Inv busy
busy-Inv = (run-new_with_timing-Inv 8 10 two_calls).0

abbrev reply : Packet
reply = response_packet 1 (5 ∷ [])

run-new_with_timing-Inv_example :
    let r = run (new_with_timing 8 10) two_calls in
    Inv r × ((u64_mod ≤ length r.entries) ⊎ ((r.counters).pending_requests ≡ length r.entries))
run-new_with_timing-Inv_example = run-new_with_timing-Inv 8 10 two_calls

older : in_entry.generation ≢ old_token.generation
older h = omega (arith, h)

stale_token_example :
    ((begin_respond busy old_token).0 ≡ not_found)
    × ((finish_respond busy old_token true).0 ≡ not_found)
    × ((abort_request_token busy old_token).0 ≡ false)
    × Untouched busy (begin_respond busy old_token).1
    × Untouched busy (finish_respond busy old_token true).1
    × Untouched busy (abort_request_token busy old_token).1
stale_token_example = stale_token busy old_token in_entry true busy-in older

claim_is_exclusive_example :
    (begin_respond (begin_respond busy in_token).1 in_token
      ≡ (already responding, count_duplicate (begin_respond busy in_token).1))
    × ((finish_respond (begin_respond busy in_token).1 in_token true).0 ≡ updated)
    × (get out_key (finish_respond (begin_respond busy in_token).1 in_token true).1.entries
        ≡ get out_key busy.entries)
    × ((begin_respond (finish_respond (begin_respond busy in_token).1 in_token true).1 in_token).0
        ≡ not_found)
    × ((finish_respond
          (finish_respond (begin_respond busy in_token).1 in_token true).1
          in_token
          true).0
        ≡ not_found)
claim_is_exclusive_example = claim_is_exclusive busy in_token true out_key busy-claim

complete_waiter_once_example :
    ((complete_waiter busy (some 4) 1 reply).0 ≡ true)
    × ((complete_waiter busy (some 4) 1 reply).1.woken ≡ (0, reply) ∷ busy.woken)
    × (get in_key (complete_waiter busy (some 4) 1 reply).1.entries ≡ get in_key busy.entries)
    × (get in_key (complete_waiter busy (some 4) 1 reply).1.waiters ≡ get in_key busy.waiters)
    × (complete_waiter (complete_waiter busy (some 4) 1 reply).1 (some 4) 1 reply
        ≡ (false, count_duplicate (complete_waiter busy (some 4) 1 reply).1))
complete_waiter_once_example =
    complete_waiter_once busy (some 4) 1 reply reply out_entry 0 in_key busy-out refl busy-waiter

scan_timeout_bucket-entries_example :
    get in_key (scan_timeout_bucket busy 130 (λ n. 131)).1.entries ≡ (
      if has (get_or busy.buckets ((busy.current_tick + 1) % busy.bucket_count) []) in_key
      then unless (is_due 130) (get in_key busy.entries)
      else get in_key busy.entries)
scan_timeout_bucket-entries_example = scan_timeout_bucket-entries busy 130 (λ n. 131) in_key

-- After the close: another session opens, and the closed one tries.
abbrev later_calls : List Call
later_calls = opens 5 ∷ registers 9 (some 4) 2 30 100 101 ∷ []

close_session_pending-entries_example :
    let after = run (close_session_pending busy 4).1 later_calls in
    (get in_key (close_session_pending busy 4).1.entries ≡ none)
    × (get 4 (close_session_pending busy 4).1.sessions ≡ none)
    × (get 4 after.sessions ≡ none)
    × (next_request_id after (some 4) ≡ (none, after))
    × (register after 5 (some 4) 2 30 200 201 ≡ (none, after))
    × (try_register_waiter after 5 (some 4) 2 30 200 ≡ (none, after))
close_session_pending-entries_example =
    close_session_pending-entries busy 4 busy_session in_key 5 2 30 200 201 later_calls busy-Inv
      busy-session (refl, (refl, tt))

abort_all-entries_example :
    get in_key (abort_all busy).1.entries ≡ unless is_pending (get in_key busy.entries)
abort_all-entries_example = abort_all-entries busy in_key

pending_is_listed_example :
    (rt : SessionRuntime) × (get 4 (run (new_with_timing 8 10) two_calls).sessions ≡ some rt)
    × (rt.closing ≡ false)
    × (get in_key rt.requests ≡ some tt)
pending_is_listed_example = pending_is_listed 8 10 two_calls in_key in_entry 4 busy-in refl refl

-- The registration inserts its entry, the close unlinks the session, a method ends the request.
abbrev schedule : List Turn
schedule =
    Turn.registers ∷ Turn.registers ∷ closes ∷ ends ∷ Turn.registers ∷ closes ∷ ends
    ∷ Turn.registers ∷ closes ∷ ends ∷ Turn.registers ∷ ends ∷ Turn.registers ∷ Turn.registers
    ∷ Turn.registers ∷ closes ∷ closes ∷ closes ∷ closes ∷ []

schedule-idle : (play open_race schedule).ender ≡ idle
unfolding play take_turn registrar closer_step ender_step open_race
schedule-idle = refl

nothing_left_behind_example :
    ((play open_race schedule).entry ≡ none) × ((play open_race schedule).waiter ≡ false)
nothing_left_behind_example = nothing_left_behind schedule (omega arith) (omega arith) schedule-idle
