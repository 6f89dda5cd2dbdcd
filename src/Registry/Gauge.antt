-- ===== src/Registry/Gauge.antt =====
-- request_registry.rs: every method keeps the table sound and the gauge exact.
mod Answer
pub mod Teardown
pub mod Admit
use msgtrans.Prelude.{
  ℕ, suc, ◌+◌, ◌-◌, ◌%◌, ◌^◌, ◌≤◌, ◌<◌, ◌≡◌, refl, sym, ap, ◌∙◌, subst, ◌⊎◌, inl, inr, List, [],
  ◌∷◌, Option, none, some, Result, ok, err, Bool, true, false, arith, length, leb, ltb, get_or,
  if◌then◌else◌, Bool-cases, Option-cases, ◌==◌,
}
use msgtrans.Prelude.Map.{nat_eq, keys, Map, get, insert, remove, Every, Every-get}
use msgtrans.Packet.{Packet}
use msgtrans.Registry.{
  RequestKey, key_eq, RequestEntry, RequestState, pending, responding, responded, RequestRegistry,
  add64, dec64, u64_mod, retire, state_u8, RequestToken, token_key, new_registry, new_with_timing,
  inbound, remove_waiter, count_timeout, count_duplicate, count_send_failed, MarkResult, updated,
  already, not_found, session_closed, send_failed,
}
use msgtrans.Registry.Invariant.{
  IsLive, Sound, Inv, Sound-insert, Sound-update, Sound-remove, Sound-recount, retire-Inv,
}
use msgtrans.Registry.Register.{
  modify, open_session, next_oneway_id, next_request_id, allocate, register_impl, register, admit,
  try_register_waiter, add_waiter, track_request, schedule_for_deadline, undo_register,
  outbound_key, resolve_runtime,
}
use msgtrans.Registry.Respond.{
  is_state, mark_responded_key, wake, complete_waiter, begin_respond, finish_respond,
}
use msgtrans.Registry.Abort.{
  is_updated, mark_dropped_key, abort_waiter, abort_request_token, drop_sessions, drop_keys,
  abort_all,
}
use msgtrans.Registry.Close.{count_closed, dies, close_key, close_keys, close_session_pending}
use msgtrans.Registry.Wheel.{mark_timed_out, scan_key, scan_keys, scan_timeout_bucket}
use msgtrans.Registry.Step.{
  Call, step, run, opens, allocates_oneway, allocates, registers, registers_waiter, completes,
  begins, finishes, aborts, aborts_token, aborts_all, closes, scans, records_send_failed,
}
use msgtrans.Registry.Gauge.Answer.{
  open_session-Inv, complete_waiter-Inv, begin_respond-Inv, finish_respond-Inv, abort_waiter-Inv,
  abort_request_token-Inv,
}
use msgtrans.Registry.Gauge.Teardown.{
  abort_all-Inv, close_session_pending-Inv, scan_timeout_bucket-Inv,
}
use msgtrans.Registry.Gauge.Admit.{register_impl-Inv, try_register_waiter-Inv, next_request_id-Inv}

-- Every method keeps the table sound: each key stands once, under its own entry; no entry is in a
-- terminal state; and the gauge of pending requests is the number of entries, as a u64.
pub step-Inv : (r : RequestRegistry) (c : Call) → Inv r → Inv (step r c)
unfolding step register next_oneway_id
step-Inv r (opens sid) s = open_session-Inv r sid s
step-Inv r allocates_oneway s = s
step-Inv r (allocates sid) s = next_request_id-Inv r sid s
step-Inv r (registers i sid b t now later) s =
    register_impl-Inv r (record { session_id = sid; request_id = i; direction = inbound }) b t true
      now later s
step-Inv r (registers_waiter i sid b t now) s = try_register_waiter-Inv r i sid b t now s
step-Inv r (completes sid i p) s = complete_waiter-Inv r sid i p s
step-Inv r (begins token) s = begin_respond-Inv r token s
step-Inv r (finishes token b) s = finish_respond-Inv r token b s
step-Inv r (aborts sid i) s = abort_waiter-Inv r sid i s
step-Inv r (aborts_token token) s = abort_request_token-Inv r token s
step-Inv r aborts_all s = abort_all-Inv r s
step-Inv r (closes sid) s = close_session_pending-Inv r sid s
step-Inv r (scans now clock) s = scan_timeout_bucket-Inv r now clock s
step-Inv r records_send_failed s = s

pub run-Inv : (r : RequestRegistry) (cs : List Call) → Inv r → Inv (run r cs)
unfolding run
run-Inv r [] s = s
run-Inv r (c ∷ cs) s = run-Inv (step r c) cs (step-Inv r c s)

pub new_with_timing-Inv : (bucket_count tick : ℕ) → Inv (new_with_timing bucket_count tick)
unfolding new_with_timing
new_with_timing-Inv bucket_count tick = record { distinct = tt; live = tt; counted = refl }

-- After any calls on a new registry the table is sound; and while fewer than 2 ^ 64 requests are
-- tracked the gauge of pending requests is exactly their number.
pub run-new_with_timing-Inv :
    (bucket_count tick : ℕ) (cs : List Call)
    → let r = run (new_with_timing bucket_count tick) cs in
      Inv r × ((u64_mod ≤ length r.entries) ⊎ ((r.counters).pending_requests ≡ length r.entries))
run-new_with_timing-Inv bucket_count tick cs =
    let s =
      run-Inv (new_with_timing bucket_count tick) cs (new_with_timing-Inv bucket_count tick) in
    (s, exact _ _ s.counted)
  where
    exact : (n c : ℕ) → c ≡ n % u64_mod → (u64_mod ≤ n) ⊎ (c ≡ n)
    exact n c e = grind arith
