-- ===== src/Registry/Shut.antt =====
-- request_registry.rs: no method but `open_session` brings a session back.
use msgtrans.Prelude.{
  ℕ, ◌+◌, ◌%◌, ◌≡◌, ap, ◌∙◌, inl, inr, List, [], ◌∷◌, Option, none, some, Bool, true, false, arith,
  Option-cases, if◌then◌else◌, length, get_or, not, ◌==◌, All,
}
use msgtrans.Prelude.Map.{nat_eq, get, insert, remove, get-insert, get-remove, keys}
use msgtrans.Packet.{Packet}
use msgtrans.Registry.{
  RequestKey, key_eq, RequestEntry, dropped, responded, send_failed, timed_out, session_closed,
  count_send_failed, count_timeout, RequestToken, token_key, RequestRegistry, new_runtime, add64,
  retire, count_pending, remove_waiter, store_entry, remove_terminal_entry, forget_request,
}
use msgtrans.Registry.Register.{
  open_session, allocate, next_oneway_id, next_request_id, modify, schedule_for_deadline, new_entry,
  track_request, undo_register, admit, register_impl, register, outbound_key, add_waiter,
  try_register_waiter,
}
use msgtrans.Registry.Respond.{
  begin_respond, finish_respond, mark_responded_key, wake, complete_waiter,
}
use msgtrans.Registry.Abort.{
  mark_dropped_key, is_updated, abort_waiter, abort_request_token, drop_sessions, drop_keys,
  abort_all,
}
use msgtrans.Registry.Close.{close_session_pending}
use msgtrans.Registry.Closing.{close_session_pending_open}
use msgtrans.Registry.Wheel.{mark_timed_out, scan_key, scan_keys, scan_timeout_bucket}
use msgtrans.Registry.Step.{
  Call, opens, allocates_oneway, allocates, registers, registers_waiter, completes, begins,
  finishes, aborts, aborts_token, aborts_all, closes, scans, records_send_failed, step, run,
}

module _ (sid : ℕ) where
  abbrev pub IsShut : RequestRegistry → Type 0
  IsShut r = get sid r.sessions ≡ none

  -- Every call but an opening of this session.
  abbrev pub spares : Call → Bool
  spares (opens s) = not (s == sid)
  spares _ = true

  forget_request-IsShut :
      (r : RequestRegistry) (k : RequestKey) (o : Option ℕ)
      → IsShut r
      → IsShut (forget_request r k o)
  unfolding forget_request
  forget_request-IsShut r k none h = h
  forget_request-IsShut r k (some s) h = elim (Option-cases (get s r.sessions)) [
    | inl n ↦ rw (n, forget_request) h
    | inr (rt, g) ↦
        rw (g, forget_request)
          (ground (
            arith,
            h,
            g,
            get-insert s sid (record rt { requests = remove k rt.requests }) r.sessions,
          ))
  ]

  retire-IsShut :
      (r : RequestRegistry) (k : RequestKey) (e : RequestEntry) → IsShut r → IsShut (retire r k e)
  unfolding remove_terminal_entry
  retire-IsShut r k e h = forget_request-IsShut _ k k.session_id h

  open_session-IsShut :
      (r : RequestRegistry) (s : ℕ) → not (s == sid) ≡ true → IsShut r → IsShut (open_session r s)
  unfolding open_session
  open_session-IsShut r s o h = elim (Option-cases (get s r.sessions)) [
    | inl n ↦ rw (n, open_session) (get-insert s sid new_runtime r.sessions ∙ ground (arith, o, h))
    | inr (rt, g) ↦ rw (g, open_session) h
  ]

  next_request_id-IsShut :
      (r : RequestRegistry) (o : Option ℕ) → IsShut r → IsShut (next_request_id r o).1
  unfolding next_request_id allocate next_oneway_id
  next_request_id-IsShut r none h = h
  next_request_id-IsShut r (some s) h = elim (Option-cases (get s r.sessions)) [
    | inl n ↦ rw (n, next_request_id) h
    | inr (rt, g) ↦
        rw (g, next_request_id)
          (ground (
            arith,
            h,
            g,
            get-insert s sid (record rt { next_request_id = rt.next_request_id + 1 }) r.sessions,
          ))
  ]

  mark_responded_key-IsShut :
      (r : RequestRegistry) (k : RequestKey) → IsShut r → IsShut (mark_responded_key r k).1
  unfolding mark_responded_key
  mark_responded_key-IsShut r k h = elim (Option-cases (get k r.entries)) [
    | inl n ↦ rw (n, mark_responded_key) h
    | inr (e, g) ↦
        rw (g, mark_responded_key)
          (ground (arith, h, retire-IsShut r k (record e { state = responded }) h))
  ]

  mark_dropped_key-IsShut :
      (r : RequestRegistry) (k : RequestKey) → IsShut r → IsShut (mark_dropped_key r k).1
  unfolding mark_dropped_key
  mark_dropped_key-IsShut r k h = elim (Option-cases (get k r.entries)) [
    | inl n ↦ rw (n, mark_dropped_key) h
    | inr (e, g) ↦
        rw (g, mark_dropped_key)
          (ground (arith, h, retire-IsShut r k (record e { state = dropped }) h))
  ]

  finish_respond-IsShut :
      (r : RequestRegistry) (t : RequestToken) (b : Bool)
      → IsShut r
      → IsShut (finish_respond r t b).1
  unfolding finish_respond
  finish_respond-IsShut r t true h = elim (Option-cases (get (token_key t) r.entries)) [
    | inl n ↦ rw (n, finish_respond) h
    | inr (e, g) ↦
        rw (g, finish_respond)
          (ground (arith, h, retire-IsShut r (token_key t) (record e { state = responded }) h))
  ]
  finish_respond-IsShut r t false h = elim (Option-cases (get (token_key t) r.entries)) [
    | inl n ↦ rw (n, finish_respond) h
    | inr (e, g) ↦
        rw (g, finish_respond)
          (ground (
            arith,
            h,
            retire-IsShut (count_send_failed r) (token_key t) (record e { state = send_failed }) h,
          ))
  ]

  begin_respond-IsShut :
      (r : RequestRegistry) (t : RequestToken) → IsShut r → IsShut (begin_respond r t).1
  unfolding begin_respond
  begin_respond-IsShut r t h = ground (arith, h)

  abort_request_token-IsShut :
      (r : RequestRegistry) (t : RequestToken) → IsShut r → IsShut (abort_request_token r t).1
  unfolding abort_request_token
  abort_request_token-IsShut r t h = elim (Option-cases (get (token_key t) r.entries)) [
    | inl n ↦ rw (n, abort_request_token) h
    | inr (e, g) ↦
        rw (g, abort_request_token)
          (ground (arith, h, retire-IsShut r (token_key t) (record e { state = dropped }) h))
  ]

  drop_sessions-IsShut :
      (r : RequestRegistry) (sids : List ℕ) → IsShut r → IsShut (drop_sessions r sids)
  unfolding drop_sessions
  drop_sessions-IsShut r [] h = h
  drop_sessions-IsShut r (s ∷ sids) h =
      drop_sessions-IsShut (record r { sessions = remove s r.sessions }) sids
        (get-remove s sid r.sessions ∙ ground (arith, h))

  drop_keys-IsShut :
      (r : RequestRegistry) (ks : List RequestKey) (n : ℕ) → IsShut r → IsShut (drop_keys r ks n).1
  unfolding drop_keys
  drop_keys-IsShut r [] n h = h
  drop_keys-IsShut r (k ∷ ks) n h =
      drop_keys-IsShut (remove_waiter (mark_dropped_key r k).1 k) ks
        (if is_updated (mark_dropped_key r k).0 then n + 1 else n) (mark_dropped_key-IsShut r k h)

  abort_all-IsShut : (r : RequestRegistry) → IsShut r → IsShut (abort_all r).1
  unfolding abort_all
  abort_all-IsShut r h =
      let closed = drop_sessions r (keys r.sessions) in
      drop_keys-IsShut closed (keys closed.entries) 0 (drop_sessions-IsShut r (keys r.sessions) h)

  close_session_pending-IsShut :
      (r : RequestRegistry) (s : ℕ) → IsShut r → IsShut (close_session_pending r s).1
  unfolding close_session_pending
  close_session_pending-IsShut r s h = elim (Option-cases (get s r.sessions)) [
    | inl n ↦ rw (n, close_session_pending) h
    | inr (rt, g) ↦
        ap (get sid) (close_session_pending_open r s rt g).1
        ∙ get-remove s sid r.sessions
        ∙ ground (arith, h)
  ]

  scan_key-IsShut :
      (r : RequestRegistry) (k : RequestKey) (now later : ℕ)
      → IsShut r
      → IsShut (scan_key r k now later).1
  unfolding scan_key mark_timed_out schedule_for_deadline
  scan_key-IsShut r k now later h = elim (Option-cases (get k r.entries)) [
    | inl n ↦ rw (n, scan_key) h
    | inr (e, g) ↦
        rw (g, scan_key)
          (ground
            (arith, h, g, retire-IsShut (count_timeout r) k (record e { state = timed_out }) h))
  ]

  scan_keys-IsShut :
      (r : RequestRegistry) (ks : List RequestKey) (now : ℕ) (clock : ℕ → ℕ) (n : ℕ)
      → IsShut r
      → IsShut (scan_keys r ks now clock n).1
  unfolding scan_keys
  scan_keys-IsShut r [] now clock n h = h
  scan_keys-IsShut r (k ∷ ks) now clock n h =
      let (hit, r') = scan_key r k now (clock (length ks)) in
      scan_keys-IsShut r' ks now clock (if hit then n + 1 else n)
        (scan_key-IsShut r k now (clock (length ks)) h)

  track_request-IsShut :
      (r : RequestRegistry) (k : RequestKey) (o : Option ℕ)
      → IsShut r
      → IsShut (track_request r k o)
  unfolding track_request
  track_request-IsShut r k none h = h
  track_request-IsShut r k (some s) h = elim (Option-cases (get s r.sessions)) [
    | inl n ↦ rw (n, track_request) h
    | inr (rt, g) ↦
        rw (g, track_request)
          (ground (
            arith,
            h,
            g,
            get-insert s sid (record rt { requests = insert k tt rt.requests }) r.sessions,
          ))
  ]

  undo_register-IsShut :
      (r : RequestRegistry) (k : RequestKey) → IsShut r → IsShut (undo_register r k)
  unfolding undo_register
  undo_register-IsShut r k h = elim (Option-cases (get k r.entries)) [
    | inl n ↦ rw (n, undo_register) h
    | inr (e, g) ↦
        rw (g, undo_register)
          (ground (arith, h, retire-IsShut r k (record e { state = session_closed }) h))
  ]

  register_impl-IsShut :
      (r : RequestRegistry) (k : RequestKey) (b timeout : ℕ) (schedule : Bool) (now later : ℕ)
      → IsShut r
      → IsShut (register_impl r k b timeout schedule now later).1
  unfolding register_impl admit schedule_for_deadline
  register_impl-IsShut r k b timeout schedule now later h =
      let e = new_entry k b now timeout r.next_generation in
      let counted = count_pending (record r { next_generation = add64 r.next_generation 1 }) in
      let s = track_request (store_entry counted k e) k k.session_id in
      let t = track_request-IsShut (store_entry counted k e) k k.session_id h in
      let u = undo_register-IsShut s k t in ground (arith, h, t, u)

  add_waiter-IsShut :
      (r : RequestRegistry) (k : RequestKey) (t : Option RequestToken)
      → IsShut r
      → IsShut (add_waiter r k t).1
  unfolding add_waiter
  add_waiter-IsShut r k t h = ground (arith, h)

  complete_waiter-IsShut :
      (r : RequestRegistry) (s : Option ℕ) (i : ℕ) (packet : Packet)
      → IsShut r
      → IsShut (complete_waiter r s i packet).1
  unfolding complete_waiter wake
  complete_waiter-IsShut r s i packet h =
      let m = mark_responded_key-IsShut r (outbound_key s i) h in ground (arith, m)

  step-IsShut :
      (r : RequestRegistry) (call : Call) → spares call ≡ true → IsShut r → IsShut (step r call)
  unfolding step next_oneway_id register try_register_waiter abort_waiter scan_timeout_bucket
  step-IsShut r (opens s) o h = open_session-IsShut r s o h
  step-IsShut r allocates_oneway o h = h
  step-IsShut r (allocates s) o h = next_request_id-IsShut r s h
  step-IsShut r (registers i s b t now later) o h = register_impl-IsShut r _ b t true now later h
  step-IsShut r (registers_waiter i s b t now) o h =
      let k = outbound_key s i in
      let (token, r') = register_impl r k b t false now now in
      add_waiter-IsShut r' k token (register_impl-IsShut r k b t false now now h)
  step-IsShut r (completes s i packet) o h = complete_waiter-IsShut r s i packet h
  step-IsShut r (begins t) o h = begin_respond-IsShut r t h
  step-IsShut r (finishes t b) o h = finish_respond-IsShut r t b h
  step-IsShut r (aborts s i) o h = mark_dropped_key-IsShut r (outbound_key s i) h
  step-IsShut r (aborts_token t) o h = abort_request_token-IsShut r t h
  step-IsShut r aborts_all o h = abort_all-IsShut r h
  step-IsShut r (closes s) o h = close_session_pending-IsShut r s h
  step-IsShut r (scans now clock) o h =
      let i = (r.current_tick + 1) % r.bucket_count in
      scan_keys-IsShut
        (record r {
          current_tick = add64 r.current_tick 1;
          buckets = modify r.buckets i (λ bucket. []);
        })
        (get_or r.buckets i []) now clock 0 h
  step-IsShut r records_send_failed o h = h

  pub run-IsShut :
      (r : RequestRegistry) (cs : List Call)
      → All (λ c. spares c ≡ true) cs
      → IsShut r
      → IsShut (run r cs)
  unfolding run
  run-IsShut r [] o h = h
  run-IsShut r (c ∷ cs) o h = run-IsShut (step r c) cs o.1 (step-IsShut r c o.0 h)
