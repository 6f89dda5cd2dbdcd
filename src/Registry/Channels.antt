-- ===== src/Registry/Channels.antt =====
-- request_registry.rs: which methods touch the waiters' channels. Every method but
-- `try_register_waiter` and `complete_waiter` only drops waiters.
use msgtrans.Prelude.{
  ℕ, ◌+◌, ◌%◌, ◌≡◌, refl, ◌⊎◌, inl, inr, List, [], ◌∷◌, Option, none, Bool, arith, Option-cases,
  if◌then◌else◌, length, get_or,
}
use msgtrans.Prelude.Map.{nat_eq, get, remove, get-remove, keys}
use msgtrans.Registry.{
  RequestKey, key_eq, RequestEntry, dropped, RequestToken, token_key, RequestRegistry, add64,
  retire, count_pending, remove_waiter, store_entry, remove_terminal_entry, forget_request,
}
use msgtrans.Registry.Register.{
  open_session, allocate, next_request_id, modify, schedule_for_deadline, new_entry, track_request,
  undo_register, admit, register_impl,
}
use msgtrans.Registry.Respond.{begin_respond, finish_respond, mark_responded_key}
use msgtrans.Registry.Abort.{
  mark_dropped_key, is_updated, abort_waiter, abort_request_token, drop_sessions, drop_keys,
  abort_all,
}
use msgtrans.Registry.Close.{close_key, close_keys, close_session_pending}
use msgtrans.Registry.Wheel.{mark_timed_out, scan_key, scan_keys, scan_timeout_bucket}

-- The waiter of one key is the same or gone, and nothing was sent.
pub record Fewer (j : RequestKey) (r t : RequestRegistry) : Type 0 where
  pub waiter_ok : (get j t.waiters ≡ get j r.waiters) ⊎ (get j t.waiters ≡ none)
  pub woken_ok : t.woken ≡ r.woken
  pub channel_ok : t.next_channel ≡ r.next_channel

module _ (j : RequestKey) where
  pub Fewer-refl : (r : RequestRegistry) → Fewer j r r
  Fewer-refl r = record { waiter_ok = inl refl; woken_ok = refl; channel_ok = refl }

  pub Fewer-trans : {r s t : RequestRegistry} → Fewer j r s → Fewer j s t → Fewer j r t
  Fewer-trans a b = ground arith

  forget_request-Fewer :
      (r : RequestRegistry) (k : RequestKey) (sid : Option ℕ) → Fewer j r (forget_request r k sid)
  unfolding forget_request
  forget_request-Fewer r k sid = ground arith

  retire-Fewer :
      (r : RequestRegistry) (k : RequestKey) (e : RequestEntry) → Fewer j r (retire r k e)
  unfolding remove_terminal_entry forget_request
  retire-Fewer r k e = ground arith

  remove_waiter-Fewer : (r : RequestRegistry) (k : RequestKey) → Fewer j r (remove_waiter r k)
  remove_waiter-Fewer r k = ground (arith, get-remove k j r.waiters)

  retire_remove-Fewer :
      (r : RequestRegistry) (k : RequestKey) (e : RequestEntry)
      → Fewer j r (remove_waiter (retire r k e) k)
  retire_remove-Fewer r k e =
      Fewer-trans (retire-Fewer r k e) (remove_waiter-Fewer (retire r k e) k)

  pub open_session-Fewer : (r : RequestRegistry) (sid : ℕ) → Fewer j r (open_session r sid)
  unfolding open_session
  open_session-Fewer r sid = ground arith

  pub next_request_id-Fewer :
      (r : RequestRegistry) (sid : Option ℕ) → Fewer j r (next_request_id r sid).1
  unfolding next_request_id allocate
  next_request_id-Fewer r sid = ground arith

  pub mark_responded_key-Fewer :
      (r : RequestRegistry) (k : RequestKey) → Fewer j r (mark_responded_key r k).1
  unfolding mark_responded_key remove_terminal_entry forget_request
  mark_responded_key-Fewer r k = ground arith

  mark_dropped_key-Fewer :
      (r : RequestRegistry) (k : RequestKey) → Fewer j r (mark_dropped_key r k).1
  unfolding mark_dropped_key remove_terminal_entry forget_request
  mark_dropped_key-Fewer r k = ground arith

  pub begin_respond-Fewer :
      (r : RequestRegistry) (t : RequestToken) → Fewer j r (begin_respond r t).1
  unfolding begin_respond
  begin_respond-Fewer r t = ground arith

  pub finish_respond-Fewer :
      (r : RequestRegistry) (t : RequestToken) (b : Bool) → Fewer j r (finish_respond r t b).1
  unfolding finish_respond remove_terminal_entry forget_request
  finish_respond-Fewer r t b = ground arith

  pub abort_waiter-Fewer :
      (r : RequestRegistry) (sid : Option ℕ) (i : ℕ) → Fewer j r (abort_waiter r sid i).1
  unfolding abort_waiter
  abort_waiter-Fewer r sid i =
      Fewer-trans (mark_dropped_key-Fewer r _) (remove_waiter-Fewer (mark_dropped_key r _).1 _)

  pub abort_request_token-Fewer :
      (r : RequestRegistry) (t : RequestToken) → Fewer j r (abort_request_token r t).1
  unfolding abort_request_token
  abort_request_token-Fewer r t = elim (Option-cases (get (token_key t) r.entries)) [
    | inl n ↦ rw (n, abort_request_token) (Fewer-refl r)
    | inr (e, g) ↦
        rw (g, abort_request_token)
          (ground (
            arith,
            Fewer-refl r,
            retire_remove-Fewer r (token_key t) (record e { state = dropped }),
          ))
  ]

  drop_sessions-Fewer : (r : RequestRegistry) (sids : List ℕ) → Fewer j r (drop_sessions r sids)
  unfolding drop_sessions
  drop_sessions-Fewer r [] = Fewer-refl r
  drop_sessions-Fewer r (sid ∷ sids) =
      let rest = drop_sessions-Fewer (record r { sessions = remove sid r.sessions }) sids in
      record { waiter_ok = rest.waiter_ok; woken_ok = rest.woken_ok; channel_ok = rest.channel_ok }

  drop_keys-Fewer :
      (r : RequestRegistry) (ks : List RequestKey) (n : ℕ) → Fewer j r (drop_keys r ks n).1
  unfolding drop_keys
  drop_keys-Fewer r [] n = Fewer-refl r
  drop_keys-Fewer r (k ∷ ks) n =
      let r' = (mark_dropped_key r k).1 in
      Fewer-trans (Fewer-trans (mark_dropped_key-Fewer r k) (remove_waiter-Fewer r' k)) (
        drop_keys-Fewer (remove_waiter r' k) ks
          (if is_updated (mark_dropped_key r k).0 then n + 1 else n))

  pub abort_all-Fewer : (r : RequestRegistry) → Fewer j r (abort_all r).1
  unfolding abort_all
  abort_all-Fewer r =
      let closed = drop_sessions r (keys r.sessions) in
      Fewer-trans (drop_sessions-Fewer r (keys r.sessions))
        (drop_keys-Fewer closed (keys closed.entries) 0)

  close_key-Fewer : (r : RequestRegistry) (k : RequestKey) → Fewer j r (close_key r k).1
  unfolding close_key
  close_key-Fewer r k = ground (arith, get-remove k j r.waiters)

  close_keys-Fewer :
      (r : RequestRegistry) (ks : List RequestKey) (n : ℕ) → Fewer j r (close_keys r ks n).1
  unfolding close_keys
  close_keys-Fewer r [] n = Fewer-refl r
  close_keys-Fewer r (k ∷ ks) n =
      Fewer-trans (close_key-Fewer r k)
        (close_keys-Fewer (close_key r k).1 ks (if (close_key r k).0 then n + 1 else n))

  pub close_session_pending-Fewer :
      (r : RequestRegistry) (sid : ℕ) → Fewer j r (close_session_pending r sid).1
  unfolding close_session_pending
  close_session_pending-Fewer r sid = elim (Option-cases (get sid r.sessions)) [
    | inl n ↦ rw (n, close_session_pending) (Fewer-refl r)
    | inr (rt, g) ↦
        rw (g, close_session_pending)
          (let start = record r { sessions = remove sid r.sessions } in
            let rest = close_keys-Fewer start (keys rt.requests) 0 in ground (arith, rest))
  ]

  mark_timed_out-Fewer : (r : RequestRegistry) (k : RequestKey) → Fewer j r (mark_timed_out r k).1
  unfolding mark_timed_out remove_terminal_entry forget_request
  mark_timed_out-Fewer r k = ground (arith, get-remove k j r.waiters)

  scan_key-Fewer :
      (r : RequestRegistry) (k : RequestKey) (now later : ℕ) → Fewer j r (scan_key r k now later).1
  unfolding scan_key schedule_for_deadline
  scan_key-Fewer r k now later = ground (arith, mark_timed_out-Fewer r k)

  scan_keys-Fewer :
      (r : RequestRegistry) (ks : List RequestKey) (now : ℕ) (clock : ℕ → ℕ) (n : ℕ)
      → Fewer j r (scan_keys r ks now clock n).1
  unfolding scan_keys
  scan_keys-Fewer r [] now clock n = Fewer-refl r
  scan_keys-Fewer r (k ∷ ks) now clock n =
      let (hit, r') = scan_key r k now (clock (length ks)) in
      Fewer-trans (scan_key-Fewer r k now (clock (length ks)))
        (scan_keys-Fewer r' ks now clock (if hit then n + 1 else n))

  pub scan_timeout_bucket-Fewer :
      (r : RequestRegistry) (now : ℕ) (clock : ℕ → ℕ)
      → Fewer j r (scan_timeout_bucket r now clock).1
  unfolding scan_timeout_bucket
  scan_timeout_bucket-Fewer r now clock =
      let i = (r.current_tick + 1) % r.bucket_count in
      let taken = record r {
        current_tick = add64 r.current_tick 1;
        buckets = modify r.buckets i (λ bucket. []);
      } in
      let rest = scan_keys-Fewer taken (get_or r.buckets i []) now clock 0 in
      record { waiter_ok = rest.waiter_ok; woken_ok = rest.woken_ok; channel_ok = rest.channel_ok }

  track_request-Fewer :
      (r : RequestRegistry) (k : RequestKey) (sid : Option ℕ) → Fewer j r (track_request r k sid)
  unfolding track_request
  track_request-Fewer r k sid = ground arith

  undo_register-Fewer : (r : RequestRegistry) (k : RequestKey) → Fewer j r (undo_register r k)
  unfolding undo_register remove_terminal_entry forget_request
  undo_register-Fewer r k = ground (arith, get-remove k j r.waiters)

  admit-Fewer :
      (r : RequestRegistry) (k : RequestKey) (e : RequestEntry) (schedule : Bool) (later : ℕ)
      → Fewer j r (admit r k e schedule later).1
  unfolding admit schedule_for_deadline
  admit-Fewer r k e schedule later =
      let s = track_request (store_entry r k e) k k.session_id in
      let t = track_request-Fewer (store_entry r k e) k k.session_id in
      let u = undo_register-Fewer s k in ground (arith, t, u)

  pub register_impl-Fewer :
      (r : RequestRegistry) (k : RequestKey) (b timeout : ℕ) (schedule : Bool) (now later : ℕ)
      → Fewer j r (register_impl r k b timeout schedule now later).1
  unfolding register_impl
  register_impl-Fewer r k b timeout schedule now later =
      let counted = count_pending (record r { next_generation = add64 r.next_generation 1 }) in
      let a = admit-Fewer counted k (new_entry k b now timeout r.next_generation) schedule later in
      ground (arith, a)
