-- ===== src/Registry/Gauge/Teardown.antt =====
-- request_registry.rs: closing a session, aborting all and the scan keep the table sound.
use msgtrans.Prelude.{
  ℕ, ◌+◌, ◌%◌, inl, inr, List, [], ◌∷◌, Bool, true, false, length, leb, ltb, get_or, if◌then◌else◌,
  Bool-cases, Option-cases, ◌==◌,
}
use msgtrans.Prelude.Map.{nat_eq, keys, get, remove}
use msgtrans.Registry.{
  RequestKey, key_eq, pending, RequestRegistry, add64, state_u8, remove_waiter, count_timeout,
}
use msgtrans.Registry.Invariant.{Inv, Sound-remove, retire-Inv}
use msgtrans.Registry.Register.{modify, schedule_for_deadline}
use msgtrans.Registry.Respond.{is_state}
use msgtrans.Registry.Abort.{is_updated, mark_dropped_key, drop_sessions, drop_keys, abort_all}
use msgtrans.Registry.Close.{count_closed, dies, close_key, close_keys, close_session_pending}
use msgtrans.Registry.Wheel.{mark_timed_out, scan_key, scan_keys, scan_timeout_bucket}
use msgtrans.Registry.Gauge.Answer.{mark_dropped_key-Inv}

pub drop_sessions-Inv : (r : RequestRegistry) (sids : List ℕ) → Inv r → Inv (drop_sessions r sids)
unfolding drop_sessions
drop_sessions-Inv r [] s = s
drop_sessions-Inv r (sid ∷ sids) s =
    drop_sessions-Inv (record r { sessions = remove sid r.sessions }) sids s

pub drop_keys-Inv :
    (r : RequestRegistry) (ks : List RequestKey) (n : ℕ) → Inv r → Inv (drop_keys r ks n).1
unfolding drop_keys
drop_keys-Inv r [] n s = s
drop_keys-Inv r (k ∷ ks) n s =
    drop_keys-Inv (remove_waiter (mark_dropped_key r k).1 k) ks
      (if is_updated (mark_dropped_key r k).0 then n + 1 else n) (mark_dropped_key-Inv r k s)

pub abort_all-Inv : (r : RequestRegistry) → Inv r → Inv (abort_all r).1
unfolding abort_all
abort_all-Inv r s =
    let closed = drop_sessions r (keys r.sessions) in
    drop_keys-Inv closed (keys closed.entries) 0 (drop_sessions-Inv r (keys r.sessions) s)

pub close_key-Inv : (r : RequestRegistry) (k : RequestKey) → Inv r → Inv (close_key r k).1
unfolding close_key
close_key-Inv r k s = elim (Option-cases (get k r.entries)) [
  | inl n ↦ rw (n, close_key) s
  | inr (e, g) ↦
      rw (g, close_key)
        (elim (Bool-cases (dies e)) [
          | inl t ↦ rw t (Sound-remove k e r.entries _ s g)
          | inr f ↦ rw f s
        ])
]

pub close_keys-Inv :
    (r : RequestRegistry) (ks : List RequestKey) (n : ℕ) → Inv r → Inv (close_keys r ks n).1
unfolding close_keys
close_keys-Inv r [] n s = s
close_keys-Inv r (k ∷ ks) n s =
    close_keys-Inv (close_key r k).1 ks (if (close_key r k).0 then n + 1 else n)
      (close_key-Inv r k s)

pub count_closed-Inv :
    (b : Bool) (r : RequestRegistry) (n : ℕ) → Inv r → Inv (if b then count_closed r n else r)
count_closed-Inv true r n s = s
count_closed-Inv false r n s = s

pub close_session_pending-Inv :
    (r : RequestRegistry) (sid : ℕ) → Inv r → Inv (close_session_pending r sid).1
unfolding close_session_pending
close_session_pending-Inv r sid s = elim (Option-cases (get sid r.sessions)) [
  | inl n ↦ rw (n, close_session_pending) s
  | inr (rt, g) ↦
      rw (g, close_session_pending)
        (let start = record r { sessions = remove sid r.sessions } in
          let (closed, r') = close_keys start (keys rt.requests) 0 in
          count_closed-Inv (ltb 0 closed) r' closed (close_keys-Inv start (keys rt.requests) 0 s))
]

pub mark_timed_out-Inv : (r : RequestRegistry) (k : RequestKey) → Inv r → Inv (mark_timed_out r k).1
unfolding mark_timed_out
mark_timed_out-Inv r k s = elim (Option-cases (get k r.entries)) [
  | inl n ↦ rw (n, mark_timed_out) s
  | inr (e, g) ↦
      rw (g, mark_timed_out)
        (elim (Bool-cases (state_u8 e.state == 0)) [
          | inl t ↦ rw t (retire-Inv (count_timeout r) k e _ s g)
          | inr f ↦ rw f s
        ])
]

pub scan_key-Inv :
    (r : RequestRegistry) (k : RequestKey) (now later : ℕ) → Inv r → Inv (scan_key r k now later).1
unfolding scan_key schedule_for_deadline
scan_key-Inv r k now later s = elim (Option-cases (get k r.entries)) [
  | inl n ↦ rw (n, scan_key) s
  | inr (e, g) ↦
      rw (g, scan_key)
        (elim (Bool-cases (is_state e.state pending)) [
          | inr f ↦ rw f s
          | inl t ↦ rw t (elim (Bool-cases (leb e.deadline_at now)) [
            | inl due ↦ rw due (mark_timed_out-Inv r k s)
            | inr early ↦ rw early s
          ])
        ])
]

pub scan_keys-Inv :
    (r : RequestRegistry) (ks : List RequestKey) (now : ℕ) (clock : ℕ → ℕ) (n : ℕ)
    → Inv r
    → Inv (scan_keys r ks now clock n).1
unfolding scan_keys
scan_keys-Inv r [] now clock n s = s
scan_keys-Inv r (k ∷ ks) now clock n s =
    let (hit, r') = scan_key r k now (clock (length ks)) in
    scan_keys-Inv r' ks now clock (if hit then n + 1 else n)
      (scan_key-Inv r k now (clock (length ks)) s)

pub scan_timeout_bucket-Inv :
    (r : RequestRegistry) (now : ℕ) (clock : ℕ → ℕ)
    → Inv r
    → Inv (scan_timeout_bucket r now clock).1
unfolding scan_timeout_bucket
scan_timeout_bucket-Inv r now clock s =
    let i = (r.current_tick + 1) % r.bucket_count in
    let taken = record r {
      current_tick = add64 r.current_tick 1;
      buckets = modify r.buckets i (λ bucket. []);
    } in
    scan_keys-Inv taken (get_or r.buckets i []) now clock 0 s
