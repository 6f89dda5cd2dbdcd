-- ===== src/Registry/Gauge/Answer.antt =====
-- request_registry.rs: answers, timeouts of one key and single aborts keep the table sound.
use msgtrans.Prelude.{
  ℕ, ◌≡◌, refl, inl, inr, Option, some, Bool, true, false, if◌then◌else◌, Bool-cases, Option-cases,
  ◌==◌,
}
use msgtrans.Prelude.Map.{nat_eq, get, Every-get}
use msgtrans.Packet.{Packet}
use msgtrans.Registry.{
  RequestKey, key_eq, RequestEntry, responded, RequestRegistry, state_u8, RequestToken, token_key,
  count_duplicate, count_send_failed, MarkResult, updated, already, not_found,
}
use msgtrans.Registry.Invariant.{IsLive, Inv, Sound-update, retire-Inv}
use msgtrans.Registry.Register.{open_session, outbound_key}
use msgtrans.Registry.Respond.{
  is_state, mark_responded_key, wake, complete_waiter, begin_respond, finish_respond,
}
use msgtrans.Registry.Abort.{mark_dropped_key, abort_waiter, abort_request_token}

pub open_session-Inv : (r : RequestRegistry) (sid : ℕ) → Inv r → Inv (open_session r sid)
unfolding open_session
open_session-Inv r sid s = elim (Option-cases (get sid r.sessions)) [
  | inl e ↦ rw (e, open_session) s
  | inr (rt, e) ↦ rw (e, open_session) s
]

pub mark_dropped_key-Inv :
    (r : RequestRegistry) (k : RequestKey) → Inv r → Inv (mark_dropped_key r k).1
unfolding mark_dropped_key
mark_dropped_key-Inv r k s = elim (Option-cases (get k r.entries)) [
  | inl n ↦ rw (n, mark_dropped_key) s
  | inr (e, g) ↦
      rw (g, mark_dropped_key)
        (elim (Bool-cases (state_u8 e.state == 0)) [
          | inl t ↦ rw t (retire-Inv r k e _ s g)
          | inr f ↦ rw f s
        ])
]

pub maybe_duplicate-Inv :
    (b : Bool) (r : RequestRegistry) → Inv r → Inv (if b then count_duplicate r else r)
maybe_duplicate-Inv true r s = s
maybe_duplicate-Inv false r s = s

pub mark_responded_key-Inv :
    (r : RequestRegistry) (k : RequestKey) → Inv r → Inv (mark_responded_key r k).1
unfolding mark_responded_key
mark_responded_key-Inv r k s = elim (Option-cases (get k r.entries)) [
  | inl n ↦ rw (n, mark_responded_key) s
  | inr (e, g) ↦
      rw (g, mark_responded_key)
        (elim (Bool-cases (state_u8 e.state == 0)) [
          | inl t ↦ rw t (retire-Inv r k e _ s g)
          | inr f ↦ rw f (maybe_duplicate-Inv (is_state e.state responded) r s)
        ])
]

pub wake-Inv : (r : RequestRegistry) (k : RequestKey) (p : Packet) → Inv r → Inv (wake r k p)
unfolding wake
wake-Inv r k p s = elim (Option-cases (get k r.waiters)) [
  | inl n ↦ rw (n, wake) s
  | inr (c, g) ↦ rw (g, wake) s
]

pub complete_waiter-Inv :
    (r : RequestRegistry) (sid : Option ℕ) (i : ℕ) (p : Packet)
    → Inv r
    → Inv (complete_waiter r sid i p).1
unfolding complete_waiter
complete_waiter-Inv r sid i p s =
    answered (mark_responded_key r (outbound_key sid i)) (mark_responded_key-Inv r _ s)
  where
    answered :
        (m : MarkResult × RequestRegistry)
        → Inv m.1
        → Inv
            (elim m.0 as (λ _. Bool × RequestRegistry) [
              | updated ↦ (true, wake m.1 (outbound_key sid i) p)
              | already x ↦ (false, m.1)
              | not_found ↦ (false, m.1)
            ]).1
    answered (updated, r') s' = wake-Inv r' (outbound_key sid i) p s'
    answered (already x, r') s' = s'
    answered (not_found, r') s' = s'

pub begin_respond-Inv :
    (r : RequestRegistry) (token : RequestToken) → Inv r → Inv (begin_respond r token).1
unfolding begin_respond
begin_respond-Inv r token s = elim (Option-cases (get (token_key token) r.entries)) [
  | inl n ↦ rw (n, begin_respond) s
  | inr (e, g) ↦
      rw (g, begin_respond)
        (elim (Bool-cases (e.generation == token.generation)) [
          | inr other ↦ rw other s
          | inl same ↦ rw same (elim (Bool-cases (state_u8 e.state == 0)) [
            | inl t ↦ rw t (
                Sound-update _ e _ r.entries _ s g
                  ((Every-get IsLive _ e r.entries s.live g).0, inr refl))
            | inr f ↦ rw f (maybe_duplicate-Inv _ r s)
          ])
        ])
]

pub sent-Inv : (b : Bool) (r : RequestRegistry) → Inv r → Inv (if b then r else count_send_failed r)
sent-Inv true r s = s
sent-Inv false r s = s

sent-get :
    (b : Bool) (r : RequestRegistry) (k : RequestKey) (e : RequestEntry)
    → get k r.entries ≡ some e
    → get k (if b then r else count_send_failed r).entries ≡ some e
sent-get true r k e g = g
sent-get false r k e g = g

pub finish_respond-Inv :
    (r : RequestRegistry) (token : RequestToken) (b : Bool)
    → Inv r
    → Inv (finish_respond r token b).1
unfolding finish_respond
finish_respond-Inv r token b s = elim (Option-cases (get (token_key token) r.entries)) [
  | inl n ↦ rw (n, finish_respond) s
  | inr (e, g) ↦
      rw (g, finish_respond)
        (elim (Bool-cases (e.generation == token.generation)) [
          | inr other ↦ rw other s
          | inl same ↦ rw same (elim (Bool-cases (state_u8 e.state == 5)) [
            | inl t ↦ rw t (
                retire-Inv (if b then r else count_send_failed r) (token_key token) e _
                  (sent-Inv b r s) (sent-get b r (token_key token) e g))
            | inr f ↦ rw f s
          ])
        ])
]

pub abort_waiter-Inv :
    (r : RequestRegistry) (sid : Option ℕ) (i : ℕ) → Inv r → Inv (abort_waiter r sid i).1
unfolding abort_waiter
abort_waiter-Inv r sid i s = mark_dropped_key-Inv r (outbound_key sid i) s

pub abort_request_token-Inv :
    (r : RequestRegistry) (token : RequestToken) → Inv r → Inv (abort_request_token r token).1
unfolding abort_request_token
abort_request_token-Inv r token s = elim (Option-cases (get (token_key token) r.entries)) [
  | inl n ↦ rw (n, abort_request_token) s
  | inr (e, g) ↦
      rw (g, abort_request_token)
        (elim (Bool-cases (e.generation == token.generation)) [
          | inr other ↦ rw other s
          | inl same ↦ rw same (elim (Bool-cases (state_u8 e.state == 0)) [
            | inl t ↦ rw t (retire-Inv r (token_key token) e _ s g)
            | inr f ↦ rw f s
          ])
        ])
]
