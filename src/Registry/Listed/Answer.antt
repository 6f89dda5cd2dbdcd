-- ===== src/Registry/Listed/Answer.antt =====
-- request_registry.rs: answers and single aborts keep every pending request listed.
use msgtrans.Prelude.{
  ℕ, refl, inl, inr, Option, Bool, true, false, if◌then◌else◌, Bool-cases, Option-cases, ◌==◌,
}
use msgtrans.Prelude.Map.{nat_eq, get}
use msgtrans.Packet.{Packet}
use msgtrans.Registry.{
  RequestKey, key_eq, responded, responding, RequestRegistry, state_u8, RequestToken, token_key,
  count_duplicate, count_send_failed, MarkResult, updated, already, not_found,
}
use msgtrans.Registry.Register.{outbound_key}
use msgtrans.Registry.Respond.{
  is_state, mark_responded_key, wake, complete_waiter, begin_respond, finish_respond,
}
use msgtrans.Registry.Abort.{mark_dropped_key, abort_request_token}
use msgtrans.Registry.Listed.{Covers, retire-Covers, claim-Covers}

abbrev pub Covered : RequestRegistry → Type 0
Covered r = Covers r.entries r.sessions

pub mark_dropped_key-Covered :
    (r : RequestRegistry) (k : RequestKey) → Covered r → Covered (mark_dropped_key r k).1
unfolding mark_dropped_key
mark_dropped_key-Covered r k s = elim (Option-cases (get k r.entries)) [
  | inl n ↦ rw (n, mark_dropped_key) s
  | inr (e, g) ↦
      rw (g, mark_dropped_key)
        (elim (Bool-cases (state_u8 e.state == 0)) [
          | inl t ↦ rw t (retire-Covers r k _ s)
          | inr f ↦ rw f s
        ])
]

maybe_duplicate-Covered :
    (b : Bool) (r : RequestRegistry) → Covered r → Covered (if b then count_duplicate r else r)
maybe_duplicate-Covered true r s = s
maybe_duplicate-Covered false r s = s

mark_responded_key-Covered :
    (r : RequestRegistry) (k : RequestKey) → Covered r → Covered (mark_responded_key r k).1
unfolding mark_responded_key
mark_responded_key-Covered r k s = elim (Option-cases (get k r.entries)) [
  | inl n ↦ rw (n, mark_responded_key) s
  | inr (e, g) ↦
      rw (g, mark_responded_key)
        (elim (Bool-cases (state_u8 e.state == 0)) [
          | inl t ↦ rw t (retire-Covers r k _ s)
          | inr f ↦ rw f (maybe_duplicate-Covered (is_state e.state responded) r s)
        ])
]

wake-Covered :
    (r : RequestRegistry) (k : RequestKey) (p : Packet) → Covered r → Covered (wake r k p)
unfolding wake
wake-Covered r k p s = elim (Option-cases (get k r.waiters)) [
  | inl n ↦ rw (n, wake) s
  | inr (c, g) ↦ rw (g, wake) s
]

pub complete_waiter-Covered :
    (r : RequestRegistry) (sid : Option ℕ) (i : ℕ) (p : Packet)
    → Covered r
    → Covered (complete_waiter r sid i p).1
unfolding complete_waiter
complete_waiter-Covered r sid i p s =
    answered (mark_responded_key r (outbound_key sid i)) (mark_responded_key-Covered r _ s)
  where
    answered :
        (m : MarkResult × RequestRegistry)
        → Covered m.1
        → Covered
            (elim m.0 as (λ _. Bool × RequestRegistry) [
              | updated ↦ (true, wake m.1 (outbound_key sid i) p)
              | already x ↦ (false, m.1)
              | not_found ↦ (false, m.1)
            ]).1
    answered (updated, r') s' = wake-Covered r' (outbound_key sid i) p s'
    answered (already x, r') s' = s'
    answered (not_found, r') s' = s'

pub begin_respond-Covered :
    (r : RequestRegistry) (token : RequestToken) → Covered r → Covered (begin_respond r token).1
unfolding begin_respond
begin_respond-Covered r token s = elim (Option-cases (get (token_key token) r.entries)) [
  | inl n ↦ rw (n, begin_respond) s
  | inr (e, g) ↦
      rw (g, begin_respond)
        (elim (Bool-cases (e.generation == token.generation)) [
          | inr other ↦ rw other s
          | inl same ↦ rw same (elim (Bool-cases (state_u8 e.state == 0)) [
            | inl t ↦
                rw t (claim-Covers r (token_key token) (record e { state = responding }) s refl)
            | inr f ↦ rw f (maybe_duplicate-Covered _ r s)
          ])
        ])
]

sent-Covered :
    (b : Bool) (r : RequestRegistry) → Covered r → Covered (if b then r else count_send_failed r)
sent-Covered true r s = s
sent-Covered false r s = s

pub finish_respond-Covered :
    (r : RequestRegistry) (token : RequestToken) (b : Bool)
    → Covered r
    → Covered (finish_respond r token b).1
unfolding finish_respond
finish_respond-Covered r token b s = elim (Option-cases (get (token_key token) r.entries)) [
  | inl n ↦ rw (n, finish_respond) s
  | inr (e, g) ↦
      rw (g, finish_respond)
        (elim (Bool-cases (e.generation == token.generation)) [
          | inr other ↦ rw other s
          | inl same ↦ rw same (elim (Bool-cases (state_u8 e.state == 5)) [
            | inl t ↦ rw t (
                retire-Covers (if b then r else count_send_failed r) (token_key token) _
                  (sent-Covered b r s))
            | inr f ↦ rw f s
          ])
        ])
]

pub abort_request_token-Covered :
    (r : RequestRegistry) (token : RequestToken)
    → Covered r
    → Covered (abort_request_token r token).1
unfolding abort_request_token
abort_request_token-Covered r token s = elim (Option-cases (get (token_key token) r.entries)) [
  | inl n ↦ rw (n, abort_request_token) s
  | inr (e, g) ↦
      rw (g, abort_request_token)
        (elim (Bool-cases (e.generation == token.generation)) [
          | inr other ↦ rw other s
          | inl same ↦ rw same (elim (Bool-cases (state_u8 e.state == 0)) [
            | inl t ↦ rw t (retire-Covers r (token_key token) _ s)
            | inr f ↦ rw f s
          ])
        ])
]
