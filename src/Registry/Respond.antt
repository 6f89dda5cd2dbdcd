-- ===== src/Registry/Respond.antt =====
-- request_registry.rs: the answers to a request, inbound (`begin_respond`, `finish_respond`) and
-- outbound (`complete_waiter`).
use msgtrans.Prelude.{
  ℕ, ◌∷◌, Option, none, some, ok, err, Bool, true, false, not, ◌==◌, ◌||◌, if◌then◌else◌,
}
use msgtrans.Prelude.Map.{nat_eq, get, remove}
use msgtrans.Packet.{Packet}
use msgtrans.Registry.{
  RequestKey, key_eq, RequestState, pending, responded, responding, send_failed, state_u8,
  try_transition, MarkResult, updated, already, not_found, RequestToken, token_key, RequestRegistry,
  count_duplicate, count_send_failed, remove_waiter, retire, store_entry,
}
use msgtrans.Registry.Register.{outbound_key}

-- The state byte is that of `s`.
abbrev pub is_state : RequestState → RequestState → Bool
is_state s t = state_u8 s == state_u8 t

unfoldable pub mark_responded_key : RequestRegistry → RequestKey → MarkResult × RequestRegistry
mark_responded_key r k = elim (get k r.entries) [
  | none ↦ (not_found, count_duplicate r)
  | some e ↦ elim (try_transition e pending responded) [
    | ok e' ↦ (updated, retire r k e')
    | err s ↦ (already s, if is_state s responded then count_duplicate r else r)
  ]
]

-- The waiter's channel takes the packet; a registration without a waiter just ends.
unfoldable pub wake : RequestRegistry → RequestKey → Packet → RequestRegistry
wake r k packet = elim (get k r.waiters) [
  | none ↦ remove_waiter r k
  | some channel ↦ record r { waiters = remove k r.waiters; woken = (channel, packet) ∷ r.woken }
]

unfoldable pub complete_waiter : RequestRegistry → Option ℕ → ℕ → Packet → Bool × RequestRegistry
complete_waiter r session_id request_id packet =
    let k = outbound_key session_id request_id in
    let (marked, r') = mark_responded_key r k in
    elim marked [
      | updated ↦ (true, wake r' k packet)
      | already s ↦ (false, r')
      | not_found ↦ (false, r')
    ]

unfoldable pub begin_respond : RequestRegistry → RequestToken → MarkResult × RequestRegistry
begin_respond r token = elim (get (token_key token) r.entries) [
  | none ↦ (not_found, count_duplicate r)
  | some e ↦
      if not (e.generation == token.generation)
      then (not_found, count_duplicate r)
      else elim (try_transition e pending responding) [
        | ok e' ↦ (updated, store_entry r (token_key token) e')
        | err s ↦ (
          already s,
          if is_state s responded || is_state s responding then count_duplicate r else r,
        )
      ]
]

unfoldable pub finish_respond : RequestRegistry → RequestToken → Bool → MarkResult × RequestRegistry
finish_respond r token write_confirmed = elim (get (token_key token) r.entries) [
  | none ↦ (not_found, r)
  | some e ↦
      if not (e.generation == token.generation)
      then (not_found, r)
      else elim (try_transition e responding (if write_confirmed then responded else send_failed)) [
        | ok e' ↦ (
          updated,
          retire (if write_confirmed then r else count_send_failed r) (token_key token) e',
        )
        | err s ↦ (already s, r)
      ]
]

-- A claim on a response: resolving it reports the write, dropping it unresolved reports a failure.
unfoldable pub resolve_claim : RequestRegistry → RequestToken → Bool → RequestRegistry
resolve_claim r token write_confirmed = (finish_respond r token write_confirmed).1

unfoldable pub drop_claim : RequestRegistry → RequestToken → Bool → RequestRegistry
drop_claim r token resolved = if not resolved then (finish_respond r token false).1 else r
