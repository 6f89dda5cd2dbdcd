-- ===== src/Registry/Abort.antt =====
-- request_registry.rs: requests that are given up.
use msgtrans.Prelude.{
  ℕ, ◌+◌, List, [], ◌∷◌, Option, none, some, ok, err, Bool, true, false, not, ◌==◌, if◌then◌else◌,
}
use msgtrans.Prelude.Map.{nat_eq, get, remove, keys}
use msgtrans.Registry.{
  RequestKey, key_eq, pending, dropped, try_transition, MarkResult, updated, already, not_found,
  RequestToken, token_key, RequestRegistry, remove_waiter, retire,
}
use msgtrans.Registry.Register.{outbound_key}

unfoldable pub mark_dropped_key : RequestRegistry → RequestKey → MarkResult × RequestRegistry
mark_dropped_key r k = elim (get k r.entries) [
  | none ↦ (not_found, r)
  | some e ↦ elim (try_transition e pending dropped) [
    | ok e' ↦ (updated, retire r k e')
    | err s ↦ (already s, r)
  ]
]

abbrev pub is_updated : MarkResult → Bool
is_updated updated = true
is_updated _ = false

unfoldable pub abort_waiter : RequestRegistry → Option ℕ → ℕ → Bool × RequestRegistry
abort_waiter r session_id request_id =
    let k = outbound_key session_id request_id in
    let (marked, r') = mark_dropped_key r k in (is_updated marked, remove_waiter r' k)

-- The guards of requests and responders are dropped through this one.
unfoldable pub abort_request_token : RequestRegistry → RequestToken → Bool × RequestRegistry
abort_request_token r token = elim (get (token_key token) r.entries) [
  | none ↦ (false, r)
  | some e ↦
      if not (e.generation == token.generation)
      then (false, r)
      else elim (try_transition e pending dropped) [
        | ok e' ↦ (true, remove_waiter (retire r (token_key token) e') (token_key token))
        | err s ↦ (false, r)
      ]
]

-- The sessions are closed first, so that no registration comes after.
unfoldable pub drop_sessions : RequestRegistry → List ℕ → RequestRegistry
drop_sessions r [] = r
drop_sessions r (sid ∷ sids) = drop_sessions (record r { sessions = remove sid r.sessions }) sids

unfoldable pub drop_keys : RequestRegistry → List RequestKey → ℕ → ℕ × RequestRegistry
drop_keys r [] aborted = (aborted, r)
drop_keys r (k ∷ ks) aborted =
    let (marked, r') = mark_dropped_key r k in
    drop_keys (remove_waiter r' k) ks (if is_updated marked then aborted + 1 else aborted)

unfoldable pub abort_all : RequestRegistry → ℕ × RequestRegistry
unfolding drop_sessions drop_keys
abort_all r =
    let closed = drop_sessions r (keys r.sessions) in drop_keys closed (keys closed.entries) 0
