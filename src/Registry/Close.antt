-- ===== src/Registry/Close.antt =====
-- request_registry.rs, `close_session_pending`.
use msgtrans.Prelude.{
  ℕ, ◌+◌, List, [], ◌∷◌, none, some, ok, err, Bool, true, false, ltb, if◌then◌else◌,
}
use msgtrans.Prelude.Map.{nat_eq, get, remove, keys}
use msgtrans.Registry.{
  RequestKey, key_eq, RequestEntry, pending, responding, session_closed, try_transition,
  RequestRegistry, add64, uncount_pending, remove_waiter,
}

-- Pending and responding entries die with their session.
unfoldable pub dies : RequestEntry → Bool
dies e = elim (try_transition e pending session_closed) [
  | ok e' ↦ true
  | err s ↦ elim (try_transition e responding session_closed) [ ok e' ↦ true | err s' ↦ false ]
]

unfoldable pub close_key : RequestRegistry → RequestKey → Bool × RequestRegistry
close_key r k = elim (get k r.entries) [
  | none ↦ (false, r)
  | some e ↦
      if dies e
      then (true, remove_waiter (record (uncount_pending r) { entries = remove k r.entries }) k)
      else (false, r)
]

unfoldable pub close_keys : RequestRegistry → List RequestKey → ℕ → ℕ × RequestRegistry
close_keys r [] closed = (closed, r)
close_keys r (k ∷ ks) closed =
    let (died, r') = close_key r k in close_keys r' ks (if died then closed + 1 else closed)

abbrev pub count_closed : RequestRegistry → ℕ → RequestRegistry
count_closed r n = record r {
  counters = record (r.counters) {
    session_closed_pending_total = add64 (r.counters).session_closed_pending_total n;
  };
}

-- The runtime leaves the map first; its set of requests, emptied at the end, goes with it.
unfoldable pub close_session_pending : RequestRegistry → ℕ → ℕ × RequestRegistry
unfolding close_keys
close_session_pending r sid = elim (get sid r.sessions) [
  | none ↦ (0, r)
  | some runtime ↦
      let (closed, r') =
        close_keys (record r { sessions = remove sid r.sessions }) (keys runtime.requests) 0 in
      (closed, if ltb 0 closed then count_closed r' closed else r')
]
