-- ===== src/Registry/Wheel.antt =====
-- request_registry.rs, the timeout wheel: `mark_timed_out` and `scan_timeout_bucket`.
use msgtrans.Prelude.{
  ℕ, ◌+◌, ◌%◌, List, [], ◌∷◌, none, some, ok, err, Bool, false, not, leb, if◌then◌else◌, length,
  get_or,
}
use msgtrans.Prelude.Map.{nat_eq, get}
use msgtrans.Registry.{
  RequestKey, key_eq, pending, timed_out, try_transition, MarkResult, updated, already, not_found,
  RequestRegistry, add64, count_timeout, remove_waiter, retire,
}
use msgtrans.Registry.Register.{modify, schedule_for_deadline}
use msgtrans.Registry.Respond.{is_state}
use msgtrans.Registry.Abort.{is_updated}

unfoldable pub mark_timed_out : RequestRegistry → RequestKey → MarkResult × RequestRegistry
mark_timed_out r k = elim (get k r.entries) [
  | none ↦ (not_found, r)
  | some e ↦ elim (try_transition e pending timed_out) [
    | ok e' ↦ (updated, remove_waiter (retire (count_timeout r) k e') k)
    | err s ↦ (already s, r)
  ]
]

-- One drained key at the time `now`: timed out, scheduled again by a later reading of the clock, or
-- skipped.
unfoldable pub scan_key : RequestRegistry → RequestKey → ℕ → ℕ → Bool × RequestRegistry
scan_key r k now later = elim (get k r.entries) [
  | none ↦ (false, r)
  | some e ↦
      if not (is_state e.state pending)
      then (false, r)
      else (if leb e.deadline_at now
          then (let (marked, r') = mark_timed_out r k in (is_updated marked, r'))
          else (false, schedule_for_deadline r k e.deadline_at later))
]

-- `clock n` is the reading with `n` keys still to come.
unfoldable pub scan_keys : RequestRegistry → List RequestKey → ℕ → (ℕ → ℕ) → ℕ → ℕ × RequestRegistry
scan_keys r [] now clock count = (count, r)
scan_keys r (k ∷ ks) now clock count =
    let (hit, r') = scan_key r k now (clock (length ks)) in
    scan_keys r' ks now clock (if hit then count + 1 else count)

unfoldable pub scan_timeout_bucket : RequestRegistry → ℕ → (ℕ → ℕ) → ℕ × RequestRegistry
unfolding scan_keys
scan_timeout_bucket r now clock =
    let next_tick = r.current_tick + 1 in
    let i = next_tick % r.bucket_count in
    let drained = get_or r.buckets i [] in
    let taken = record r {
      current_tick = add64 r.current_tick 1;
      buckets = modify r.buckets i (λ bucket. []);
    } in
    scan_keys taken drained now clock 0
