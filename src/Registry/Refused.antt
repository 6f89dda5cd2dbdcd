-- ===== src/Registry/Refused.antt =====
-- request_registry.rs: what a closed session is refused, whatever comes after its close.
use msgtrans.Prelude.{
  ℕ, ◌≡◌, refl, ◌∙◌, List, none, some, Bool, true, false, if◌then◌else◌, ap, ==_iff, All,
}
use msgtrans.Prelude.Map.{has, nat_eq, get, remove, keys, get-remove}
use msgtrans.Registry.{SessionRuntime, RequestRegistry, RequestKey, key_eq, inbound}
use msgtrans.Registry.Invariant.{Inv}
use msgtrans.Registry.Register.{
  next_request_id, resolve_runtime, register_impl, register, outbound_key, try_register_waiter,
  add_waiter,
}
use msgtrans.Registry.Close.{close_session_pending}
use msgtrans.Registry.Closing.{close_keys-entries, unless-dies, close_session_pending_open}
use msgtrans.Registry.Step.{Call, run}
use msgtrans.Registry.Shut.{spares, run-IsShut}

-- Without its session, nothing is admitted.
next_request_id_refused :
    (r : RequestRegistry) (sid : ℕ)
    → get sid r.sessions ≡ none
    → next_request_id r (some sid) ≡ (none, r)
unfolding next_request_id
next_request_id_refused r sid h = rw (h, next_request_id) refl

register_impl_refused :
    (r : RequestRegistry) (k : RequestKey) (biz_type timeout : ℕ) (schedule : Bool)
    (now later sid : ℕ)
    → k.session_id ≡ some sid
    → get sid r.sessions ≡ none
    → register_impl r k biz_type timeout schedule now later ≡ (none, r)
unfolding register_impl resolve_runtime
register_impl_refused r k biz_type timeout schedule now later sid s h =
    rw (s, register_impl) (rw (resolve_runtime, h) refl)

register_refused :
    (r : RequestRegistry) (i sid biz_type timeout now later : ℕ)
    → get sid r.sessions ≡ none
    → (register r i (some sid) biz_type timeout now later ≡ (none, r))
      × (try_register_waiter r i (some sid) biz_type timeout now ≡ (none, r))
unfolding register try_register_waiter add_waiter
register_refused r i sid biz_type timeout now later h =
    let k : RequestKey = record { session_id = some sid; request_id = i; direction = inbound } in
    let m =
      register_impl_refused r (outbound_key (some sid) i) biz_type timeout false now now sid refl
        h in
    (
      register_impl_refused r k biz_type timeout true now later sid refl h,
      rw (m, try_register_waiter) refl,
    )

-- Closing an open session of a sound registry removes every request that the session lists, pending
-- or being answered, and no other. The session is gone, and stays gone over any further calls that do
-- not open it again: after them it is given no id, and it can register neither an inbound nor an
-- outbound request.
pub close_session_pending-entries :
    (r : RequestRegistry) (sid : ℕ) (rt : SessionRuntime) (j : RequestKey)
    (i biz_type timeout now later : ℕ) (calls : List Call)
    → Inv r
    → get sid r.sessions ≡ some rt
    → All (λ c. spares sid c ≡ true) calls
    → let r' = (close_session_pending r sid).1 in
      let after = run r' calls in
      (get j r'.entries ≡ (if has (keys rt.requests) j then none else get j r.entries))
      × (get sid r'.sessions ≡ none)
      × (get sid after.sessions ≡ none)
      × (next_request_id after (some sid) ≡ (none, after))
      × (register after i (some sid) biz_type timeout now later ≡ (none, after))
      × (try_register_waiter after i (some sid) biz_type timeout now ≡ (none, after))
close_session_pending-entries r sid rt j i biz_type timeout now later calls s g spared =
    let (es, ss) = close_session_pending_open r sid rt g in
    let start = record r { sessions = remove sid r.sessions } in
    let r' = (close_session_pending r sid).1 in
    let gone : get sid r'.sessions ≡ none =
      ap (get sid) ss ∙ get-remove sid sid r.sessions ∙ rw ((==_iff sid sid).1 refl) refl in
    let still = run-IsShut sid r' calls spared gone in
    let (reg, wait) = register_refused (run r' calls) i sid biz_type timeout now later still in
    (
      ap (get j) es
          ∙ close_keys-entries start (keys rt.requests) j 0
          ∙ ap (λ o. if has (keys rt.requests) j then o else get j r.entries) (unless-dies r j s),
      gone,
      still,
      next_request_id_refused (run r' calls) sid still,
      reg,
      wait,
    )
