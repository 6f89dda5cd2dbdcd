-- ===== src/Registry/Orphans.antt =====
-- request_registry.rs: no pending request outlives its session.
use msgtrans.Prelude.{
  ℕ, ◌≡◌, refl, sym, ap, ◌∙◌, subst, List, [], ◌∷◌, Option, none, some, Bool, true, false, not,
  ◌&&◌,
}
use msgtrans.Prelude.Map.{nat_eq, get, is_some}
use msgtrans.Registry.{
  RequestKey, key_eq, RequestEntry, RequestRegistry, SessionRuntime, pending, responding, inbound,
  new_with_timing,
}
use msgtrans.Registry.Register.{register, next_oneway_id}
use msgtrans.Registry.Abort.{abort_waiter}
use msgtrans.Registry.Respond.{is_state}
use msgtrans.Registry.Register.{outbound_key}
use msgtrans.Registry.Step.{
  Call, step, run, opens, allocates_oneway, allocates, registers, registers_waiter, completes,
  begins, finishes, aborts, aborts_token, aborts_all, closes, scans, records_send_failed,
}
use msgtrans.Registry.Invariant.{Inv}
use msgtrans.Registry.Gauge.{step-Inv, new_with_timing-Inv}
use msgtrans.Registry.Listed.{covered, listed_in, lists}
use msgtrans.Registry.Listed.Answer.{
  Covered, complete_waiter-Covered, begin_respond-Covered, finish_respond-Covered,
  mark_dropped_key-Covered, abort_request_token-Covered,
}
use msgtrans.Registry.Listed.Admit.{
  open_session-Covered, next_request_id-Covered, register_impl-Covered, try_register_waiter-Covered,
}
use msgtrans.Registry.Listed.Teardown.{
  scan_timeout_bucket-Covered, close_session_pending-Covered, abort_all-Covered,
}

pub step-Covered : (r : RequestRegistry) (c : Call) → Inv r → Covered r → Covered (step r c)
unfolding step register next_oneway_id abort_waiter
step-Covered r (opens sid) i s = open_session-Covered r sid s
step-Covered r allocates_oneway i s = s
step-Covered r (allocates sid) i s = next_request_id-Covered r sid s
step-Covered r (registers n sid b t now later) i s =
    register_impl-Covered r (record { session_id = sid; request_id = n; direction = inbound }) b t
      true now later s
step-Covered r (registers_waiter n sid b t now) i s = try_register_waiter-Covered r n sid b t now s
step-Covered r (completes sid n p) i s = complete_waiter-Covered r sid n p s
step-Covered r (begins token) i s = begin_respond-Covered r token s
step-Covered r (finishes token b) i s = finish_respond-Covered r token b s
step-Covered r (aborts sid n) i s = mark_dropped_key-Covered r (outbound_key sid n) s
step-Covered r (aborts_token token) i s = abort_request_token-Covered r token s
step-Covered r aborts_all i s = abort_all-Covered r i
step-Covered r (closes sid) i s = close_session_pending-Covered r sid i s
step-Covered r (scans now clock) i s = scan_timeout_bucket-Covered r now clock s
step-Covered r records_send_failed i s = s

run-Covered : (r : RequestRegistry) (cs : List Call) → Inv r → Covered r → Covered (run r cs)
unfolding run
run-Covered r [] i s = s
run-Covered r (c ∷ cs) i s = run-Covered (step r c) cs (step-Inv r c i) (step-Covered r c i s)

new_with_timing-Covered : (bucket_count tick : ℕ) → Covered (new_with_timing bucket_count tick)
unfolding new_with_timing get
new_with_timing-Covered bucket_count tick j = refl

lists_open :
    (j : RequestKey) (o : Option SessionRuntime)
    → lists j o ≡ true
    → (rt : SessionRuntime) × (o ≡ some rt) × (rt.closing ≡ false) × (get j rt.requests ≡ some tt)
lists_open j none h = cc
lists_open j (some rt) h = let (c, g) = parts rt.closing (get j rt.requests) h in (rt, refl, c, g)
  where
    parts :
        (c : Bool) (o : Option (Unit {0}))
        → (not c && is_some o) ≡ true
        → (c ≡ false) × (o ≡ some tt)
    parts true o h = cc
    parts false none h = cc
    parts false (some tt) h = (refl, refl)

-- After any calls on a new registry, a pending request of a session belongs to a session that is
-- open and lists it. No pending request outlives its session, and the session's close finds it.
pub pending_is_listed :
    (bucket_count tick : ℕ) (cs : List Call) (j : RequestKey) (e : RequestEntry) (sid : ℕ)
    → get j (run (new_with_timing bucket_count tick) cs).entries ≡ some e
    → e.state ≡ pending
    → j.session_id ≡ some sid
    → (rt : SessionRuntime) × (get sid (run (new_with_timing bucket_count tick) cs).sessions
        ≡ some rt)
      × (rt.closing ≡ false)
      × (get j rt.requests ≡ some tt)
pending_is_listed bucket_count tick cs j e sid g p o =
    let start = new_with_timing bucket_count tick in
    let r = run start cs in
    let all =
      run-Covered start cs (new_with_timing-Inv bucket_count tick)
        (new_with_timing-Covered bucket_count tick) in
    let here : covered r.sessions j (some e) ≡ true = ap (covered r.sessions j) (sym g) ∙ all j in
    let unclaimed : is_state e.state responding ≡ false = ap (λ s. is_state s responding) p in
    let l : listed_in r.sessions j j.session_id ≡ true = rw unclaimed at here in
    lists_open j (get sid r.sessions) (subst (λ x. listed_in r.sessions j x ≡ true) o l)
