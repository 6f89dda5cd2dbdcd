-- ===== src/Registry/Fresh.antt =====
-- request_registry.rs: a new waiter's channel is nobody's, in every registry that calls can reach.
use msgtrans.Prelude.{
  ℕ, ◌+◌, ◌<◌, ◌≤◌, ◌≡◌, refl, inl, inr, List, [], ◌∷◌, Option, none, some, Bool, true, false,
  arith, All, Option-cases,
}
use msgtrans.Prelude.Map.{nat_eq, get, insert, remove, get-insert, get-remove}
use msgtrans.Packet.{Packet}
use msgtrans.Registry.{
  RequestKey, key_eq, key_beq_iff, MarkResult, updated, already, not_found, RequestToken,
  RequestRegistry, new_with_timing,
}
use msgtrans.Registry.Register.{
  next_oneway_id, register, register_impl, outbound_key, add_waiter, try_register_waiter,
}
use msgtrans.Registry.Respond.{wake, mark_responded_key, complete_waiter}
use msgtrans.Registry.Step.{
  Call, opens, allocates_oneway, allocates, registers, registers_waiter, completes, begins,
  finishes, aborts, aborts_token, aborts_all, closes, scans, records_send_failed, step, run,
}
use msgtrans.Registry.Channels.{
  Fewer, open_session-Fewer, next_request_id-Fewer, mark_responded_key-Fewer, begin_respond-Fewer,
  finish_respond-Fewer, abort_waiter-Fewer, abort_request_token-Fewer, abort_all-Fewer,
  close_session_pending-Fewer, scan_timeout_bucket-Fewer, register_impl-Fewer,
}
use msgtrans.Registry.Answers.{sent, Mine}

-- Every channel in use was given out.
pub record Fresh (r : RequestRegistry) : Type 0 where
  pub waiters_old : (j : RequestKey) (d : ℕ) → get j r.waiters ≡ some d → d < r.next_channel
  pub woken_old : All (λ x. x.0 < r.next_channel) r.woken

All-below : (n m : ℕ) (w : List (ℕ × Packet)) → n ≤ m → All (λ x. x.0 < n) w → All (λ x. x.0 < m) w
All-below n m [] le h = tt
All-below n m (x ∷ xs) le h = (omega (arith, h.0), All-below n m xs le h.1)

sent_unused : (c : ℕ) (w : List (ℕ × Packet)) → All (λ x. x.0 < c) w → sent c w ≡ none
sent_unused c [] h = refl
sent_unused c ((d, p) ∷ w) h = let e = sent_unused c w h.1 in ground (arith, h.0)

Fewer-Fresh :
    (r t : RequestRegistry)
    → ((j : RequestKey) → Fewer j r t)
    → (k : RequestKey) → Fresh r
    → Fresh t
Fewer-Fresh r t f k m = record {
  waiters_old = λ j d h. let g = f j in let o = m.waiters_old j d in ground arith;
  woken_old =
      let g = f k in
      rw g.woken_ok
        (All-below r.next_channel t.next_channel r.woken (omega (arith, g.channel_ok)) m.woken_old);
}

waits-Fresh :
    (r : RequestRegistry) (k : RequestKey) (t : Option RequestToken)
    → Fresh r
    → Fresh (add_waiter r k t).1
unfolding add_waiter
waits-Fresh r k none m = m
waits-Fresh r k (some token) m =
    let more = All-below r.next_channel (r.next_channel + 1) r.woken (omega arith) m.woken_old in
    elim (Option-cases (get k r.entries)) [
      | inl n ↦
          rw (n, add_waiter)
            (record {
              waiters_old = λ j d h.
                  let o = m.waiters_old j d in
                  ground (
                    arith,
                    get-insert k j r.next_channel r.waiters,
                    get-remove k j (insert k r.next_channel r.waiters),
                  );
              woken_old = more;
            })
      | inr (e, g) ↦
          rw (g, add_waiter)
            (record {
              waiters_old = λ j d h.
                  let o = m.waiters_old j d in
                  ground (arith, get-insert k j r.next_channel r.waiters);
              woken_old = more;
            })
    ]

wake-Fresh : (r : RequestRegistry) (k : RequestKey) (q : Packet) → Fresh r → Fresh (wake r k q)
unfolding wake
wake-Fresh r k q m =
    let left = λ (j : RequestKey) (d : ℕ) (h : get j (remove k r.waiters) ≡ some d).
      m.waiters_old j d (ground (arith, get-remove k j r.waiters)) in
    elim (Option-cases (get k r.waiters)) [
      | inl n ↦ rw (n, wake) (record { waiters_old = left; woken_old = m.woken_old })
      | inr (d, g) ↦
          rw (g, wake)
            (record { waiters_old = left; woken_old = (m.waiters_old k d g, m.woken_old) })
    ]

complete-Fresh :
    (r : RequestRegistry) (s : Option ℕ) (i : ℕ) (q : Packet)
    → Fresh r
    → Fresh (complete_waiter r s i q).1
unfolding complete_waiter
complete-Fresh r s i q m = by_mark (mark_responded_key r k).0
  where
    k : RequestKey
    k = outbound_key s i

    r' : RequestRegistry
    r' = (mark_responded_key r k).1

    m' : Fresh r'
    m' = Fewer-Fresh r r' (λ j. mark_responded_key-Fewer j r k) k m

    by_mark :
        (x : MarkResult)
        → Fresh
            (elim x as (λ y. Bool × RequestRegistry) [
              | updated ↦ (true, wake r' k q)
              | already t ↦ (false, r')
              | not_found ↦ (false, r')
            ]).1
    by_mark updated = wake-Fresh r' k q m'
    by_mark (already t) = m'
    by_mark not_found = m'

step-Fresh : (k : RequestKey) (r : RequestRegistry) (call : Call) → Fresh r → Fresh (step r call)
unfolding step next_oneway_id register try_register_waiter
step-Fresh k r (opens sid) m = Fewer-Fresh r _ (λ j. open_session-Fewer j r sid) k m
step-Fresh k r allocates_oneway m = record { waiters_old = m.waiters_old; woken_old = m.woken_old }
step-Fresh k r (allocates s) m = Fewer-Fresh r _ (λ j. next_request_id-Fewer j r s) k m
step-Fresh k r (registers i s b t now later) m =
    Fewer-Fresh r _ (λ j. register_impl-Fewer j r _ b t true now later) k m
step-Fresh k r (registers_waiter i s b t now) m =
    let k' = outbound_key s i in
    let (token, r') = register_impl r k' b t false now now in
    waits-Fresh r' k' token
      (Fewer-Fresh r r' (λ j. register_impl-Fewer j r k' b t false now now) k m)
step-Fresh k r (completes s i q) m = complete-Fresh r s i q m
step-Fresh k r (begins t) m = Fewer-Fresh r _ (λ j. begin_respond-Fewer j r t) k m
step-Fresh k r (finishes t b) m = Fewer-Fresh r _ (λ j. finish_respond-Fewer j r t b) k m
step-Fresh k r (aborts s i) m = Fewer-Fresh r _ (λ j. abort_waiter-Fewer j r s i) k m
step-Fresh k r (aborts_token t) m = Fewer-Fresh r _ (λ j. abort_request_token-Fewer j r t) k m
step-Fresh k r aborts_all m = Fewer-Fresh r _ (λ j. abort_all-Fewer j r) k m
step-Fresh k r (closes sid) m = Fewer-Fresh r _ (λ j. close_session_pending-Fewer j r sid) k m
step-Fresh k r (scans now clock) m =
    Fewer-Fresh r _ (λ j. scan_timeout_bucket-Fewer j r now clock) k m
step-Fresh k r records_send_failed m = record {
  waiters_old = m.waiters_old;
  woken_old = m.woken_old;
}

pub run-Fresh : (k : RequestKey) (r : RequestRegistry) (cs : List Call) → Fresh r → Fresh (run r cs)
unfolding run
run-Fresh k r [] m = m
run-Fresh k r (c ∷ cs) m = run-Fresh k (step r c) cs (step-Fresh k r c m)

pub new-Fresh : (buckets tick : ℕ) → Fresh (new_with_timing buckets tick)
unfolding new_with_timing get
new-Fresh buckets tick = record { waiters_old = λ j d h. cc; woken_old = tt }

add_waiter-Mine :
    (r : RequestRegistry) (k : RequestKey) (t : Option RequestToken) (c : ℕ) (token : RequestToken)
    → Fresh r
    → (add_waiter r k t).0 ≡ some (c, token)
    → Mine c k (add_waiter r k t).1 × (sent c (add_waiter r k t).1.woken ≡ none)
unfolding add_waiter
add_waiter-Mine r k none c token m h = cc
add_waiter-Mine r k (some t) c token m h = elim (Option-cases (get k r.entries)) [
  | inl n ↦ let h' = rw (n, add_waiter) at h in cc
  | inr (e, g) ↦
      let h' = rw (g, add_waiter) at h in
      let same : r.next_channel ≡ c = ground arith in
      rw (g, add_waiter)
        (rw (← same) (
          record {
            own = λ j q.
                let o = m.waiters_old j r.next_channel in
                ground (arith, get-insert k j r.next_channel r.waiters, key_beq_iff k j);
            old = omega arith;
          },
          sent_unused r.next_channel r.woken m.woken_old,
        ))
]

-- The waiter that a registration adds has a channel of its own, on which nothing was sent.
pub try_register_waiter-Mine :
    (r : RequestRegistry) (i : ℕ) (s : Option ℕ) (b timeout now c : ℕ) (token : RequestToken)
    → Fresh r
    → (try_register_waiter r i s b timeout now).0 ≡ some (c, token)
    → let r' = (try_register_waiter r i s b timeout now).1 in
      Mine c (outbound_key s i) r' × (sent c r'.woken ≡ none)
unfolding try_register_waiter
try_register_waiter-Mine r i s b timeout now c token m h =
    let k = outbound_key s i in
    let (t, r') = register_impl r k b timeout false now now in
    add_waiter-Mine r' k t c token
      (Fewer-Fresh r r' (λ j. register_impl-Fewer j r k b timeout false now now) k m) h
