-- ===== src/Registry/Answers.antt =====
-- request_registry.rs: what a waiter's channel yields over a history of calls.
use msgtrans.Prelude.{
  ℕ, ◌<◌, ◌≡◌, refl, ap, ◌∙◌, ◌⊎◌, inl, inr, List, [], ◌∷◌, ◌++◌, Option, none, some, Bool, true,
  false, ◌==◌, ==_iff, arith, Option-cases, Bool-cases, if◌then◌else◌,
}
use msgtrans.Prelude.Map.{nat_eq, get, insert, get-insert, get-remove}
use msgtrans.Packet.{Packet}
use msgtrans.Registry.{
  RequestKey, key_eq, MarkResult, updated, already, not_found, RequestToken, RequestRegistry,
}
use msgtrans.Registry.Register.{
  next_oneway_id, register, register_impl, outbound_key, add_waiter, try_register_waiter,
}
use msgtrans.Registry.Respond.{wake, mark_responded_key, complete_waiter}
use msgtrans.Registry.Step.{
  Call, opens, allocates_oneway, allocates, registers, registers_waiter, completes, begins,
  finishes, aborts, aborts_token, aborts_all, closes, scans, records_send_failed, step, run,
}
use msgtrans.Registry.Channels.{
  Fewer, open_session-Fewer, next_request_id-Fewer, mark_responded_key-Fewer, begin_respond-Fewer,
  finish_respond-Fewer, abort_waiter-Fewer, abort_request_token-Fewer, abort_all-Fewer,
  close_session_pending-Fewer, scan_timeout_bucket-Fewer, register_impl-Fewer,
}

-- What was sent on a channel, if anything.
abbrev pub sent : ℕ → List (ℕ × Packet) → Option Packet
sent c [] = none
sent c ((d, p) ∷ w) = if d == c then some p else sent c w

-- The call completes the key's request with the packet.
abbrev pub IsAnswer : RequestKey → Packet → Call → Type 0
IsAnswer k p (completes session_id request_id q) =
    (outbound_key session_id request_id ≡ k) × (q ≡ p)
IsAnswer k p _ = ⊥

-- Some call of the history does.
abbrev pub Answers : RequestKey → Packet → List Call → Type 0
Answers k p [] = ⊥
Answers k p (c ∷ cs) = IsAnswer k p c ⊎ Answers k p cs

pub Answers-append_left :
    (k : RequestKey) (p : Packet) (cs ds : List Call) → Answers k p cs → Answers k p (cs ++ ds)
Answers-append_left k p [] ds h = absurd h
Answers-append_left k p (c ∷ cs) ds (inl h) = inl h
Answers-append_left k p (c ∷ cs) ds (inr h) = inr (Answers-append_left k p cs ds h)

pub Answers-append_right :
    (k : RequestKey) (p : Packet) (cs ds : List Call) → Answers k p ds → Answers k p (cs ++ ds)
Answers-append_right k p [] ds h = h
Answers-append_right k p (c ∷ cs) ds h = inr (Answers-append_right k p cs ds h)

-- The channel belongs to one key, and was given out already.
pub record Mine (c : ℕ) (k : RequestKey) (r : RequestRegistry) : Type 0 where
  pub own : (j : RequestKey) → get j r.waiters ≡ some c → j ≡ k
  pub old : c < r.next_channel

pub Fewer-Mine :
    {c : ℕ} {k : RequestKey} (r t : RequestRegistry)
    → ((j : RequestKey) → Fewer j r t)
    → Mine c k r
    → Mine c k t
Fewer-Mine {c} {k} r t f m = record {
  own = λ j h. let g = f j in m.own j (ground arith);
  old = let g = f k in omega (arith, g.channel_ok, m.old);
}

-- The registration of a waiter, seen from a channel that was given out before.
waits-Mine :
    {c : ℕ} {k : RequestKey} (r : RequestRegistry) (k' : RequestKey) (t : Option RequestToken)
    → Mine c k r
    → Mine c k (add_waiter r k' t).1 × ((add_waiter r k' t).1.woken ≡ r.woken)
unfolding add_waiter
waits-Mine r k' none m = (m, refl)
waits-Mine {c} {k} r k' (some token) m = elim (Option-cases (get k' r.entries)) [
  | inl n ↦
      rw (n, add_waiter)
        (
          record {
            own = λ j h. m.own j (
                ground (
                  arith,
                  m.old,
                  get-insert k' j r.next_channel r.waiters,
                  get-remove k' j (insert k' r.next_channel r.waiters),
                ));
            old = omega (arith, m.old);
          },
          refl,
        )
  | inr (e, g) ↦
      rw (g, add_waiter)
        (
          record {
            own = λ j h. m.own j (ground (arith, m.old, get-insert k' j r.next_channel r.waiters));
            old = omega (arith, m.old);
          },
          refl,
        )
]

-- What a call did to the channel: nothing, or it sent the key's answer.
abbrev Sends : ℕ → RequestKey → RequestRegistry → RequestRegistry → (Packet → Type 0) → Type 0
Sends c k r t P =
    (sent c t.woken ≡ sent c r.woken) ⊎ ((p : Packet) × (sent c t.woken ≡ some p) × P p)

wake-Sends :
    {c : ℕ} {k : RequestKey} (r : RequestRegistry) (s : Option ℕ) (i : ℕ) (q : Packet)
    → Mine c k r
    → Mine c k (wake r (outbound_key s i) q)
      × Sends c k r (wake r (outbound_key s i) q) (λ p. IsAnswer k p (completes s i q))
unfolding wake
wake-Sends {c} {k} r s i q m =
    let k' = outbound_key s i in
    elim (Option-cases (get k' r.waiters)) [
      | inl n ↦
          rw (n, wake)
            (
              record {
                own = λ j h. m.own j (ground (arith, get-remove k' j r.waiters));
                old = m.old;
              },
              inl refl,
            )
      | inr (d, g) ↦
          rw (g, wake)
            (
              record {
                own = λ j h. m.own j (ground (arith, get-remove k' j r.waiters));
                old = m.old;
              },
              elim (Bool-cases (d == c)) [
                | inr other ↦ inl (rw other refl)
                | inl same ↦
                    let e : d ≡ c = (==_iff d c).0 same in
                    inr (q, rw same refl, (m.own k' (g ∙ ap some e), refl))
              ],
            )
    ]

complete-Sends :
    {c : ℕ} {k : RequestKey} (r : RequestRegistry) (s : Option ℕ) (i : ℕ) (q : Packet)
    → Mine c k r
    → Mine c k (complete_waiter r s i q).1
      × Sends c k r (complete_waiter r s i q).1 (λ p. IsAnswer k p (completes s i q))
unfolding complete_waiter
complete-Sends {c} {k} r s i q m = by_mark (mark_responded_key r k').0
  where
    k' : RequestKey
    k' = outbound_key s i

    r' : RequestRegistry
    r' = (mark_responded_key r k').1

    m' : Mine c k r'
    m' = Fewer-Mine r r' (λ j. mark_responded_key-Fewer j r k') m

    unsent : sent c r'.woken ≡ sent c r.woken
    unsent = ap (sent c) (mark_responded_key-Fewer k r k').woken_ok

    by_mark :
        (x : MarkResult)
        → let out = elim x as (λ y. Bool × RequestRegistry) [
          | updated ↦ (true, wake r' k' q)
          | already t ↦ (false, r')
          | not_found ↦ (false, r')
        ] in
          Mine c k out.1 × Sends c k r out.1 (λ p. IsAnswer k p (completes s i q))
    by_mark updated =
        let (a, b) = wake-Sends r' s i q m' in
        (a, elim b [ inl e ↦ inl (e ∙ unsent) | inr h ↦ inr h ])
    by_mark (already t) = (m', inl unsent)
    by_mark not_found = (m', inl unsent)

Fewer-Sends :
    {c : ℕ} {k : RequestKey} (r t : RequestRegistry) (P : Packet → Type 0)
    → ((j : RequestKey) → Fewer j r t)
    → Mine c k r
    → Mine c k t × Sends c k r t P
Fewer-Sends {c} {k} r t P f m = (Fewer-Mine r t f m, inl (ap (sent c) (f k).woken_ok))

step-Sends :
    {c : ℕ} {k : RequestKey} (r : RequestRegistry) (call : Call)
    → Mine c k r
    → Mine c k (step r call) × Sends c k r (step r call) (λ p. IsAnswer k p call)
unfolding step next_oneway_id register try_register_waiter
step-Sends r (opens sid) m = Fewer-Sends r _ _ (λ j. open_session-Fewer j r sid) m
step-Sends r allocates_oneway m = (record { own = m.own; old = m.old }, inl refl)
step-Sends r (allocates s) m = Fewer-Sends r _ _ (λ j. next_request_id-Fewer j r s) m
step-Sends r (registers i s b t now later) m =
    Fewer-Sends r _ _ (λ j. register_impl-Fewer j r _ b t true now later) m
step-Sends {c} {k} r (registers_waiter i s b t now) m =
    let k' = outbound_key s i in
    let f = λ (j : RequestKey). register_impl-Fewer j r k' b t false now now in
    let (token, r') = register_impl r k' b t false now now in
    let (a, e) = waits-Mine {c = c} {k = k} r' k' token (Fewer-Mine r r' f m) in
    (a, inl (ap (sent c) (e ∙ (f k).woken_ok)))
step-Sends r (completes s i q) m = complete-Sends r s i q m
step-Sends r (begins t) m = Fewer-Sends r _ _ (λ j. begin_respond-Fewer j r t) m
step-Sends r (finishes t b) m = Fewer-Sends r _ _ (λ j. finish_respond-Fewer j r t b) m
step-Sends r (aborts s i) m = Fewer-Sends r _ _ (λ j. abort_waiter-Fewer j r s i) m
step-Sends r (aborts_token t) m = Fewer-Sends r _ _ (λ j. abort_request_token-Fewer j r t) m
step-Sends r aborts_all m = Fewer-Sends r _ _ (λ j. abort_all-Fewer j r) m
step-Sends r (closes sid) m = Fewer-Sends r _ _ (λ j. close_session_pending-Fewer j r sid) m
step-Sends r (scans now clock) m =
    Fewer-Sends r _ _ (λ j. scan_timeout_bucket-Fewer j r now clock) m
step-Sends r records_send_failed m = (record { own = m.own; old = m.old }, inl refl)

-- Over a history of calls, a channel yields what it yielded before, or the answer of a call of the
-- history to the channel's own key.
pub run-Sends :
    {c : ℕ} {k : RequestKey} (r : RequestRegistry) (cs : List Call)
    → Mine c k r
    → Mine c k (run r cs) × Sends c k r (run r cs) (λ p. Answers k p cs)
unfolding run
run-Sends r [] m = (m, inl refl)
run-Sends r (call ∷ cs) m =
    let (m', first) = step-Sends r call m in
    let (m'', rest) = run-Sends (step r call) cs m' in
    (
      m'',
      elim rest [
        | inr (p, e, h) ↦ inr (p, e, inr h)
        | inl same ↦ elim first [
          | inl e ↦ inl (same ∙ e)
          | inr (p, e, h) ↦ inr (p, same ∙ e, inl h)
        ]
      ],
    )
