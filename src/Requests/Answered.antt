-- ===== src/Requests/Answered.antt =====
-- transport.rs, transport_server.rs: whose answer a request returns.
use msgtrans.Prelude.{
  ℕ, ◌*◌, ◌≡◌, ap, sym, subst, ◌∙◌, ◌⊎◌, List, [], ◌++◌, Option, none, some, inl, inr, Bool, true,
  false, Result, ok, err, String, arith, Option-cases, Bool-cases,
}
use msgtrans.Packet.{Packet}
use msgtrans.Errors.{TransportError}
use msgtrans.Registry.{RequestKey, RequestRegistry, new_with_timing}
use msgtrans.Registry.Register.{try_register_waiter, outbound_key}
use msgtrans.Registry.Step.{Call, run}
use msgtrans.Registry.Channels.{Fewer, Fewer-refl, close_session_pending-Fewer}
use msgtrans.Registry.Answers.{
  sent, Answers, Answers-append_left, Answers-append_right, Mine, Fewer-Mine, run-Sends,
}
use msgtrans.Registry.Fresh.{Fresh, run-Fresh, new-Fresh, try_register_waiter-Mine}
use msgtrans.Messages.{
  Outside, send_confirmed_with, send_through, finish_write, complete, drop_completion,
}
use msgtrans.Sessions.{is_request, request_lifecycle_timeout}
use msgtrans.Requests.{
  Fate, runs_on, dropped_sending, dropped_waiting, Meanwhile, Received, delivers, sender_gone,
  times_out, receive, OutboundRequestGuard, new_guard, armed, conclude, await_response, guarded,
  registered, request, default_waiter_deadline,
}
use msgtrans.Requests.OfServer.{Peer, settle_send, send_to_session, request_to_session}

-- A send that carries no claim leaves the registry alone.
send_confirmed_with-unclaimed :
    (o : Outside) (packet : Packet) (expected : Option ℕ) (r : RequestRegistry)
    → (send_confirmed_with o packet expected none r).1 ≡ r
unfolding send_confirmed_with send_through finish_write complete drop_completion
send_confirmed_with-unclaimed o packet expected r = ground arith

settle_send-Fewer :
    (r : RequestRegistry) (session_id : ℕ) (result : Result TransportError (Unit {0}))
    (j : RequestKey)
    → Fewer j r (settle_send r session_id result).1
unfolding settle_send
settle_send-Fewer r session_id (ok a) j = Fewer-refl j r
settle_send-Fewer r session_id (err e) j =
    ground (arith, Fewer-refl j r, close_session_pending-Fewer j r session_id)

send_to_session-Fewer :
    (p : Peer) (session_id : ℕ) (packet : Packet) (r : RequestRegistry) (j : RequestKey)
    → Fewer j r (send_to_session p session_id packet r).1
unfolding send_to_session
send_to_session-Fewer p session_id packet r j =
    let (result, r') = send_confirmed_with p.outside packet (some session_id) none r in
    let same = send_confirmed_with-unclaimed p.outside packet (some session_id) r in
    ground (
      arith,
      Fewer-refl j r,
      close_session_pending-Fewer j r session_id,
      settle_send-Fewer r session_id p.actor_writes j,
      settle_send-Fewer r' session_id result j,
      same,
    )

-- What the channel has, at some point of a history of calls.
abbrev Has : ℕ → RequestKey → List Call → RequestRegistry → Type 0
Has c k cs r = (sent c r.woken ≡ none) ⊎ ((p : Packet) × (sent c r.woken ≡ some p) × Answers k p cs)

receive-sent :
    (r : RequestRegistry) (c : ℕ) (p : Packet) → receive r c ≡ delivers p → sent c r.woken ≡ some p
unfolding receive
receive-sent r c p h = ground arith

conclude-answer :
    (operation : String) (duration : ℕ) (r : RequestRegistry) (guard : OutboundRequestGuard)
    (x : Received) (p : Packet)
    → (conclude operation duration r guard x).0 ≡ some (ok p)
    → x ≡ delivers p
unfolding conclude
conclude-answer operation duration r guard (delivers q) p e = ground arith
conclude-answer operation duration r guard sender_gone p e = cc
conclude-answer operation duration r guard times_out p e = cc

Has-answer :
    (c : ℕ) (k : RequestKey) (cs : List Call) (r : RequestRegistry) (p : Packet)
    → Has c k cs r
    → sent c r.woken ≡ some p
    → Answers k p cs
Has-answer c k cs r p (inl n) e = let f = sym n ∙ e in cc
Has-answer c k cs r p (inr (q, f, a)) e =
    let same : q ≡ p = let g = sym f ∙ e in ground arith in subst (λ x. Answers k x cs) same a

-- A further history of calls.
run-Has :
    (c : ℕ) (k : RequestKey) (cs ds : List Call) (r : RequestRegistry)
    → Mine c k r
    → Has c k cs r
    → Has c k (cs ++ ds) (run r ds)
run-Has c k cs ds r m h = elim (run-Sends r ds m).1 [
  | inr (p, e, a) ↦ inr (p, e, Answers-append_right k p cs ds a)
  | inl same ↦ elim h [
    | inl n ↦ inl (same ∙ n)
    | inr (p, e, a) ↦ inr (p, same ∙ e, Answers-append_left k p cs ds a)
  ]
]

await_response-Answers :
    (operation : String) (duration : ℕ) (m : Meanwhile) (c : ℕ) (guard : OutboundRequestGuard)
    (gone : Bool) (k : RequestKey) (p : Packet)
    (out : Result TransportError (Unit {0}) × RequestRegistry)
    → Mine c k out.1
    → Has c k m.sending out.1
    → (await_response operation duration m c guard gone out).0 ≡ some (ok p)
    → Answers k p (m.sending ++ m.waiting)
unfolding await_response
await_response-Answers operation duration m c guard gone k p (err e, r) own h q = cc
await_response-Answers operation duration m c guard true k p (ok a, r) own h q = cc
await_response-Answers operation duration m c guard false k p (ok a, r) own h q =
    let after = run r m.waiting in
    Has-answer c k (m.sending ++ m.waiting) after p (run-Has c k m.sending m.waiting r own h) (
      receive-sent after c p (conclude-answer operation duration after guard (receive after c) p q))

-- The packet's way out drops waiters at most.
abbrev OnlyDrops : (RequestRegistry → Result TransportError (Unit {0}) × RequestRegistry) → Type 0
OnlyDrops send = (r : RequestRegistry) (j : RequestKey) → Fewer j r (send r).1

guarded-Answers :
    (operation : String) (duration : ℕ)
    (send : RequestRegistry → Result TransportError (Unit {0}) × RequestRegistry) (m : Meanwhile)
    (r : RequestRegistry) (c : ℕ) (guard : OutboundRequestGuard) (fate : Fate) (k : RequestKey)
    (p : Packet)
    → OnlyDrops send
    → Mine c k r
    → sent c r.woken ≡ none
    → (guarded operation duration send m r c guard fate).0 ≡ some (ok p)
    → Answers k p (m.sending ++ m.waiting)
unfolding guarded
guarded-Answers operation duration send m r c guard fate k p drops own n q = by_fate fate q
  where
    before : RequestRegistry
    before = run r m.sending

    own_before : Mine c k before
    own_before = (run-Sends r m.sending own).0

    own_after : Mine c k (send before).1
    own_after = Fewer-Mine before (send before).1 (drops before) own_before

    has_before : Has c k m.sending before
    has_before = run-Has c k [] m.sending r own (inl n)

    has_after : Has c k m.sending (send before).1
    has_after =
        let same = ap (sent c) (drops before k).woken_ok in
        elim has_before [ inl e ↦ inl (same ∙ e) | inr (x, e, a) ↦ inr (x, same ∙ e, a) ]

    by_fate :
        (fate : Fate)
        → (guarded operation duration send m r c guard fate).0 ≡ some (ok p)
        → Answers k p (m.sending ++ m.waiting)
    by_fate dropped_sending q = cc
    by_fate dropped_waiting q =
        await_response-Answers operation duration m c guard true k p (send before) own_after
          has_after q
    by_fate runs_on q =
        await_response-Answers operation duration m c guard false k p (send before) own_after
          has_after q

registered-Answers :
    (operation refused : String) (duration deadline now : ℕ)
    (send : RequestRegistry → Result TransportError (Unit {0}) × RequestRegistry) (m : Meanwhile)
    (r : RequestRegistry) (packet : Packet) (session : Option ℕ) (p : Packet)
    → OnlyDrops send
    → Fresh r
    → (registered operation duration deadline now refused send m r packet session).0 ≡ some (ok p)
    → Answers (outbound_key session (packet.header).message_id) p (m.sending ++ m.waiting)
unfolding registered
registered-Answers operation refused duration deadline now send m r packet session p drops fresh q =
    let i = (packet.header).message_id in
    let b = (packet.header).biz_type in
    elim (Option-cases (try_register_waiter r i session b deadline now).0) [
      | inl n ↦ let q' = rw (n, registered) at q in cc
      | inr ((c, token), h) ↦
          let (own, n) = try_register_waiter-Mine r i session b deadline now c token fresh h in
          guarded-Answers operation duration send m
            (try_register_waiter r i session b deadline now).1 c (armed (new_guard token)) m.fate
            (outbound_key session i) p drops own n (rw (h, registered) at q)
    ]

-- A client's request that returns a response, whatever calls of the registry came before it, and
-- whatever the connection and the other tasks do meanwhile: some call, made while the request was
-- sent or awaited, delivered exactly this packet as the response of the request's own session and
-- message id. So no response of another session, of another id, or from before the request is
-- returned.
pub request_answered :
    (buckets tick : ℕ) (history : List Call) (o : Outside) (m : Meanwhile) (now : ℕ)
    (packet p : Packet)
    → (request o m now (run (new_with_timing buckets tick) history) packet).0 ≡ some (ok p)
    → Answers (outbound_key o.slot (packet.header).message_id) p (m.sending ++ m.waiting)
unfolding request
request_answered buckets tick history o m now packet p q =
    let r = run (new_with_timing buckets tick) history in
    let k = outbound_key o.slot (packet.header).message_id in
    let fresh = run-Fresh k (new_with_timing buckets tick) history (new-Fresh buckets tick) in
    let drops : OnlyDrops (send_confirmed_with o packet o.slot none) =
      λ t j. rw (send_confirmed_with-unclaimed o packet o.slot t) (Fewer-refl j t) in
    elim (Bool-cases (is_request (packet.header).packet_type)) [
      | inr other ↦ let q' = rw other at q in cc
      | inl asks ↦
          registered-Answers "request" "Duplicate in-flight request id" (10 * 1000000000)
            default_waiter_deadline now (send_confirmed_with o packet o.slot none) m r packet o.slot
            p drops fresh (rw asks at q)
    ]

-- The same of a server's request to one of its sessions, where a send that finds the connection dead
-- removes the session: a response that is returned was delivered by a call, made while the request
-- was sent or awaited, as the response of that session and message id.
pub request_to_session_answered :
    (buckets tick : ℕ) (history : List Call) (peer : Peer) (m : Meanwhile) (duration now : ℕ)
    (session_id : ℕ) (packet p : Packet)
    → (request_to_session peer m duration now
        (run (new_with_timing buckets tick) history)
        session_id
        packet).0
      ≡ some (ok p)
    → Answers (outbound_key (some session_id) (packet.header).message_id) p (m.sending ++ m.waiting)
unfolding request_to_session
request_to_session_answered buckets tick history peer m duration now session_id packet p q =
    let r = run (new_with_timing buckets tick) history in
    let k = outbound_key (some session_id) (packet.header).message_id in
    let fresh = run-Fresh k (new_with_timing buckets tick) history (new-Fresh buckets tick) in
    elim (Bool-cases peer.has_transport) [
      | inr gone ↦ let q' = simp gone at q in cc
      | inl there ↦ elim (Bool-cases (is_request (packet.header).packet_type)) [
        | inr other ↦ let q' = rw other at (simp there at q) in cc
        | inl asks ↦
            registered-Answers "server request" "Duplicate in-flight request id for this session"
              duration request_lifecycle_timeout now (send_to_session peer session_id packet) m r
              packet (some session_id) p (λ t j. send_to_session-Fewer peer session_id packet t j)
              fresh (rw asks at (simp there at q))
      ]
    ]
