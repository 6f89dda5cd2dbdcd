-- ===== src/Requests/Ends.antt =====
-- transport.rs, transport_server.rs, request_registry.rs: a request that ends without an answer.
use msgtrans.Prelude.{
  ℕ, ◌*◌, ◌≡◌, refl, ap, ◌∙◌, Option, none, some, inl, inr, Bool, true, false, not, ◌&&◌, ◌||◌,
  ◌==◌, Result, ok, err, String, arith, Option-cases, Bool-cases,
}
use msgtrans.Prelude.Map.{nat_eq, get}
use msgtrans.Packet.{Packet}
use msgtrans.Errors.{TransportError, connection_error, timeout}
use msgtrans.Registry.{
  RequestToken, token_key, RequestRegistry, RequestEntry, key_eq, dropped, state_u8, retire,
}
use msgtrans.Registry.Register.{try_register_waiter}
use msgtrans.Registry.Abort.{abort_request_token}
use msgtrans.Registry.Invariant.{retire-entries}
use msgtrans.Registry.Tokens.{get-remove_self}
use msgtrans.Registry.Step.{run}
use msgtrans.Messages.{Outside, send_confirmed_with}
use msgtrans.Sessions.{is_request, request_lifecycle_timeout}
use msgtrans.Requests.{
  Fate, runs_on, dropped_sending, dropped_waiting, Meanwhile, Received, delivers, sender_gone,
  times_out, receive, new_guard, armed, drop_guard, Outcome, conclude, await_response, guarded,
  registered, request, default_waiter_deadline,
}
use msgtrans.Requests.OfServer.{Peer, send_to_session, request_to_session}

abbrev registration : RequestToken → Option RequestEntry → Bool
registration token none = false
registration token (some e) = (e.generation == token.generation) && (state_u8 e.state == 0)

-- The registration that the token names is still pending.
abbrev pub is_registered : RequestRegistry → RequestToken → Bool
is_registered r token = registration token (get (token_key token) r.entries)

abbrev pub is_answer : Option (Result TransportError Packet) → Bool
is_answer none = false
is_answer (some (ok packet)) = true
is_answer (some (err e)) = false

-- An end that is no answer leaves no registration.
abbrev Released : RequestToken → Outcome → Type 0
Released token out = (is_answer out.0 || not (is_registered out.1 token)) ≡ true

abort-registered :
    (r : RequestRegistry) (token : RequestToken)
    → is_registered (abort_request_token r token).1 token ≡ false
unfolding abort_request_token
abort-registered r token = elim (Option-cases (get (token_key token) r.entries)) [
  | inl n ↦ rw (n, abort_request_token) (ap (registration token) n)
  | inr (e, g) ↦ elim (Bool-cases (e.generation == token.generation)) [
    | inr other ↦
        rw (g, abort_request_token)
          (rw other (ap (registration token) g ∙ ap (λ b. b && (state_u8 e.state == 0)) other))
    | inl same ↦ elim (Bool-cases (state_u8 e.state == 0)) [
      | inr busy ↦
          rw (g, abort_request_token) (rw same (rw busy (ap (registration token) g ∙ ground arith)))
      | inl free ↦
          let k = token_key token in
          let e' : RequestEntry = record e { state = dropped } in
          rw (g, abort_request_token)
            (rw same (
              rw free (
                ap (registration token)
                  (get-remove_self k r.entries (retire r k e').entries (retire-entries r k e')))))
    ]
  ]
]

dropped-Released :
    (r : RequestRegistry) (token : RequestToken) (result : Option (Result TransportError Packet))
    → Released token (result, drop_guard r (armed (new_guard token)))
unfolding drop_guard armed new_guard
dropped-Released r token result = let h = abort-registered r token in ground (arith, h)

conclude-Released :
    (operation : String) (duration : ℕ) (r : RequestRegistry) (token : RequestToken) (x : Received)
    → Released token (conclude operation duration r (armed (new_guard token)) x)
unfolding conclude
conclude-Released operation duration r token (delivers packet) = refl
conclude-Released operation duration r token sender_gone =
    dropped-Released r token (some (err (connection_error "Connection closed" true)))
conclude-Released operation duration r token times_out =
    dropped-Released r token (some (err (timeout operation duration)))

await_response-Released :
    (operation : String) (duration : ℕ) (m : Meanwhile) (c : ℕ) (token : RequestToken) (gone : Bool)
    (out : Result TransportError (Unit {0}) × RequestRegistry)
    → Released token (await_response operation duration m c (armed (new_guard token)) gone out)
unfolding await_response
await_response-Released operation duration m c token gone (err e, r) =
    dropped-Released r token (some (err e))
await_response-Released operation duration m c token true (ok a, r) =
    dropped-Released (run r m.waiting) token none
await_response-Released operation duration m c token false (ok a, r) =
    conclude-Released operation duration (run r m.waiting) token (receive (run r m.waiting) c)

guarded-Released :
    (operation : String) (duration : ℕ)
    (send : RequestRegistry → Result TransportError (Unit {0}) × RequestRegistry) (m : Meanwhile)
    (r : RequestRegistry) (c : ℕ) (token : RequestToken) (fate : Fate)
    → Released token (guarded operation duration send m r c (armed (new_guard token)) fate)
unfolding guarded
guarded-Released operation duration send m r c token dropped_sending =
    dropped-Released (run r m.sending) token none
guarded-Released operation duration send m r c token dropped_waiting =
    await_response-Released operation duration m c token true (send (run r m.sending))
guarded-Released operation duration send m r c token runs_on =
    await_response-Released operation duration m c token false (send (run r m.sending))

registered-Released :
    (operation refused : String) (duration deadline now : ℕ)
    (send : RequestRegistry → Result TransportError (Unit {0}) × RequestRegistry) (m : Meanwhile)
    (r : RequestRegistry) (packet : Packet) (session : Option ℕ) (c : ℕ) (token : RequestToken)
    → (try_register_waiter r
        (packet.header).message_id
        session
        (packet.header).biz_type
        deadline
        now).0
      ≡ some (c, token)
    → Released token (registered operation duration deadline now refused send m r packet session)
unfolding registered
registered-Released operation refused duration deadline now send m r packet session c token h =
    rw (h, registered) (guarded-Released operation duration send m _ c token m.fate)

-- A request of a client whose waiter was registered, whatever the connection and the other tasks do:
-- where it ends without an answer, by an error of the send, a closed channel, the timeout, or because
-- its future is dropped while it sends or waits, no pending registration of its token is left.
pub request_released :
    (o : Outside) (m : Meanwhile) (now : ℕ) (r : RequestRegistry) (packet : Packet) (c : ℕ)
    (token : RequestToken)
    → is_request (packet.header).packet_type ≡ true
    → (try_register_waiter r
        (packet.header).message_id
        o.slot
        (packet.header).biz_type
        default_waiter_deadline
        now).0
      ≡ some (c, token)
    → let out = request o m now r packet in
      (is_answer out.0 || not (is_registered out.1 token)) ≡ true
unfolding request
request_released o m now r packet c token q h = rw q (
    registered-Released "request" "Duplicate in-flight request id" (10 * 1000000000)
      default_waiter_deadline now (send_confirmed_with o packet o.slot none) m r packet o.slot c
      token h)

-- The same of a server's request to one of its sessions, where a dead connection also removes the
-- session: where it ends without an answer, no pending registration of its token is left.
pub request_to_session_released :
    (p : Peer) (m : Meanwhile) (duration now : ℕ) (r : RequestRegistry) (session_id : ℕ)
    (packet : Packet) (c : ℕ) (token : RequestToken)
    → p.has_transport ≡ true
    → is_request (packet.header).packet_type ≡ true
    → (try_register_waiter r
        (packet.header).message_id
        (some session_id)
        (packet.header).biz_type
        request_lifecycle_timeout
        now).0
      ≡ some (c, token)
    → let out = request_to_session p m duration now r session_id packet in
      (is_answer out.0 || not (is_registered out.1 token)) ≡ true
unfolding request_to_session
request_to_session_released p m duration now r session_id packet c token t q h = simp t (
    rw q (
      registered-Released "server request" "Duplicate in-flight request id for this session"
        duration request_lifecycle_timeout now (send_to_session p session_id packet) m r packet
        (some session_id) c token h))
