-- ===== src/Messages/Settled.antt =====
-- session_actor.rs and transport/transport.rs: a response settles its claim, whatever the connection does.
use msgtrans.Prelude.{
  List, ◌≡◌, refl, ap, ◌∙◌, Option, none, some, Bool, true, false, not, ◌&&◌, ◌||◌, Result, ok, err,
  ◌==◌, if◌then◌else◌, if-both, ℕ, Bool-cases, Option-cases, inl, inr, ==_iff, arith,
}
use msgtrans.Prelude.Map.{get}
use msgtrans.Packet.{Bytes, Packet, response_with_biz}
use msgtrans.Packet.Compression.{Codecs}
use msgtrans.Errors.{TransportError, connection_error}
use msgtrans.Registry.{
  RequestToken, RequestRegistry, RequestKey, RequestEntry, key_eq, key_beq, token_key, MarkResult,
  updated, already, not_found, add64, state_u8, responding, responded, count_duplicate,
}
use msgtrans.Registry.Respond.{begin_respond, finish_respond, drop_claim, resolve_claim, is_state}
use msgtrans.Registry.Abort.{abort_request_token, is_updated}
use msgtrans.Registry.Step.{Call, run}
use msgtrans.Registry.Resolve.{in_state, is_claimed, is_waiting, failed_total, resolve-entries}
use msgtrans.Registry.Tokens.{begin_respond_found, get-insert_self}
use msgtrans.Messages.{
  SendOptions, apply_over, Outside, send_confirmed_with, send_through, send_with_completion,
  finish_write, complete, drop_completion, await_receipt, is_expected, Queueing, writes, discards,
  WriteCompletion, refuse, is_ok,
}
use msgtrans.Messages.Respond.{
  RespondOutcome, already_handled, Responder, as_written, respond_claimed, respond_open,
  drop_responder, respond_with_options,
}

module _ (t : RequestToken) where
  -- The registry after a send that carries the claim.
  abbrev Resolved : RequestRegistry → Result TransportError (Unit {0}) × RequestRegistry → Type 0
  Resolved r s = s.1 ≡ (finish_respond r t (is_ok s.0)).1

  abbrev carried : WriteCompletion
  carried = record { observer = true; claim = some t }

  refuse-Resolved : (e : TransportError) (r : RequestRegistry) → Resolved r (refuse e carried r)
  unfolding drop_completion drop_claim
  refuse-Resolved e r = refl

  send_through-Resolved :
      (o : Outside) (packet : Packet) (r : RequestRegistry)
      → Resolved r (send_through o packet carried r)
  unfolding send_through finish_write complete drop_completion await_receipt drop_claim
      resolve_claim
  send_through-Resolved o packet r = by_enqueue (send_with_completion o packet) o.queueing
    where
      by_write :
          (q : Queueing)
          → Resolved r (let (receipt, r') = finish_write q carried r in (await_receipt receipt, r'))
      by_write (writes (ok tt)) = refl
      by_write (writes (err e)) = refl
      by_write discards = refl

      by_enqueue :
          (s : Result TransportError (Unit {0})) (q : Queueing)
          → Resolved r (elim s [
            | err e ↦ refuse e carried r
            | ok a ↦ let (receipt, r') = finish_write q carried r in (await_receipt receipt, r')
          ])
      by_enqueue (ok a) q = by_write q
      by_enqueue (err e) q = refl

  send_confirmed_with-Resolved :
      (o : Outside) (packet : Packet) (expected : Option ℕ) (r : RequestRegistry)
      → Resolved r (send_confirmed_with o packet expected (some t) r)
  unfolding send_confirmed_with
  send_confirmed_with-Resolved o packet expected r = by_slot o.slot
    where
      stale : TransportError
      stale = connection_error "connection replaced since the request was received" false

      by_slot :
          (s : Option ℕ)
          → Resolved r (elim s [
            | none ↦ refuse (connection_error "Not connected" false) carried r
            | some session_id ↦
                if is_expected expected session_id
                then send_through o packet carried r
                else refuse stale carried r
          ])
      by_slot none = refuse-Resolved (connection_error "Not connected" false) r
      by_slot (some n) =
          if-both (Resolved r) (is_expected expected n) (send_through o packet carried r)
            (refuse stale carried r) (λ _. send_through-Resolved o packet r)
            (λ _. refuse-Resolved stale r)

abbrev pub succeeded : Result TransportError RespondOutcome → Bool
succeeded (ok outcome) = true
succeeded (err e) = false

abbrev pub is_already_handled : Result TransportError RespondOutcome → Bool
is_already_handled (ok already_handled) = true
is_already_handled _ = false

-- From the claim on, the response is written or fails, and the claim is finished accordingly.
respond_claimed-finish_respond :
    (c : Codecs) (r0 : RequestRegistry) (meanwhile : List Call) (o : Outside) (p : Responder)
    (payload : Bytes) (options : SendOptions)
    → let s = respond_claimed c r0 meanwhile o p payload options in
      (s.1 ≡ (finish_respond (run r0 meanwhile) p.token (succeeded s.0)).1)
      × (is_already_handled s.0 ≡ false)
unfolding respond_claimed drop_claim
respond_claimed-finish_respond c r0 meanwhile o p payload options =
    by_packet
      (apply_over c options (response_with_biz (p.token).request_id p.biz_type payload) p.biz_type)
  where
    r : RequestRegistry
    r = run r0 meanwhile

    mapped :
        (s : Result TransportError (Unit {0}) × RequestRegistry)
        → Resolved p.token r s
        → (s.1 ≡ (finish_respond r p.token (succeeded (as_written s.0))).1)
          × (is_already_handled (as_written s.0) ≡ false)
    mapped (ok a, x) h = (h, refl)
    mapped (err e, x) h = (h, refl)

    by_packet :
        (s : Result TransportError Packet)
        → let s' : Result TransportError RespondOutcome × RequestRegistry = elim s [
          | err e ↦ (err e, drop_claim r p.token false)
          | ok packet ↦
              let (result, r') =
                send_confirmed_with o packet (some p.session_id) (some p.token) r in
              (as_written result, r')
        ] in
          (s'.1 ≡ (finish_respond r p.token (succeeded s'.0)).1) × (is_already_handled s'.0 ≡ false)
    by_packet (ok packet) =
        mapped (send_confirmed_with o packet (some p.session_id) (some p.token) r)
          (send_confirmed_with-Resolved p.token o packet (some p.session_id) r)
    by_packet (err e) = (refl, refl)

-- The responder's drop finds nothing to abort.
abort_absent :
    (r : RequestRegistry) (t : RequestToken)
    → get (token_key t) r.entries ≡ none
    → (abort_request_token r t).1 ≡ r
unfolding abort_request_token
abort_absent r t h = rw (h, abort_request_token) refl

-- A claim that is refused changes no entry, and neither does the responder's drop after it.
abbrev Refused : RequestRegistry → RequestToken → MarkResult × RequestRegistry → Type 0
Refused r t s =
    (s.1.entries ≡ r.entries)
    × (failed_total s.1 ≡ failed_total r)
    × ((abort_request_token s.1 t).1 ≡ s.1)

not_pending :
    (r : RequestRegistry) (t : RequestToken) (e : RequestEntry)
    → get (token_key t) r.entries ≡ some e
    → ((e.generation == t.generation) && (state_u8 e.state == 0)) ≡ false
    → (abort_request_token r t).1 ≡ r
unfolding abort_request_token
not_pending r t e g n = rw (g, abort_request_token) (ground arith)

begin_respond-Refused :
    (r : RequestRegistry) (t : RequestToken)
    → is_updated (begin_respond r t).0 ≡ false
    → Refused r t (begin_respond r t)
unfolding begin_respond
begin_respond-Refused r t h = elim (Option-cases (get (token_key t) r.entries)) [
  | inl n ↦ rw (n, begin_respond) (refl, refl, abort_absent (count_duplicate r) t n)
  | inr (e, g) ↦ elim (Bool-cases (e.generation == t.generation)) [
    | inr other ↦
        rw (g, begin_respond)
          (rw other (refl, refl, not_pending (count_duplicate r) t e g (rw other refl)))
    | inl same ↦ elim (Bool-cases (state_u8 e.state == 0)) [
      | inl p ↦ let h' = rw p at (rw same at (rw (g, begin_respond) at h)) in cc
      | inr f ↦
          let q : ((e.generation == t.generation) && (state_u8 e.state == 0)) ≡ false =
            rw (same, f) refl in
          rw (g, begin_respond)
            (rw same (
              rw f (
                if-both
                  (λ x.
                    (x.entries ≡ r.entries)
                    × (failed_total x ≡ failed_total r)
                    × ((abort_request_token x t).1 ≡ x))
                  (is_state e.state responded || is_state e.state responding) (count_duplicate r) r
                  (λ _. (refl, refl, not_pending (count_duplicate r) t e g q))
                  (λ _. (refl, refl, not_pending r t e g q)))))
    ]
  ]
]

-- A claim that succeeds is there.
begin_respond_claims :
    (r : RequestRegistry) (t : RequestToken)
    → (is_updated (begin_respond r t).0 && not (is_claimed (begin_respond r t).1 t)) ≡ false
begin_respond_claims r t = by_mark (begin_respond r t).0 refl
  where
    by_mark :
        (m : MarkResult)
        → (begin_respond r t).0 ≡ m
        → (is_updated m && not (is_claimed (begin_respond r t).1 t)) ≡ false
    by_mark (already s) h = refl
    by_mark not_found h = refl
    by_mark updated h =
        let (e, g, same, p, after) = begin_respond_found r t h in
        let k = token_key t in
        let e' : RequestEntry = record e { state = responding } in
        ap (λ x. not (is_claimed x t)) after
        ∙ ap (λ o. not (in_state responding t o)) (get-insert_self k e' r.entries)
        ∙ rw ((==_iff e.generation t.generation).1 same) refl

-- The response and the responder's drop: the claim is settled where it still stands, or there is
-- nothing to settle.
abbrev Settled :
    RequestRegistry
    → RequestToken
    → RequestKey
    → Bool
    → RequestRegistry
    → Result TransportError RespondOutcome × RequestRegistry
    → Type 0
Settled r t j won held s =
    let found = if won then held else r in
    let after = (abort_request_token s.1 t).1 in
    (get j after.entries ≡ (
      if won && (is_claimed held t || is_waiting held t) && key_beq (token_key t) j
      then none
      else get j found.entries))
    × (is_already_handled s.0 ≡ not won)
    × (failed_total after ≡ (
        if won && is_claimed held t && not (succeeded s.0)
        then add64 (failed_total held) 1
        else failed_total found))

respond_claimed-Settled :
    (c : Codecs) (r r' : RequestRegistry) (meanwhile : List Call) (o : Outside) (p : Responder)
    (payload : Bytes) (options : SendOptions) (j : RequestKey)
    → Settled r p.token j true
        (run r' meanwhile)
        (respond_claimed c r' meanwhile o p payload options)
respond_claimed-Settled c r r' meanwhile o p payload options j =
    let t = p.token in
    let s = respond_claimed c r' meanwhile o p payload options in
    let (same, handled) = respond_claimed-finish_respond c r' meanwhile o p payload options in
    let (es, failed) = resolve-entries (run r' meanwhile) t (succeeded s.0) j in
    (
      ap (λ x. get j (abort_request_token x t).1.entries) same ∙ es,
      handled,
      ap (λ x. failed_total (abort_request_token x t).1) same ∙ failed,
    )

respond_open-Settled :
    (c : Codecs) (r : RequestRegistry) (meanwhile : List Call) (o : Outside) (p : Responder)
    (payload : Bytes) (options : SendOptions) (j : RequestKey)
    → Settled r p.token j
        (is_updated (begin_respond r p.token).0)
        (run (begin_respond r p.token).1 meanwhile)
        (respond_open c r meanwhile o p payload options)
unfolding respond_open
respond_open-Settled c r meanwhile o p payload options j = by_claim (begin_respond r p.token).0 refl
  where
    held : RequestRegistry
    held = run (begin_respond r p.token).1 meanwhile

    refused :
        (m : MarkResult)
        → (begin_respond r p.token).0 ≡ m
        → is_updated m ≡ false
        → Settled r p.token j false held (ok already_handled, (begin_respond r p.token).1)
    refused m e f =
        let (es, n, a) = begin_respond-Refused r p.token (ap is_updated e ∙ f) in
        (ap (λ x. get j x.entries) a ∙ ap (get j) es, refl, ap failed_total a ∙ n)

    by_claim :
        (m : MarkResult)
        → (begin_respond r p.token).0 ≡ m
        → Settled r p.token j (is_updated m) held (elim m [
          | updated ↦ respond_claimed c (begin_respond r p.token).1 meanwhile o p payload options
          | already s ↦ (ok already_handled, (begin_respond r p.token).1)
          | not_found ↦ (ok already_handled, (begin_respond r p.token).1)
        ])
    by_claim updated e =
        respond_claimed-Settled c r (begin_respond r p.token).1 meanwhile o p payload options j
    by_claim (already s) e = refused (already s) e refl
    by_claim not_found e = refused not_found e refl

-- The answer to a request, whatever the connection does: with no connection, a replaced one, no room
-- or no permits in time, a failed write, a write that is dropped, or a codec that fails; and whatever
-- other tasks call on the registry between the claim and its end, a close of the session included.
-- When the responder wins the claim, the claim stands right after; where the registration is still
-- there at the end, it leaves the table, and no other entry differs from what the other tasks left;
-- and the failure counter goes up by one exactly when the claim is still there and the caller gets
-- an error. When it does not win, the caller is told that the request was handled, and no entry and
-- no failure counter changes.
pub respond_with_options-entries :
    (c : Codecs) (r : RequestRegistry) (meanwhile : List Call) (o : Outside) (p : Responder)
    (payload : Bytes) (options : SendOptions) (j : RequestKey)
    → let out = respond_with_options c r meanwhile o p payload options in
      let (marked, claimed) = begin_respond r p.token in
      let won = is_updated marked in
      let held = run claimed meanwhile in
      let found = if won then held else r in
      ((won && not (is_claimed claimed p.token)) ≡ false)
      × (get j out.1.entries ≡ (
          if won
            && (is_claimed held p.token || is_waiting held p.token)
            && key_beq (token_key p.token) j
          then none
          else get j found.entries))
      × (is_already_handled out.0 ≡ not won)
      × (failed_total out.1 ≡ (
          if won && is_claimed held p.token && not (succeeded out.0)
          then add64 (failed_total held) 1
          else failed_total found))
unfolding respond_with_options drop_responder
respond_with_options-entries c r meanwhile o p payload options j =
    let (es, handled, failed) = respond_open-Settled c r meanwhile o p payload options j in
    (begin_respond_claims r p.token, es, handled, failed)
