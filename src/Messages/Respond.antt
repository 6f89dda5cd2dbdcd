-- ===== src/Messages/Respond.antt =====
-- session_actor.rs, `Responder`: the one answer to one request. The response takes the way of
-- `send_confirmed_with`, with the claim on it. What other tasks call on the registry while the response
-- is built, queued and written, between the claim and its end, is a list of calls; the responder is
-- dropped as soon as its own call ends.
use msgtrans.Prelude.{ℕ, List, some, false, Result, ok, err}
use msgtrans.Packet.{Bytes, response_with_biz}
use msgtrans.Packet.Compression.{Codecs}
use msgtrans.Errors.{TransportError}
use msgtrans.Registry.{RequestToken, RequestRegistry, updated, already, not_found}
use msgtrans.Registry.Respond.{begin_respond, drop_claim}
use msgtrans.Registry.Abort.{abort_request_token}
use msgtrans.Registry.Step.{Call, run}
use msgtrans.Messages.{SendOptions, apply_over, Outside, send_confirmed_with}

pub data RespondOutcome : Type 0 where
  written already_handled : RespondOutcome

-- `Responder`, without its references to the transport and the registry.
pub record Responder : Type 0 where
  pub token : RequestToken
  pub biz_type : ℕ
  pub session_id : ℕ

-- `.map(|()| RespondOutcome::Written)`.
abbrev pub as_written : Result TransportError (Unit {0}) → Result TransportError RespondOutcome
as_written (ok a) = ok written
as_written (err e) = err e

-- From the claim on.
unfoldable pub respond_claimed :
    Codecs
    → RequestRegistry
    → (meanwhile : List Call) → Outside
    → Responder
    → Bytes
    → SendOptions
    → Result TransportError RespondOutcome × RequestRegistry
respond_claimed c r meanwhile o responder payload options =
    let held = run r meanwhile in
    elim (apply_over c options
      (response_with_biz (responder.token).request_id responder.biz_type payload)
      responder.biz_type) [
        | err e ↦ (err e, drop_claim held responder.token false)
        | ok packet ↦
            let (result, r') =
              send_confirmed_with o packet (some responder.session_id) (some responder.token)
                held in
            (as_written result, r')
      ]

-- `respond_with_options`, before the responder itself is dropped.
unfoldable pub respond_open :
    Codecs
    → RequestRegistry
    → (meanwhile : List Call) → Outside
    → Responder
    → Bytes
    → SendOptions
    → Result TransportError RespondOutcome × RequestRegistry
unfolding respond_claimed
respond_open c r meanwhile o responder payload options =
    let (marked, r') = begin_respond r responder.token in
    elim marked [
      | updated ↦ respond_claimed c r' meanwhile o responder payload options
      | already s ↦ (ok already_handled, r')
      | not_found ↦ (ok already_handled, r')
    ]

-- `impl Drop for Responder`.
unfoldable pub drop_responder : RequestRegistry → Responder → RequestRegistry
drop_responder r responder = (abort_request_token r responder.token).1

unfoldable pub respond_with_options :
    Codecs
    → RequestRegistry
    → (meanwhile : List Call) → Outside
    → Responder
    → Bytes
    → SendOptions
    → Result TransportError RespondOutcome × RequestRegistry
unfolding respond_open drop_responder
respond_with_options c r meanwhile o responder payload options =
    let (result, r') = respond_open c r meanwhile o responder payload options in
    (result, drop_responder r' responder)
