-- ===== src/Messages/Tests.antt =====
-- A message under options, and an answer to a request.
use msgtrans.Prelude.{List, ◌||◌, ◌≡◌, [], ◌∷◌, none, some, ok, false, not, ◌&&◌, if◌then◌else◌}
use msgtrans.Prelude.Map.{get}
use msgtrans.Packet.{Packet, one_way_packet, set_biz_type, set_compression, set_ext_header, zlib}
use msgtrans.Packet.ToyCodecs.{toy_codecs}
use msgtrans.Registry.{RequestRegistry, inbound, key_eq, key_beq, token_key, add64, new_with_timing}
use msgtrans.Registry.Register.{open_session, register}
use msgtrans.Registry.Respond.{begin_respond}
use msgtrans.Registry.Abort.{is_updated}
use msgtrans.Registry.Step.{Call, closes, run}
use msgtrans.Registry.Resolve.{is_claimed, is_waiting, failed_total}
use msgtrans.Messages.{SendOptions, new_options, Outside, elapses, writes}
use msgtrans.Messages.Respond.{Responder, respond_with_options}
use msgtrans.Messages.Settled.{succeeded, is_already_handled, respond_with_options-entries}

abbrev packing : SendOptions
packing = record { biz_type = some 7; ext_header = some (1 ∷ []); compression = some zlib }

abbrev note : Packet
note = one_way_packet 1 (5 ∷ 6 ∷ [])

abbrev packed_note : Packet
packed_note = record (set_compression (set_ext_header (set_biz_type note 7) (1 ∷ [])) zlib) {
  payload = 120 ∷ 5 ∷ 6 ∷ [];
}

abbrev asked : RequestRegistry
asked = (register (open_session (new_with_timing 8 10) 4) 9 (some 4) 2 30 100 101).1

abbrev responder : Responder
responder = record {
  token = record { session_id = some 4; request_id = 9; direction = inbound; generation = 1 };
  biz_type = 2;
  session_id = 4;
}

abbrev connected : Outside
connected = record {
  slot = some 4;
  budget_capacity = 64;
  permits = 64;
  permits_in_time = false;
  queue_closed = false;
  depth = 0;
  max_capacity = 4;
  wait = elapses;
  queueing = writes (ok tt);
  queue_name = "queue";
  closed_msg = "closed";
}

-- The session is closed while the response is written.
abbrev closing : List Call
closing = closes 4 ∷ []

respond_with_options-entries_example :
    let out =
      respond_with_options toy_codecs asked closing connected responder (8 ∷ []) new_options in
    let t = responder.token in
    let k = token_key t in
    let (marked, claimed) = begin_respond asked t in
    let won = is_updated marked in
    let held = run claimed closing in
    let found = if won then held else asked in
    ((won && not (is_claimed claimed t)) ≡ false)
    × (get k out.1.entries ≡ (
        if won && (is_claimed held t || is_waiting held t) && key_beq k k
        then none
        else get k found.entries))
    × (is_already_handled out.0 ≡ not won)
    × (failed_total out.1 ≡ (
        if won && is_claimed held t && not (succeeded out.0)
        then add64 (failed_total held) 1
        else failed_total found))
respond_with_options-entries_example =
    respond_with_options-entries toy_codecs asked closing connected responder (8 ∷ []) new_options
      (token_key responder.token)
