-- ===== src/Sessions/Tests.antt =====
-- An actor whose peer closes in the middle of a batch.
use msgtrans.Prelude.{ℕ, ◌+◌, List, [], ◌∷◌, some}
use msgtrans.Packet.{one_way_packet, request_packet}
use msgtrans.Errors.{timed_out}
use msgtrans.Events.{connection_closed, message_received}
use msgtrans.Registry.{RequestRegistry, new_with_timing}
use msgtrans.Registry.Register.{open_session}
use msgtrans.Sessions.{ActorMessage, inbound_event, send, send_with_reply, Effect, SessionActor}

abbrev quiet : Effect → RequestRegistry → RequestRegistry
quiet effect r = r

abbrev clock : ℕ → ℕ
clock n = 100 + n

abbrev fresh : SessionActor
fresh = record {
  session_id = 4;
  inbound_registry = some (open_session (new_with_timing 8 10) 4);
  ticks = 0;
  effects = [];
}

abbrev arrivals : List (List ActorMessage)
arrivals =
    (inbound_event (message_received (one_way_packet 1 [])) ∷ [])
    ∷ (inbound_event (message_received (request_packet 9 []))
        ∷ inbound_event (connection_closed timed_out)
        ∷ send (one_way_packet 2 [])
        ∷ send_with_reply (one_way_packet 3 []) 0
        ∷ [])
    ∷ []
