-- ===== src/Events/Tests.antt =====
-- The pipe over a short life: one compressed and one plain message, then a close.
use msgtrans.Prelude.{
  ◌+◌, ◌≤◌, ◌≡◌, refl, List, [], ◌∷◌, ◌++◌, none, some, true, false, length, replicate, All, arith,
}
use msgtrans.Packet.{Packet, set_compression, one_way_packet, zlib}
use msgtrans.Packet.ToyCodecs.{toy_codecs, toy_codecs-Laws}
use msgtrans.Errors.{normal, forced}
use msgtrans.Events.{connection_closed, message_received, Pipe, done, deliver, close, ready}
use msgtrans.Events.World.{Act, delivers, diagnoses, closes, asks, forgets, run, open_world}
use msgtrans.Events.Order.{events, InOrder}
use msgtrans.Events.Seen.{run-InOrder}
use msgtrans.Events.Drain.{drain, readies, close_wins}
use msgtrans.Events.Bounded.{ItemOk, held_sum, queued_bytes, total, waiting_held}
use msgtrans.Events.Budget.{queue_is_bounded}

abbrev plain : Packet
plain = one_way_packet 1 (5 ∷ 6 ∷ [])

abbrev packed : Packet
packed = set_compression (one_way_packet 2 (120 ∷ 7 ∷ [])) zlib

abbrev life : List Act
life =
    delivers (message_received plain)
    ∷ delivers (message_received packed)
    ∷ diagnoses 9
    ∷ asks
    ∷ closes normal
    ∷ asks
    ∷ asks
    ∷ asks
    ∷ asks
    ∷ forgets 0
    ∷ []

abbrev full : Pipe
full = record {
  queue = record { event = message_received plain; held = 2 } ∷ [];
  capacity = 1;
  max_payload_size = 16;
  budget_capacity = 8;
  permits = 6;
  close_reason = some normal;
  sender_alive = true;
  intake_open = true;
  close_emitted = false;
  retained = [];
}

run-InOrder_example : InOrder (run toy_codecs (open_world 2 16 8) life)
run-InOrder_example = run-InOrder toy_codecs 2 16 8 life

close_wins_example :
    (deliver toy_codecs full (message_received packed) ≡ (done false, full))
    × (close full forced ≡ full)
    × (drain (length full.queue + 3) full
        ≡ readies (events full.queue)
          ++ (ready (some (connection_closed normal)) ∷ replicate 2 (ready none)))
close_wins_example = close_wins toy_codecs full normal forced (message_received packed) 2 refl refl

queue_is_bounded_example :
    let w = run toy_codecs (open_world 2 16 8) life in
    (length (w.pipe).queue ≤ 2)
    × (queued_bytes (w.pipe).queue ≤ 8)
    × All (ItemOk 16) (w.pipe).queue
    × ((w.pipe).permits
          + (held_sum (w.pipe).queue + (total (w.pipe).retained + waiting_held w.delivering))
        ≡ 8)
queue_is_bounded_example = queue_is_bounded toy_codecs 2 16 8 life toy_codecs-Laws (omega arith)
