-- ===== src/Tcp/Write.antt =====
-- tcp.rs, the write half of the event loop: the outbound queue item by item, with what the socket does
-- to each write.
use msgtrans.Prelude.{
  ℕ, List, [], ◌∷◌, ◌++◌, Option, none, some, false, Result, ok, err, take, String,
}
use msgtrans.Packet.{Bytes, Packet}
use msgtrans.Packet.Codec.{try_encode}
use msgtrans.Errors.{
  TransportError, connection, literal, encode_failed, write_failed, CloseReason, error,
  transport_failed,
}
use msgtrans.Registry.{RequestRegistry}
use msgtrans.Messages.{WriteCompletion, complete, drop_completion, Receipt}

pub record Outbound : Type 0 where
  pub packet : Packet
  pub completion : Option WriteCompletion

-- What becomes of one `write_all`: the socket takes all bytes; it takes some and fails; it takes some
-- and the write deadline passes; it takes some and another arm of the event loop ends the write.
pub data Socket : Type 0 where
  takes_all : Socket
  fails : (taken : ℕ) → (io : String) → Socket
  expires : (taken : ℕ) → Socket
  is_cut : (taken : ℕ) → CloseReason → Socket

pub record WriteLoop : Type 0 where
  pub written : Bytes
  -- one for each item, in order
  pub receipts : List Receipt
  pub registry : RequestRegistry
  -- the packets that the diagnostics announce
  pub sent : List Packet
  pub end_reason : Option CloseReason

unfoldable pub new_write_loop : RequestRegistry → WriteLoop
new_write_loop r = record {
  written = [];
  receipts = [];
  registry = r;
  sent = [];
  end_reason = none;
}

-- The bytes that the socket took, and the write's result, unless the write is cut off.
unfoldable pub write_packet_to_stream :
    Packet → Socket → Bytes × Result CloseReason (Result TransportError (Unit {0}))
write_packet_to_stream packet socket = elim (try_encode packet) [
  | err e ↦ ([], ok (err (connection (encode_failed e) false)))
  | ok bytes ↦ elim socket [
    | takes_all ↦ (bytes, ok (ok tt))
    | fails taken io ↦ (take taken bytes, ok (err (connection (write_failed io) false)))
    | expires taken ↦
        (take taken bytes, ok (err (connection (literal "TCP write deadline exceeded") false)))
    | is_cut taken reason ↦ (take taken bytes, err reason)
  ]
]

-- `completion.complete(result)` where there is one, and the drop of an item.
unfoldable pub resolve :
    Option WriteCompletion
    → Result TransportError (Unit {0})
    → RequestRegistry
    → Receipt × RequestRegistry
resolve none result r = (none, r)
resolve (some w) result r = complete w result r

unfoldable pub discard_item : WriteLoop → Outbound → WriteLoop
discard_item l item =
    let (receipt, r) : Receipt × RequestRegistry = elim item.completion [
      | none ↦ (none, l.registry)
      | some w ↦ drop_completion w l.registry
    ] in
    record l { receipts = l.receipts ++ (receipt ∷ []); registry = r }

abbrev pub ended_by : Result TransportError (Unit {0}) → Option CloseReason
ended_by (ok a) = none
ended_by (err e) = some (error (transport_failed e))

abbrev pub announced : Packet → Result TransportError (Unit {0}) → List Packet
announced packet (ok a) = packet ∷ []
announced packet (err e) = []

unfoldable pub write_item : WriteLoop → Outbound → Socket → WriteLoop
unfolding write_packet_to_stream resolve discard_item
write_item l item socket =
    let (bytes, outcome) = write_packet_to_stream item.packet socket in
    elim outcome [
      | err reason ↦
          discard_item (record l { written = l.written ++ bytes; end_reason = some reason }) item
      | ok result ↦
          let (receipt, r) = resolve item.completion result l.registry in
          record {
            written = l.written ++ bytes;
            receipts = l.receipts ++ (receipt ∷ []);
            registry = r;
            sent = l.sent ++ announced item.packet result;
            end_reason = ended_by result;
          }
    ]

-- The loop over the queue; once it ended, the items that are left are dropped with the queue.
unfoldable pub write_loop : WriteLoop → List (Outbound × Socket) → WriteLoop
unfolding write_item discard_item
write_loop l [] = l
write_loop l ((item, socket) ∷ items) =
    write_loop
      (elim l.end_reason [ none ↦ write_item l item socket | some reason ↦ discard_item l item ])
      items
