-- ===== src/Tcp/Written.antt =====
-- tcp.rs, the write half of the event loop: the bytes that it writes and the receipts that it gives.
use msgtrans.Prelude.{
  ℕ, suc, ◌≤◌, ◌≡◌, refl, sym, ap, ◌∙◌, List, [], ◌∷◌, ◌++◌, append-nil, append_assoc, Option, none,
  some, Bool, true, false, Result, ok, err, length, length-append, length-drop, subst, take, drop,
  take-append-drop, All, arith,
}
use msgtrans.Packet.{Bytes, Packet, DecodeLimits}
use msgtrans.Packet.Codec.{try_encode}
use msgtrans.Packet.RoundTrip.{frame, try_encode-frame}
use msgtrans.Errors.{CloseReason, TransportError, connection, literal, write_failed}
use msgtrans.Messages.{WriteCompletion, Receipt, complete, drop_completion}
use msgtrans.Tcp.Delivery.{frames, Sendable}
use msgtrans.Tcp.Write.{
  Outbound, Socket, takes_all, fails, expires, is_cut, WriteLoop, write_packet_to_stream, resolve,
  discard_item, write_item, write_loop, ended_by,
}

-- The packets whose senders were told that the write succeeded.
abbrev pub told_ok : List (Outbound × Socket) → List Receipt → List Packet
told_ok [] rs = []
told_ok ((item, socket) ∷ items) [] = []
told_ok ((item, socket) ∷ items) (some (ok a) ∷ rs) = item.packet ∷ told_ok items rs
told_ok ((item, socket) ∷ items) (some (err e) ∷ rs) = told_ok items rs
told_ok ((item, socket) ∷ items) (none ∷ rs) = told_ok items rs

-- The packet of the first item whose sender was not told that the write succeeded.
abbrev pub unfinished : List (Outbound × Socket) → List Receipt → List Packet
unfinished [] rs = []
unfinished ((item, socket) ∷ items) [] = []
unfinished ((item, socket) ∷ items) (some (ok a) ∷ rs) = unfinished items rs
unfinished ((item, socket) ∷ items) (some (err e) ∷ rs) = item.packet ∷ []
unfinished ((item, socket) ∷ items) (none ∷ rs) = item.packet ∷ []

abbrev observed : Option WriteCompletion → Bool
observed none = false
observed (some w) = w.observer

-- An item that the limits let through, and whose sender waits for the write.
abbrev pub IsConfirmed : DecodeLimits → Outbound × Socket → Type 0
IsConfirmed limits (item, socket) = Sendable limits item.packet × (observed item.completion ≡ true)

-- What the rest of a write loop adds: receipts, and the frames of the packets confirmed with at most
-- a part of the one whose write broke off.
pub record Wrote (limits : DecodeLimits) (l : WriteLoop) (items : List (Outbound × Socket))
    (l' : WriteLoop) : Type 0 where
  pub rs : List Receipt
  pub tail : List Packet
  pub more : Bytes
  pub rest : Bytes
  pub receipts_ok : l'.receipts ≡ l.receipts ++ rs
  pub count_ok : length rs ≡ length items
  pub written_ok : l'.written ≡ l.written ++ more
  pub frames_ok : more ++ rest ≡ frames (told_ok items rs ++ tail)
  pub tail_ok : length tail ≤ 1
  pub tail_is : tail ≡ unfinished items rs
  pub rest_ok : length rest ≤ length (frames tail)
  pub sendable : All (Sendable limits) (told_ok items rs ++ tail)

discard_item-Wrote :
    (l : WriteLoop) (item : Outbound)
    → ((discard_item l item).receipts ≡ l.receipts ++ (none ∷ []))
      × ((discard_item l item).written ≡ l.written)
      × ((discard_item l item).end_reason ≡ l.end_reason)
unfolding discard_item drop_completion
discard_item-Wrote l item = ground arith

-- After the end every item that is left is dropped.
record Ended (l : WriteLoop) (items : List (Outbound × Socket)) (l' : WriteLoop) : Type 0 where
  rs : List Receipt
  receipts_ok : l'.receipts ≡ l.receipts ++ rs
  count_ok : length rs ≡ length items
  told : told_ok items rs ≡ []
  written_ok : l'.written ≡ l.written

-- The next item, at a loop in this state.
abbrev next_item : WriteLoop → Outbound → Socket → Option CloseReason → WriteLoop
next_item l item socket state = elim state [
  | none ↦ write_item l item socket
  | some reason ↦ discard_item l item
]

write_loop-Ended :
    (l : WriteLoop) (items : List (Outbound × Socket)) (reason : CloseReason)
    → l.end_reason ≡ some reason
    → Ended l items (write_loop l items)
unfolding write_loop
write_loop-Ended l [] reason e = record {
  rs = [];
  receipts_ok = sym (append-nil l.receipts);
  count_ok = refl;
  told = refl;
  written_ok = refl;
}
write_loop-Ended l ((item, socket) ∷ items) reason e =
    let (receipts, written, end) = discard_item-Wrote l item in
    let w = write_loop-Ended (discard_item l item) items reason (end ∙ e) in
    let there : write_loop l ((item, socket) ∷ items) ≡ write_loop (discard_item l item) items =
      ap (λ state. write_loop (next_item l item socket state) items) e in
    subst (Ended l ((item, socket) ∷ items)) (sym there) (record {
      rs = none ∷ w.rs;
      receipts_ok =
          w.receipts_ok ∙ ap (λ x. x ++ w.rs) receipts ∙ append_assoc l.receipts (none ∷ []) w.rs;
      count_ok = ap suc w.count_ok;
      told = w.told;
      written_ok = w.written_ok ∙ written;
    })

module _ (limits : DecodeLimits) where
  -- A write that did not succeed, after which the loop has ended.
  failed-Wrote :
      (l : WriteLoop) (item : Outbound) (socket : Socket) (items : List (Outbound × Socket))
      (l1 : WriteLoop) (receipt : Receipt) (taken : ℕ) (reason : CloseReason)
      → l1.receipts ≡ l.receipts ++ (receipt ∷ [])
      → l1.written ≡ l.written ++ take taken (frame item.packet)
      → l1.end_reason ≡ some reason
      → ((rs : List Receipt) → told_ok ((item, socket) ∷ items) (receipt ∷ rs) ≡ told_ok items rs)
      → ((rs : List Receipt)
          → unfinished ((item, socket) ∷ items) (receipt ∷ rs) ≡ item.packet ∷ [])
      → Sendable limits item.packet
      → Wrote limits l ((item, socket) ∷ items) (write_loop l1 items)
  unfolding frames
  failed-Wrote l item socket items l1 receipt taken reason receipts written end skips breaks v =
      let w = write_loop-Ended l1 items reason end in
      let none_told : told_ok ((item, socket) ∷ items) (receipt ∷ w.rs) ≡ [] =
        skips w.rs ∙ w.told in
      let bytes = frame item.packet in
      record {
        rs = receipt ∷ w.rs;
        tail = item.packet ∷ [];
        more = take taken bytes;
        rest = drop taken bytes;
        receipts_ok =
            w.receipts_ok
            ∙ ap (λ x. x ++ w.rs) receipts
            ∙ append_assoc l.receipts (receipt ∷ []) w.rs;
        count_ok = ap suc w.count_ok;
        written_ok = w.written_ok ∙ written;
        frames_ok =
            take-append-drop taken bytes
            ∙ sym (append-nil bytes)
            ∙ ap (λ x. frames (x ++ (item.packet ∷ []))) (sym none_told);
        tail_ok = omega arith;
        tail_is = sym (breaks w.rs);
        rest_ok = omega (arith, length-append bytes [], length-drop taken bytes);
        sendable =
            subst (λ x. All (Sendable limits) (x ++ (item.packet ∷ []))) (sym none_told) (v, tt);
      }

  -- A write that succeeded.
  sent-Wrote :
      (l : WriteLoop) (item : Outbound) (socket : Socket) (items : List (Outbound × Socket))
      (l1 l' : WriteLoop)
      → l1.receipts ≡ l.receipts ++ (some (ok tt) ∷ [])
      → l1.written ≡ l.written ++ frame item.packet
      → Sendable limits item.packet
      → Wrote limits l1 items l'
      → Wrote limits l ((item, socket) ∷ items) l'
  unfolding frames
  sent-Wrote l item socket items l1 l' receipts written v w =
      let bytes = frame item.packet in
      record {
        rs = some (ok tt) ∷ w.rs;
        tail = w.tail;
        more = bytes ++ w.more;
        rest = w.rest;
        receipts_ok =
            w.receipts_ok
            ∙ ap (λ x. x ++ w.rs) receipts
            ∙ append_assoc l.receipts (some (ok tt) ∷ []) w.rs;
        count_ok = ap suc w.count_ok;
        written_ok =
            w.written_ok ∙ ap (λ x. x ++ w.more) written ∙ append_assoc l.written bytes w.more;
        frames_ok = append_assoc bytes w.more w.rest ∙ ap (λ x. bytes ++ x) w.frames_ok;
        tail_ok = w.tail_ok;
        tail_is = w.tail_is;
        rest_ok = w.rest_ok;
        sendable = (v, w.sendable);
      }

find_completion :
    (o : Option WriteCompletion)
    → observed o ≡ true
    → (w : WriteCompletion) × (o ≡ some w) × (w.observer ≡ true)
find_completion none h = cc
find_completion (some w) h = (w, refl, h)

-- What one item does to the loop.
record Item (l : WriteLoop) (bytes : Bytes) (receipt : Receipt) (end : Option CloseReason)
    (l1 : WriteLoop) : Type 0 where
  receipts_ok : l1.receipts ≡ l.receipts ++ (receipt ∷ [])
  written_ok : l1.written ≡ l.written ++ bytes
  end_ok : l1.end_reason ≡ end

module _ (l : WriteLoop) (item : Outbound) where
  -- A write that the loop completes.
  completed-Item :
      (socket : Socket) (bytes : Bytes) (result : Result TransportError (Unit {0}))
      → write_packet_to_stream item.packet socket ≡ (bytes, ok result)
      → observed item.completion ≡ true
      → Item l bytes (some result) (ended_by result) (write_item l item socket)
  unfolding write_item resolve complete
  completed-Item socket bytes result e o = ground arith

  -- A write that another arm cuts off.
  cut-Item :
      (socket : Socket) (bytes : Bytes) (reason : CloseReason)
      → write_packet_to_stream item.packet socket ≡ (bytes, err reason)
      → Item l bytes none (some reason) (write_item l item socket)
  unfolding write_item discard_item drop_completion
  cut-Item socket bytes reason e = ground arith

module _ (limits : DecodeLimits) where
  pub write_loop-Wrote :
      (l : WriteLoop) (items : List (Outbound × Socket))
      → l.end_reason ≡ none
      → All (IsConfirmed limits) items
      → Wrote limits l items (write_loop l items)
  unfolding write_loop write_packet_to_stream frames
  write_loop-Wrote l [] e v = record {
    rs = [];
    tail = [];
    more = [];
    rest = [];
    receipts_ok = sym (append-nil l.receipts);
    count_ok = refl;
    written_ok = sym (append-nil l.written);
    frames_ok = refl;
    tail_ok = omega arith;
    tail_is = refl;
    rest_ok = omega arith;
    sendable = tt;
  }
  write_loop-Wrote l ((item, socket) ∷ items) e v =
      subst (Wrote limits l ((item, socket) ∷ items)) (sym there)
        (by_socket (λ l1 end. write_loop-Wrote l1 items end v.1) socket)
    where
      there : write_loop l ((item, socket) ∷ items) ≡ write_loop (write_item l item socket) items
      there = ap (λ state. write_loop (next_item l item socket state) items) e

      encodes : try_encode item.packet ≡ ok (frame item.packet)
      encodes = try_encode-frame item.packet {limits = limits} v.0.0.1

      by_socket :
          ((l1 : WriteLoop) → l1.end_reason ≡ none → Wrote limits l1 items (write_loop l1 items))
          → (s : Socket)
          → Wrote limits l ((item, s) ∷ items) (write_loop (write_item l item s) items)
      by_socket later takes_all =
          let i =
            completed-Item l item takes_all (frame item.packet) (ok tt)
              (rw (encodes, write_packet_to_stream) refl) v.0.1 in
          sent-Wrote limits l item takes_all items (write_item l item takes_all) _ i.receipts_ok
            i.written_ok v.0.0 (later (write_item l item takes_all) i.end_ok)
      by_socket later (fails taken io) =
          let i =
            completed-Item l item (fails taken io) (take taken (frame item.packet))
              (err (connection (write_failed io) false)) (rw (encodes, write_packet_to_stream) refl)
              v.0.1 in
          failed-Wrote limits l item (fails taken io) items (write_item l item (fails taken io)) _
            taken _ i.receipts_ok i.written_ok i.end_ok (λ rs. refl) (λ rs. refl) v.0.0
      by_socket later (expires taken) =
          let i =
            completed-Item l item (expires taken) (take taken (frame item.packet))
              (err (connection (literal "TCP write deadline exceeded") false))
              (rw (encodes, write_packet_to_stream) refl) v.0.1 in
          failed-Wrote limits l item (expires taken) items (write_item l item (expires taken)) _
            taken _ i.receipts_ok i.written_ok i.end_ok (λ rs. refl) (λ rs. refl) v.0.0
      by_socket later (is_cut taken reason) =
          let i =
            cut-Item l item (is_cut taken reason) (take taken (frame item.packet)) reason
              (rw (encodes, write_packet_to_stream) refl) in
          failed-Wrote limits l item (is_cut taken reason) items
            (write_item l item (is_cut taken reason)) none taken reason i.receipts_ok i.written_ok
            i.end_ok (λ rs. refl) (λ rs. refl) v.0.0
