-- ===== src/Tcp/Link.antt =====
-- tcp.rs: the write loop of one side and the read loop of the other.
use msgtrans.Prelude.{
  ◌≤◌, ◌≡◌, ◌≢◌, refl, sym, ap, ◌∙◌, ◌⊎◌, inl, inr, List, [], ◌∷◌, ◌++◌, append-nil, none, some,
  Bool, true, ok, length, length-append, subst, All, arith,
}
use msgtrans.Packet.{Bytes, Packet, DecodeLimits, total_len}
use msgtrans.Packet.Codec.{frame_len}
use msgtrans.Packet.RoundTrip.{frame}
use msgtrans.Registry.{RequestRegistry}
use msgtrans.Tcp.{reading, read_loop, new_read_loop}
use msgtrans.Tcp.Delivery.{frames, Sendable, frame_len-frame}
use msgtrans.Tcp.Chunks.{arriving, IsRead, read_loop-Progress, new_read_loop-Progress}
use msgtrans.Tcp.Write.{Outbound, Socket, new_write_loop, write_loop}
use msgtrans.Tcp.Written.{told_ok, unfinished, IsConfirmed, write_loop-Wrote}

-- Two ways to cut one list of packets.
split_twice :
    (ss tail d left : List Packet)
    → ss ++ tail ≡ d ++ left
    → ((extra : List Packet) × (d ≡ ss ++ extra) × (tail ≡ extra ++ left))
      ⊎ ((p : Packet) × (x : List Packet) × (left ≡ p ∷ (x ++ tail)))
split_twice [] tail d left h = inl (d, refl, h)
split_twice (s ∷ ss) tail [] left h = inr (s, ss, sym h)
split_twice (s ∷ ss) tail (p ∷ d) left h =
    let (same, h') : (s ≡ p) × (ss ++ tail ≡ d ++ left) = (cc, cc) in
    elim (split_twice ss tail d left h') [
      | inl (extra, e, t) ↦ inl (extra, rw same (ap (◌∷◌ p) e), t)
      | inr x ↦ inr x
    ]

-- Of at most one packet, a first part is nothing or all.
all_or_none :
    (x left whole : List Packet)
    → x ++ left ≡ whole
    → length (x ++ left) ≤ 1
    → (x ≡ []) ⊎ (x ≡ whole)
all_or_none [] left whole h l = inl refl
all_or_none (p ∷ x) [] whole h l = inr (sym (append-nil (p ∷ x)) ∙ h)
all_or_none (p ∷ x) (q ∷ left) whole h l = absurd (omega (arith, l, length-append x (q ∷ left)))

-- What is read of two parts, when what is not read is no longer than the second.
front_whole :
    (f g b rest : Bytes) → b ++ rest ≡ f ++ g → length rest ≤ length g → (h : Bytes) × (b ≡ f ++ h)
front_whole [] g b rest e l = (b, refl)
front_whole (x ∷ f) g [] rest e l = absurd (omega (arith, ap length e, length-append f g))
front_whole (x ∷ f) g (y ∷ b) rest e l =
    let (same, e') : (y ≡ x) × (b ++ rest ≡ f ++ g) = (cc, cc) in
    let (h, r) = front_whole f g b rest e' l in (h, rw same (ap (◌∷◌ x) r))

length-frames : (x tail : List Packet) → length (frames tail) ≤ length (frames (x ++ tail))
unfolding frames
length-frames [] tail = omega arith
length-frames (p ∷ x) tail =
    omega (arith, length-frames x tail, length-append (frame p) (frames (x ++ tail)))

-- Nothing is left to be parsed but a part of the last packet.
only_tail :
    (limits : DecodeLimits) (b rest : Bytes) (tail : List Packet) (p : Packet) (x : List Packet)
    → Sendable limits p
    → b ++ rest ≡ frames (p ∷ (x ++ tail))
    → length rest ≤ length (frames tail)
    → frame_len b limits ≢ ok none
unfolding frames
only_tail limits b rest tail p x v e l waits =
    let (h, front) =
      front_whole (frame p) (frames (x ++ tail)) b rest e (omega (arith, length-frames x tail)) in
    let size = frame_len-frame p limits h v in
    let size' : frame_len b limits ≡ ok (some (total_len p)) =
      ap (λ y. frame_len y limits) front ∙ size in
    cc

-- From one side's outbound queue to the other side's consumer. Whatever becomes of each write, when
-- the packets are within the reader's limits, their senders wait for the write, the bytes that the
-- socket took arrive, in any cut into reads, and the consumer takes every packet: each item gets
-- one receipt, and the consumer is delivered exactly the packets whose senders were told that the
-- write succeeded, in order, and then at most one more: that of the first item whose sender was
-- not told so.
pub confirmed_is_delivered :
    (deliver : List Packet → Packet → Bool) (limits : DecodeLimits) (r : RequestRegistry)
    (items : List (Outbound × Socket)) (chunks : List (Bool × Bytes))
    → ((out : List Packet) (p : Packet) → deliver out p ≡ true)
    → All (IsConfirmed limits) items
    → All IsRead chunks
    → arriving chunks ≡ (write_loop (new_write_loop r) items).written
    → let receipts = (write_loop (new_write_loop r) items).receipts in
      let l = read_loop deliver (new_read_loop limits) chunks in
      (length receipts ≡ length items)
      × (l.state ≡ reading)
      × ((extra : List Packet) × (l.delivered ≡ told_ok items receipts ++ extra)
          × (length extra ≤ 1)
          × ((extra ≡ []) ⊎ (extra ≡ unfinished items receipts)))
confirmed_is_delivered deliver limits r items chunks accepts v n e =
    let start = new_write_loop r in
    let w = write_loop-Wrote limits start items fresh.0 v in
    let told = told_ok items w.rs in
    let receipts : (write_loop start items).receipts ≡ w.rs =
      w.receipts_ok ∙ ap (λ x. x ++ w.rs) fresh.1 in
    let written : (write_loop start items).written ≡ w.more =
      w.written_ok ∙ ap (λ x. x ++ w.more) fresh.2 in
    let coming = ap (λ x. x ++ w.rest) (e ∙ written) ∙ w.frames_ok in
    let g =
      read_loop-Progress deliver accepts limits (told ++ w.tail) chunks w.rest
        (new_read_loop limits) n
        (new_read_loop-Progress limits (told ++ w.tail) _ w.sendable coming) in
    (
      ap length receipts ∙ w.count_ok,
      g.is_reading,
      elim (split_twice told w.tail _ g.left g.split) [
        | inl (extra, d, t) ↦ (
          extra,
          d ∙ ap (λ x. told_ok items x ++ extra) (sym receipts),
          omega (arith, ap length t, length-append extra g.left, w.tail_ok),
          all_or_none extra g.left (unfinished items _)
              (sym t ∙ w.tail_is ∙ ap (unfinished items) (sym receipts))
              (omega (arith, ap length t, length-append extra g.left, w.tail_ok)),
        )
        | inr (p, x, longer) ↦ absurd (
            only_tail limits _ w.rest w.tail p x (subst (All (Sendable limits)) longer g.sendable).0
              (g.kept ∙ ap frames longer) w.rest_ok g.waiting)
      ],
    )
  where
    fresh :
        ((new_write_loop r).end_reason ≡ none)
        × ((new_write_loop r).receipts ≡ [])
        × ((new_write_loop r).written ≡ [])
    fresh = unfold new_write_loop in (refl, refl, refl)
