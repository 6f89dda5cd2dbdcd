-- ===== src/Packet/Framing.antt =====
-- packet.rs, `frame_len` against the decoders: what is carved off a stream by length decodes.
use msgtrans.Prelude.{
  ℕ, ◌≡◌, refl, sym, ap, ◌∙◌, Option, none, some, Result, ok, err, ◌>>=◌, length, drop, take, arith,
  length-take, take-append-drop, take-take,
}
use msgtrans.Packet.{Bytes, PacketError, DecodeLimits, Packet}
use msgtrans.Packet.Canonical.{Describes, frame_layout-Describes}
use msgtrans.Packet.Stream.{carve-append}
use msgtrans.Packet.Codec.{
  slice, FrameLayout, check_layout, frame_layout, carve, decode_one_with, decode_one_from, exactly,
  decode_exact_from, map_layout, frame_len,
}

-- The layout of a buffer is that of the frame alone.
frame_layout-take :
    (bytes : Bytes) (limits : DecodeLimits) (l : FrameLayout)
    → Describes bytes limits l
    → frame_layout (take l.total bytes) limits ≡ ok (some l)
unfolding frame_layout check_layout
frame_layout-take bytes limits l d =
    let short : slice 0 16 (take l.total bytes) ≡ slice 0 16 bytes =
      take-take 16 l.total bytes (omega arith) in
    rw (short, d.parsed) (ground (arith, length-take l.total bytes))

layout_total :
    (n : ℕ) (r : Result PacketError (Option FrameLayout))
    → (r >>= λ layout. ok (map_layout (λ l. l.total) layout)) ≡ ok (some n)
    → (l : FrameLayout) × (r ≡ ok (some l)) × (l.total ≡ n)
layout_total n (ok (some l)) h = (l, refl, ground arith)
layout_total n (ok none) h = cc
layout_total n (err e) h = cc

carve-take :
    (bytes : Bytes) (limits : DecodeLimits) (l : FrameLayout)
    → Describes bytes limits l
    → carve (take l.total bytes) l ≡ carve bytes l
carve-take bytes limits l d =
    let front = take l.total bytes in
    let back = drop l.total bytes in
    let alone = frame_layout-Describes front limits l (frame_layout-take bytes limits l d) in
    sym (carve-append front back limits l alone)
    ∙ ap (λ b. carve b l) (take-append-drop l.total bytes)

exactly-total :
    (bytes : Bytes) (limits : DecodeLimits) (l : FrameLayout)
    → Describes bytes limits l
    → exactly (length (take l.total bytes)) (some (carve bytes l)) ≡ ok (carve bytes l).0
unfolding exactly carve
exactly-total bytes limits l d = ground (arith, length-take l.total bytes)

carve_pair : (bytes : Bytes) (l : FrameLayout) → carve bytes l ≡ ((carve bytes l).0, l.total)
unfolding carve
carve_pair bytes l = refl

layout-decode :
    (bytes : Bytes) (limits : DecodeLimits) (l : FrameLayout)
    → frame_layout bytes limits ≡ ok (some l)
    → (decode_exact_from (take l.total bytes) limits ≡ ok (carve bytes l).0)
      × (decode_one_with bytes limits ≡ ok (some ((carve bytes l).0, l.total)))
unfolding decode_exact_from decode_one_from decode_one_with
layout-decode bytes limits l e =
    let d = frame_layout-Describes bytes limits l e in
    (
      rw (frame_layout-take bytes limits l d)
          (rw (carve-take bytes limits l d) (exactly-total bytes limits l d)),
      rw e (ap (λ x. ok (some x)) (carve_pair bytes l)),
    )

-- When `frame_len` names a length, that many bytes of the buffer decode to a packet with nothing left
-- over, and it is the packet that the buffer itself decodes to.
pub frame_len-decode :
    (bytes : Bytes) (limits : DecodeLimits) (n : ℕ)
    → frame_len bytes limits ≡ ok (some n)
    → (p : Packet) × (decode_exact_from (take n bytes) limits ≡ ok p)
      × (decode_one_with bytes limits ≡ ok (some (p, n)))
unfolding frame_len
frame_len-decode bytes limits n h =
    let (l, e, t) = layout_total n (frame_layout bytes limits) h in
    let (x, y) = layout-decode bytes limits l e in ((carve bytes l).0, rw (← t) x, rw (← t) y)
