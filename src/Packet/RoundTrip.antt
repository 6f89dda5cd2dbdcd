-- ===== src/Packet/RoundTrip.antt =====
-- What the encoder writes, the decoders read back.
use msgtrans.Prelude.{
  ℕ, ◌+◌, ◌-◌, ◌≡◌, refl, sym, [], ◌∷◌, ◌++◌, some, ok, err, length, ltb, if◌then◌else◌, arith,
  length-append, take_append_length, drop_append_length, append_assoc, append-nil,
}
use msgtrans.Packet.{
  Bytes, IsPacket, DecodeLimits, Packet, total_len, invalid_packet, trailing_bytes,
}
use msgtrans.Packet.Header.{to_bytes, from_bytes-to_bytes, length-to_bytes}
use msgtrans.Packet.Codec.{
  slice, try_encode, FrameLayout, check_layout, frame_layout, carve, decode_one_with,
  decode_exact_with, Fits,
}

-- The bytes of a packet that the encoder accepts.
unfoldable pub frame : Packet → Bytes
frame p = to_bytes p.header (length p.ext_header) (length p.payload) ++ (p.ext_header ++ p.payload)

pub try_encode-frame :
    (p : Packet) {limits : DecodeLimits} → Fits limits p → try_encode p ≡ ok (frame p)
unfolding try_encode frame
try_encode-frame p f = ground arith

pub length-frame : (p : Packet) → length (frame p) ≡ total_len p
unfolding frame total_len to_bytes
length-frame p = omega (arith, length-append p.ext_header p.payload)

abbrev layout_of : Packet → FrameLayout
layout_of p = record {
  header = p.header;
  ext_header_len = length p.ext_header;
  payload_len = length p.payload;
  ext_end = 16 + length p.ext_header;
  total = 16 + length p.ext_header + length p.payload;
}

take-frame :
    (p : Packet) (rest : Bytes)
    → slice 0 16 (frame p ++ rest) ≡ to_bytes p.header (length p.ext_header) (length p.payload)
unfolding frame to_bytes
take-frame p rest = refl

length-frame-append :
    (p : Packet) (rest : Bytes) → length (frame p ++ rest) ≡ total_len p + length rest
length-frame-append p rest = omega (arith, length-append (frame p) rest, length-frame p)

pub frame_layout-frame :
    (p : Packet) (limits : DecodeLimits) (rest : Bytes)
    → IsPacket p
    → Fits limits p
    → frame_layout (frame p ++ rest) limits ≡ ok (some (layout_of p))
unfolding frame_layout check_layout total_len
frame_layout-frame p limits rest v f =
    let n = length-frame-append p rest in
    rw
      (
        take-frame p rest,
        from_bytes-to_bytes p.header (length p.ext_header) (length p.payload) v.header_valid
            (omega arith) (omega arith),
      )
      (ground (arith, n))

slice_middle :
    (a b c : Bytes) (lo hi : ℕ)
    → lo ≡ length a
    → hi ≡ length a + length b
    → slice lo hi (a ++ (b ++ c)) ≡ b
slice_middle a b c lo hi p q =
    let e : hi - lo ≡ length b = omega arith in
    rw (e, p, drop_append_length a (b ++ c)) (take_append_length b c)

unless_empty : (xs s : Bytes) → s ≡ xs → (if ltb 0 (length xs) then s else []) ≡ xs
unless_empty [] s e = refl
unless_empty (x ∷ xs) s e = ground arith

ext_slice :
    (p : Packet) (rest : Bytes)
    → slice 16 (16 + length p.ext_header) (frame p ++ rest) ≡ p.ext_header
unfolding frame to_bytes
ext_slice p rest = rw append_assoc (
    slice_middle (to_bytes p.header (length p.ext_header) (length p.payload)) p.ext_header
      (p.payload ++ rest) 16 _ refl refl)

payload_slice :
    (p : Packet) (rest : Bytes)
    → slice
        (16 + length p.ext_header)
        (16 + length p.ext_header + length p.payload)
        (frame p ++ rest)
      ≡ p.payload
unfolding frame
payload_slice p rest =
    let hdr = to_bytes p.header (length p.ext_header) (length p.payload) in
    let front = hdr ++ p.ext_header in
    let e : frame p ++ rest ≡ front ++ (p.payload ++ rest) = simp append_assoc in
    let n : length front ≡ 16 + length p.ext_header = omega (
      arith,
      length-append hdr p.ext_header,
      length-to_bytes p.header (length p.ext_header) (length p.payload),
    ) in
    rw e (slice_middle front p.payload rest _ _ (sym n) (omega arith))

carve-frame : (p : Packet) (rest : Bytes) → carve (frame p ++ rest) (layout_of p) ≡ (p, total_len p)
unfolding carve total_len
carve-frame p rest =
    let ext = unless_empty p.ext_header _ (ext_slice p rest) in
    let body = unless_empty p.payload _ (payload_slice p rest) in ground (arith, ext, body)

-- A packet's frame at the front of a buffer decodes to that packet and its length, whatever follows.
pub decode_one_with-frame :
    (p : Packet) (limits : DecodeLimits) (rest : Bytes)
    → IsPacket p
    → Fits limits p
    → decode_one_with (frame p ++ rest) limits ≡ ok (some (p, total_len p))
unfolding decode_one_with
decode_one_with-frame p limits rest v f = rw (frame_layout-frame p limits rest v f) (rw carve-frame)

-- Encoding succeeds on a packet within the limits, and the bytes it writes, at the front of any
-- buffer, decode to the same packet, of which as many bytes as were written are consumed.
pub decode_one_with-try_encode :
    (p : Packet) (limits : DecodeLimits) (rest : Bytes)
    → IsPacket p
    → Fits limits p
    → (bytes : Bytes) × (try_encode p ≡ ok bytes)
      × (length bytes ≡ total_len p)
      × (decode_one_with (bytes ++ rest) limits ≡ ok (some (p, length bytes)))
decode_one_with-try_encode p limits rest v f = (
  frame p,
  try_encode-frame p f,
  length-frame p,
  rw length-frame (decode_one_with-frame p limits rest v f),
)

pub exact-frame :
    (p : Packet) (limits : DecodeLimits)
    → IsPacket p
    → Fits limits p
    → decode_exact_with (frame p) limits ≡ ok p
unfolding decode_exact_with
exact-frame p limits v f =
    let d = decode_one_with-frame p limits [] v f in
    let d' = rw append-nil at d in rw (d', length-frame p) (ground arith)

exact-frame_trailing :
    (p : Packet) (limits : DecodeLimits) (b : ℕ) (rest : Bytes)
    → IsPacket p
    → Fits limits p
    → decode_exact_with (frame p ++ (b ∷ rest)) limits
      ≡ err (invalid_packet (trailing_bytes (total_len p) (length (frame p ++ (b ∷ rest)))))
unfolding decode_exact_with
exact-frame_trailing p limits b rest v f =
    let n = length-frame-append p (b ∷ rest) in
    rw (decode_one_with-frame p limits (b ∷ rest) v f) (ground (arith, n))

-- The exact decoder accepts a packet's bytes alone, and refuses them with anything behind them,
-- naming how many bytes were used and how many stood there.
pub decode_exact_with-try_encode :
    (p : Packet) (limits : DecodeLimits) (b : ℕ) (rest : Bytes) {bytes : Bytes}
    → IsPacket p
    → Fits limits p
    → try_encode p ≡ ok bytes
    → (decode_exact_with bytes limits ≡ ok p)
      × (decode_exact_with (bytes ++ (b ∷ rest)) limits
          ≡ err (invalid_packet (trailing_bytes (length bytes) (length (bytes ++ (b ∷ rest))))))
decode_exact_with-try_encode p limits b rest {bytes} v f e =
    let same : frame p ≡ bytes = cc (try_encode-frame p f) in
    rw (← same, length-frame p) (exact-frame p limits v f, exact-frame_trailing p limits b rest v f)
