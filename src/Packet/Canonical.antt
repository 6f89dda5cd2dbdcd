-- ===== src/Packet/Canonical.antt =====
-- packet.rs, the decoders on any buffer: what decodes is exactly what the encoder would write.
use msgtrans.Prelude.{
  ℕ, zero, suc, ◌+◌, ◌-◌, ◌≤◌, ◌<◌, ◌^◌, ◌≡◌, refl, sym, ap, ◌∙◌, [], ◌++◌, Option, none, some,
  Result, ok, err, ◌>>=◌, length, drop, take, ltb, if◌then◌else◌, arith, All, length-take,
  length-drop, take-add, All-append_left, take-append-drop, All-drop, append_assoc,
}
use msgtrans.Packet.{
  Bytes, IsByte, IsPacket, IsHeader, PacketError, DecodeLimits, Packet, total_len,
}
use msgtrans.Packet.Header.{to_bytes, from_bytes, to_bytes-from_bytes}
use msgtrans.Packet.Codec.{
  slice, try_encode, FrameLayout, check_layout, frame_layout, carve, decode_one_with, Fits,
  map_layout,
}

-- What a layout says of the buffer that it was read from.
pub record Describes (bytes : Bytes) (limits : DecodeLimits) (l : FrameLayout) : Type 0 where
  pub parsed : from_bytes (slice 0 16 bytes) ≡ ok (l.header, l.ext_header_len, l.payload_len)
  pub ext_end_eq : l.ext_end ≡ 16 + l.ext_header_len
  pub total_eq : l.total ≡ 16 + l.ext_header_len + l.payload_len
  pub available : l.total ≤ length bytes
  pub payload_fits : l.payload_len ≤ limits.max_payload_size
  pub ext_fits : l.ext_header_len ≤ limits.max_ext_header_size
  pub frame_fits : l.total ≤ limits.max_frame_size

pub frame_layout-Describes :
    (bytes : Bytes) (limits : DecodeLimits) (l : FrameLayout)
    → frame_layout bytes limits ≡ ok (some l)
    → Describes bytes limits l
unfolding frame_layout check_layout
frame_layout-Describes bytes limits l h = ground arith

All-take : (n : ℕ) (xs : Bytes) → All IsByte xs → All IsByte (take n xs)
All-take n xs h = All-append_left IsByte (take n xs) (drop n xs) (rw take-append-drop h)

-- The three parts of a frame, in a buffer that is long enough.
take_frame :
    (e p : ℕ) (bytes : Bytes)
    → take (16 + e + p) bytes
      ≡ take 16 bytes ++ (take e (drop 16 bytes) ++ take p (drop (16 + e) bytes))
take_frame e p bytes =
    rw (take-add (16 + e) p bytes, take-add 16 e bytes)
      (append_assoc (take 16 bytes) (take e (drop 16 bytes)) (take p (drop (16 + e) bytes)))

unless_zero : (n : ℕ) (xs s : Bytes) → s ≡ take n xs → (if ltb 0 n then s else []) ≡ take n xs
unless_zero zero xs s e = refl
unless_zero (suc n) xs s e = ground arith

abbrev cut : Bytes → FrameLayout → Packet
cut bytes l = record {
  header = l.header;
  ext_header = take l.ext_header_len (drop 16 bytes);
  payload = take l.payload_len (drop (16 + l.ext_header_len) bytes);
}

carve-cut :
    (bytes : Bytes) (limits : DecodeLimits) (l : FrameLayout)
    → Describes bytes limits l
    → carve bytes l ≡ (cut bytes l, l.total)
unfolding carve
carve-cut bytes limits l d =
    let m : l.ext_end - 16 ≡ l.ext_header_len = omega arith in
    let n : l.total - l.ext_end ≡ l.payload_len = omega arith in
    let ext = unless_zero l.ext_header_len (drop 16 bytes) (slice 16 l.ext_end bytes) (rw m) in
    let body =
      unless_zero l.payload_len (drop (16 + l.ext_header_len) bytes) (slice l.ext_end l.total bytes)
        (rw (n, d.ext_end_eq)) in
    ground (arith, ext, body)

cut-length :
    (bytes : Bytes) (limits : DecodeLimits) (l : FrameLayout)
    → Describes bytes limits l
    → (length (cut bytes l).ext_header ≡ l.ext_header_len)
      × (length (cut bytes l).payload ≡ l.payload_len)
cut-length bytes limits l d = omega (
  arith,
  length-take l.ext_header_len (drop 16 bytes),
  length-drop 16 bytes,
  length-take l.payload_len (drop (16 + l.ext_header_len) bytes),
  length-drop (16 + l.ext_header_len) bytes,
)

header_facts :
    (bytes : Bytes) (limits : DecodeLimits) (l : FrameLayout)
    → All IsByte bytes
    → Describes bytes limits l
    → (to_bytes l.header l.ext_header_len l.payload_len ≡ take 16 bytes)
      × IsHeader l.header
      × (l.ext_header_len < 2 ^ 16)
      × (l.payload_len < 2 ^ 32)
header_facts bytes limits l v d =
    to_bytes-from_bytes (take 16 bytes) l.header l.ext_header_len l.payload_len
      (omega (arith, length-take 16 bytes)) (All-take 16 bytes v) d.parsed

cut-IsPacket :
    (bytes : Bytes) (limits : DecodeLimits) (l : FrameLayout)
    → All IsByte bytes
    → Describes bytes limits l
    → IsPacket (cut bytes l)
cut-IsPacket bytes limits l v d = record {
  header_valid = (header_facts bytes limits l v d).1;
  ext_header_bytes = All-take l.ext_header_len (drop 16 bytes) (All-drop IsByte 16 bytes v);
  payload_bytes =
      All-take l.payload_len (drop (16 + l.ext_header_len) bytes)
        (All-drop IsByte (16 + l.ext_header_len) bytes v);
}

cut-Fits :
    (bytes : Bytes) (limits : DecodeLimits) (l : FrameLayout)
    → All IsByte bytes
    → Describes bytes limits l
    → Fits limits (cut bytes l)
cut-Fits bytes limits l v d =
    omega (arith, cut-length bytes limits l d, header_facts bytes limits l v d)

try_encode-cut :
    (bytes : Bytes) (limits : DecodeLimits) (l : FrameLayout)
    → All IsByte bytes
    → Describes bytes limits l
    → try_encode (cut bytes l) ≡ ok (take l.total bytes)
unfolding try_encode
try_encode-cut bytes limits l v d =
    let (e, p) = cut-length bytes limits l d in
    let (same, _, small, _) = header_facts bytes limits l v d in
    let whole = take_frame l.ext_header_len l.payload_len bytes in
    let f = cut-Fits bytes limits l v d in rw (d.total_eq, whole, ← same) (ground (arith, e, p))

decoded_layout :
    (bytes : Bytes) (x : Packet × ℕ) (r : Result PacketError (Option FrameLayout))
    → (r >>= λ layout. ok (map_layout (carve bytes) layout)) ≡ ok (some x)
    → (l : FrameLayout) × (r ≡ ok (some l)) × (carve bytes l ≡ x)
decoded_layout bytes x (ok (some l)) h = (l, refl, ground arith)
decoded_layout bytes x (ok none) h = cc
decoded_layout bytes x (err e) h = cc

total_cut :
    (bytes : Bytes) (limits : DecodeLimits) (l : FrameLayout)
    → Describes bytes limits l
    → l.total ≡ total_len (cut bytes l)
unfolding total_len
total_cut bytes limits l d = omega (arith, cut-length bytes limits l d)

-- A packet that decodes from a buffer of bytes is well formed and within the limits; the number of
-- bytes consumed is its size, and as many stand in the buffer; and the encoder writes exactly those
-- bytes for it.
pub try_encode-decode_one_with :
    (bytes : Bytes) (limits : DecodeLimits) (p : Packet) (n : ℕ)
    → All IsByte bytes
    → decode_one_with bytes limits ≡ ok (some (p, n))
    → IsPacket p
      × Fits limits p
      × (n ≡ total_len p)
      × (n ≤ length bytes)
      × (try_encode p ≡ ok (take n bytes))
unfolding decode_one_with
try_encode-decode_one_with bytes limits p n v h =
    let (l, found, carved) = decoded_layout bytes (p, n) (frame_layout bytes limits) h in
    let d = frame_layout-Describes bytes limits l found in
    let whole : (cut bytes l, l.total) ≡ (p, n) = sym (carve-cut bytes limits l d) ∙ carved in
    let same : p ≡ cut bytes l = sym (ap (λ (x : Packet × ℕ). x.0) whole) in
    let used : n ≡ l.total = sym (ap (λ (x : Packet × ℕ). x.1) whole) in
    let (e, q) = cut-length bytes limits l d in
    rw (same, used)
      (
        cut-IsPacket bytes limits l v d,
        cut-Fits bytes limits l v d,
        total_cut bytes limits l d,
        d.available,
        try_encode-cut bytes limits l v d,
      )
