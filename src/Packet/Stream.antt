-- ===== src/Packet/Stream.antt =====
-- packet.rs, the decoder at the front of a growing buffer.
use msgtrans.Prelude.{
  ℕ, ◌-◌, ◌≤◌, ◌<◌, ◌≡◌, refl, ◌++◌, Option, none, some, Result, ok, err, ◌>>=◌, length, drop, take,
  ltb, arith, length-append, take-append_le, drop-append_le, length-drop, length-take, take_all,
  inl, inr, ◌≢◌, ◌⊎◌, Bool-cases,
}
use msgtrans.Packet.{Bytes, PacketError, DecodeLimits}
use msgtrans.Packet.Canonical.{Describes, frame_layout-Describes}
use msgtrans.Packet.Codec.{
  slice, FrameLayout, check_layout, frame_layout, carve, decode_one_with, map_layout, frame_len,
}

pub frame_layout-append :
    (bytes more : Bytes) (limits : DecodeLimits)
    → frame_layout bytes limits ≢ ok none
    → frame_layout (bytes ++ more) limits ≡ frame_layout bytes limits
unfolding frame_layout check_layout
frame_layout-append bytes more limits h = elim (Bool-cases (ltb (length bytes) 16)) [
  | inl short ↦ absurd (h (rw short))
  | inr long ↦
      let same = take-append_le 16 bytes more (ground arith) in
      ground (arith, same, length-append bytes more)
]

-- `Ok(None)` is only said of a buffer shorter than a fixed header or than the frame cap.
pub decode_one_with-none :
    (bytes : Bytes) (limits : DecodeLimits)
    → decode_one_with bytes limits ≡ ok none
    → (length bytes < 16) ⊎ (length bytes < limits.max_frame_size)
unfolding decode_one_with frame_layout check_layout
decode_one_with-none bytes limits h = ground arith

-- From 16 bytes on, an error is decided by the first 16 bytes.
pub decode_one_with-header :
    (bytes : Bytes) (limits : DecodeLimits) (e : PacketError)
    → 16 ≤ length bytes
    → (decode_one_with bytes limits ≡ err e → decode_one_with (take 16 bytes) limits ≡ err e)
      × (decode_one_with (take 16 bytes) limits ≡ err e → decode_one_with bytes limits ≡ err e)
unfolding decode_one_with frame_layout check_layout
decode_one_with-header bytes limits e h =
    ground (arith, take_all 16 (take 16 bytes), length-take 16 bytes)

slice-append :
    (lo hi : ℕ) (bytes more : Bytes)
    → lo ≤ hi
    → hi ≤ length bytes
    → slice lo hi (bytes ++ more) ≡ slice lo hi bytes
slice-append lo hi bytes more p q =
    rw (drop-append_le lo bytes more (omega arith))
      (take-append_le (hi - lo) (drop lo bytes) more (omega (arith, length-drop lo bytes)))

-- The parts that `carve` cuts out do not change when bytes are added behind the frame.
pub carve-append :
    (bytes more : Bytes) (limits : DecodeLimits) (l : FrameLayout)
    → Describes bytes limits l
    → carve (bytes ++ more) l ≡ carve bytes l
unfolding carve
carve-append bytes more limits l d = ground (
  arith,
  slice-append 16 l.ext_end bytes more (omega arith) (omega arith),
  slice-append l.ext_end l.total bytes more (omega arith) (omega arith),
)

decode_append :
    (bytes more : Bytes) (limits : DecodeLimits) (r : Result PacketError (Option FrameLayout))
    → frame_layout bytes limits ≡ r
    → r ≢ ok none
    → (r >>= λ layout. ok (map_layout (carve (bytes ++ more)) layout))
      ≡ (r >>= λ layout. ok (map_layout (carve bytes) layout))
decode_append bytes more limits (ok none) e h = absurd (h refl)
decode_append bytes more limits (ok (some l)) e h =
    rw (carve-append bytes more limits l (frame_layout-Describes bytes limits l e))
decode_append bytes more limits (err x) e h = refl

decided :
    (bytes : Bytes) (limits : DecodeLimits)
    → decode_one_with bytes limits ≢ ok none
    → frame_layout bytes limits ≢ ok none
unfolding decode_one_with
decided bytes limits h e = h (rw e)

-- Once the decoder has said anything but "more bytes are needed", a packet or an error, bytes that
-- arrive later do not change what it says.
pub decode_one_with-append :
    (bytes more : Bytes) (limits : DecodeLimits)
    → decode_one_with bytes limits ≢ ok none
    → decode_one_with (bytes ++ more) limits ≡ decode_one_with bytes limits
unfolding decode_one_with
decode_one_with-append bytes more limits h =
    let known = decided bytes limits h in
    rw (frame_layout-append bytes more limits known)
      (decode_append bytes more limits (frame_layout bytes limits) refl known)

pub frame_len-append :
    (bytes more : Bytes) (limits : DecodeLimits)
    → frame_len bytes limits ≢ ok none
    → frame_len (bytes ++ more) limits ≡ frame_len bytes limits
unfolding frame_len
frame_len-append bytes more limits h =
    let known : frame_layout bytes limits ≢ ok none = λ e. h (rw e) in
    rw (frame_layout-append bytes more limits known)

-- Fewer than 16 bytes are never an error.
pub frame_len_short :
    (bytes : Bytes) (limits : DecodeLimits) (e : PacketError)
    → frame_len bytes limits ≡ err e
    → 16 ≤ length bytes
unfolding frame_len frame_layout
frame_len_short bytes limits e h = ground arith
