-- ===== src/Packet/ToyCodecs.antt =====
-- packet.rs: codecs that put a byte in front, for the tests of what compresses.
use msgtrans.Prelude.{
  ℕ, ◌≤◌, ◌≡◌, refl, [], ◌∷◌, ok, err, Result, true, String, ltb, length, take, if◌then◌else◌,
  arith,
}
use msgtrans.Packet.{Bytes}
use msgtrans.Packet.Compression.{Codecs, Laws}

abbrev pub toy_read : ℕ → Bytes → Result String Bytes
toy_read limit [] = err "empty"
toy_read limit (b ∷ bs) = ok (take limit bs)

abbrev pub toy_unpack : Bytes → ℕ → Result String Bytes
toy_unpack [] capacity = err "empty"
toy_unpack (b ∷ bs) capacity = if ltb capacity (length bs) then err "too long" else ok bs

abbrev pub toy_codecs : Codecs
toy_codecs = record {
  has_flate2 = true;
  has_zstd = true;
  zlib_encode = λ input. ok (120 ∷ input);
  zlib_read = toy_read;
  zstd_compress = λ input. ok (40 ∷ input);
  zstd_decompress = toy_unpack;
}

toy_read_round :
    (d out : Bytes) (limit : ℕ)
    → toy_codecs.zlib_encode d ≡ ok out
    → toy_read limit out ≡ ok (take limit d)
toy_read_round d out limit h = let e : 120 ∷ d ≡ out = cc in rw (← e) refl

toy_unpack_round :
    (d out : Bytes) (capacity : ℕ)
    → toy_codecs.zstd_compress d ≡ ok out
    → length d ≤ capacity
    → toy_unpack out capacity ≡ ok d
toy_unpack_round d out capacity h l = let e : 40 ∷ d ≡ out = cc in rw (← e) (ground arith)

toy_unpack_capacity :
    (d out : Bytes) (capacity : ℕ) → toy_unpack d capacity ≡ ok out → length out ≤ capacity
toy_unpack_capacity [] out capacity h = cc
toy_unpack_capacity (b ∷ bs) out capacity h = ground arith

pub toy_codecs-Laws : Laws toy_codecs
toy_codecs-Laws = record {
  zlib_round = toy_read_round;
  zstd_round = toy_unpack_round;
  zstd_capacity = toy_unpack_capacity;
}
