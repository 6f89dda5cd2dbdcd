-- ===== src/Packet/Compression.antt =====
-- packet.rs, `compress_payload` and `decompress_payload` with the functions below them. The codecs
-- are those of the flate2 and zstd crates, a parameter here.
use msgtrans.Prelude.{
  ℕ, suc, zero, ◌+◌, ◌-◌, ◌*◌, ◌^◌, ◌≤◌, ◌<◌, ◌≡◌, refl, sym, ap, ◌∙◌, ◌⊎◌, inl, inr, [], ◌∷◌,
  Result, ok, err, ◌>>=◌, map_err, Bool, true, false, length, take, ltb, min, String, if◌then◌else◌,
  arith,
}
use msgtrans.Packet.{
  Bytes, CompressionType, no_compression, zlib, zstd, PacketError, compression_error, codec_error,
  payload_exceeds, unsupported_compression, Packet,
}

abbrev pub max_decompressed_payload_size : ℕ
max_decompressed_payload_size = 16 * 1024 * 1024

-- The calls of the crates, and whether they are built in. `zlib_read limit` reads up to `limit` bytes
-- of the decoder's output; the second argument of `zstd_decompress` is the capacity.
pub record Codecs : Type 0 where
  pub has_flate2 : Bool
  pub has_zstd : Bool
  pub zlib_encode : Bytes → Result String Bytes
  pub zlib_read : ℕ → Bytes → Result String Bytes
  pub zstd_compress : Bytes → Result String Bytes
  pub zstd_decompress : Bytes → ℕ → Result String Bytes

-- What the crates document: each decoder undoes its encoder, a limited reader stops at its limit,
-- and zstd's bulk decoder fills no more than the capacity that it is given.
pub record Laws (c : Codecs) : Type 0 where
  pub zlib_round :
      (input out : Bytes) (limit : ℕ)
      → c.zlib_encode input ≡ ok out
      → c.zlib_read limit out ≡ ok (take limit input)
  pub zstd_round :
      (input out : Bytes) (capacity : ℕ)
      → c.zstd_compress input ≡ ok out
      → length input ≤ capacity
      → c.zstd_decompress out capacity ≡ ok input
  pub zstd_capacity :
      (input out : Bytes) (capacity : ℕ)
      → c.zstd_decompress input capacity ≡ ok out
      → length out ≤ capacity

abbrev codec_fault : String → PacketError
codec_fault message = compression_error (codec_error message)

unfoldable pub compress_data : Codecs → Bytes → CompressionType → Result PacketError Bytes
compress_data c input no_compression = ok input
compress_data c input zlib =
    if c.has_flate2
    then map_err codec_fault (c.zlib_encode input)
    else err (unsupported_compression "flate2 feature not enabled")
compress_data c input zstd =
    if c.has_zstd
    then map_err codec_fault (c.zstd_compress input)
    else err (unsupported_compression "zstd feature not enabled")

-- The decoder's output is refused when it is longer than the limit.
unfoldable pub within : ℕ → Bytes → Result PacketError Bytes
within max_size result =
    if ltb max_size (length result)
    then err (compression_error (payload_exceeds max_size))
    else ok result

unfoldable pub decompress_data_with_limit :
    Codecs → Bytes → CompressionType → ℕ → Result PacketError Bytes
unfolding within
decompress_data_with_limit c input no_compression max_size = ok input
decompress_data_with_limit c input zlib max_size =
    if c.has_flate2
    then (map_err codec_fault (c.zlib_read (min (max_size + 1) (2 ^ 64 - 1)) input)
        >>= within max_size)
    else err (unsupported_compression "flate2 feature not enabled")
decompress_data_with_limit c input zstd max_size =
    if c.has_zstd
    then map_err codec_fault (c.zstd_decompress input max_size)
    else err (unsupported_compression "zstd feature not enabled")

abbrev with_payload : Packet → Bytes → Packet
with_payload p payload = record p { payload = payload }

-- `compress_payload` under a compression type. On an error the packet stays as it was.
unfoldable pub compress_as : Codecs → Packet → CompressionType → Result PacketError Packet
compress_as c p no_compression = ok p
compress_as c p kind = do payload ← compress_data c p.payload kind; ok (with_payload p payload)

unfoldable pub compress_payload : Codecs → Packet → Result PacketError Packet
unfolding compress_as
compress_payload c p = compress_as c p (p.header).compression

unfoldable pub decompress_as : Codecs → Packet → CompressionType → ℕ → Result PacketError Packet
decompress_as c p no_compression max_size = ok p
decompress_as c p kind max_size = do
  payload ← decompress_data_with_limit c p.payload kind max_size
  ok (with_payload p payload)

unfoldable pub decompress_payload_with_limit : Codecs → Packet → ℕ → Result PacketError Packet
unfolding decompress_as
decompress_payload_with_limit c p max_size = decompress_as c p (p.header).compression max_size

unfoldable pub decompress_payload : Codecs → Packet → Result PacketError Packet
unfolding decompress_payload_with_limit
decompress_payload c p = decompress_payload_with_limit c p max_decompressed_payload_size

-- What a result that is not an error came from.
enabled_ok :
    {A : Type 0} (b : Bool) (r : Result PacketError A) (e : PacketError) (a : A)
    → (if b then r else err e) ≡ ok a
    → (b ≡ true) × (r ≡ ok a)
enabled_ok true r e a h = (refl, h)
enabled_ok false r e a h = cc

map_err_ok : (r : Result String Bytes) (a : Bytes) → map_err codec_fault r ≡ ok a → r ≡ ok a
map_err_ok (ok x) a h = cc
map_err_ok (err e) a h = cc

within_ok : (m : ℕ) (xs out : Bytes) → within m xs ≡ ok out → length out ≤ m
unfolding within
within_ok m xs out h = ground arith

within_short : (m : ℕ) (xs : Bytes) → length xs ≤ m → within m xs ≡ ok xs
unfolding within
within_short m xs h = ground arith

bind_within :
    (m : ℕ) (r : Result PacketError Bytes) (out : Bytes)
    → (r >>= within m) ≡ ok out
    → length out ≤ m
bind_within m (ok xs) out h = within_ok m xs out h
bind_within m (err e) out h = cc

take_long : (n : ℕ) (xs : Bytes) → length xs ≤ n → take n xs ≡ xs
take_long zero [] h = refl
take_long zero (x ∷ xs) h = absurd (omega arith)
take_long (suc n) [] h = refl
take_long (suc n) (x ∷ xs) h = ap (◌∷◌ x) (take_long n xs (omega arith))

bind_packet :
    (r : Result PacketError Bytes) (p q : Packet)
    → (r >>= (λ payload. ok (with_payload p payload))) ≡ ok q
    → (out : Bytes) × (r ≡ ok out) × (q ≡ with_payload p out)
bind_packet (ok out) p q h = (out, refl, cc)
bind_packet (err e) p q h = cc

module _ (c : Codecs) (laws : Laws c) where
  data_round :
      (d out : Bytes) (k : CompressionType) (m : ℕ)
      → compress_data c d k ≡ ok out
      → length d ≤ m
      → m < 2 ^ 64
      → decompress_data_with_limit c out k m ≡ ok d
  unfolding compress_data decompress_data_with_limit
  data_round d out no_compression m h l b = ap ok (let e = h in cc)
  data_round d out zlib m h l b =
      let (on, made) = enabled_ok c.has_flate2 (map_err codec_fault (c.zlib_encode d)) _ out h in
      let limit = min (m + 1) (2 ^ 64 - 1) in
      let back = laws.zlib_round d out limit (map_err_ok (c.zlib_encode d) out made) in
      rw (on, back, take_long limit d (omega arith)) (within_short m d l)
  data_round d out zstd m h l b =
      let (on, made) = enabled_ok c.has_zstd (map_err codec_fault (c.zstd_compress d)) _ out h in
      rw (on, laws.zstd_round d out m (map_err_ok (c.zstd_compress d) out made) l) refl

  data_bound :
      (d out : Bytes) (k : CompressionType) (m : ℕ)
      → decompress_data_with_limit c d k m ≡ ok out
      → (length out ≤ m) ⊎ (k ≡ no_compression)
  unfolding decompress_data_with_limit
  data_bound d out no_compression m h = inr refl
  data_bound d out zlib m h =
      let limit = min (m + 1) (2 ^ 64 - 1) in
      let r = map_err codec_fault (c.zlib_read limit d) in
      inl (bind_within m r out (enabled_ok c.has_flate2 (r >>= within m) _ out h).1)
  data_bound d out zstd m h =
      let made = enabled_ok c.has_zstd (map_err codec_fault (c.zstd_decompress d m)) _ out h in
      inl (laws.zstd_capacity d out m (map_err_ok (c.zstd_decompress d m) out made.1))

  as_round :
      (p q : Packet) (k : CompressionType) (m : ℕ)
      → compress_as c p k ≡ ok q
      → length p.payload ≤ m
      → m < 2 ^ 64
      → (decompress_as c q k m ≡ ok p) × (q.header ≡ p.header)
  unfolding compress_as decompress_as
  as_round p q no_compression m h l b =
      let e : p ≡ q = cc in (ap ok (sym e), ap (λ x. x.header) (sym e))
  as_round p q zlib m h l b =
      let (out, made, same) = bind_packet (compress_data c p.payload zlib) p q h in
      rw same (rw (data_round p.payload out zlib m made l b) (refl, refl))
  as_round p q zstd m h l b =
      let (out, made, same) = bind_packet (compress_data c p.payload zstd) p q h in
      rw same (rw (data_round p.payload out zstd m made l b) (refl, refl))

  -- With codecs that keep their laws, a packet that was compressed decompresses to the packet that
  -- it was, under any limit below 2 ^ 64 that its payload keeps.
  pub decompress_payload_with_limit-compress_payload :
      (p q : Packet) (m : ℕ)
      → compress_payload c p ≡ ok q
      → length p.payload ≤ m
      → m < 2 ^ 64
      → decompress_payload_with_limit c q m ≡ ok p
  unfolding compress_payload decompress_payload_with_limit
  decompress_payload_with_limit-compress_payload p q m h l b =
      let (back, same) = as_round p q (p.header).compression m h l b in
      ap (λ x. decompress_as c q x.compression m) same ∙ back

  as_bound :
      (p q : Packet) (k : CompressionType) (m : ℕ)
      → decompress_as c p k m ≡ ok q
      → ((length q.payload ≤ m) ⊎ (k ≡ no_compression))
        × (q.header ≡ p.header)
        × (q.ext_header ≡ p.ext_header)
  unfolding decompress_as
  as_bound p q no_compression m h =
      let e : p ≡ q = cc in (inr refl, ap (λ x. x.header) (sym e), ap (λ x. x.ext_header) (sym e))
  as_bound p q zlib m h =
      let (out, made, same) = bind_packet (decompress_data_with_limit c p.payload zlib m) p q h in
      rw same (data_bound p.payload out zlib m made, refl, refl)
  as_bound p q zstd m h =
      let (out, made, same) = bind_packet (decompress_data_with_limit c p.payload zstd m) p q h in
      rw same (data_bound p.payload out zstd m made, refl, refl)

  -- Whatever a compressed payload holds, decompressing it yields at most the limit's bytes or an
  -- error, and leaves the header and the extension header as they are.
  pub decompress_payload_with_limit_bounded :
      (p q : Packet) (m : ℕ)
      → decompress_payload_with_limit c p m ≡ ok q
      → ((length q.payload ≤ m) ⊎ ((p.header).compression ≡ no_compression))
        × (q.header ≡ p.header)
        × (q.ext_header ≡ p.ext_header)
  unfolding decompress_payload_with_limit
  decompress_payload_with_limit_bounded p q m h = as_bound p q (p.header).compression m h
