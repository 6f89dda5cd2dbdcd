-- ===== src/Tcp/Conservation.antt =====
-- tcp.rs under the strict policy: no byte of the stream is lost or delivered twice.
use msgtrans.Prelude.{
  ℕ, ◌≡◌, refl, sym, subst, ◌++◌, Option, none, some, Result, ok, err, true, take, All,
  take-append-drop,
}
use msgtrans.Packet.{Bytes, IsByte, PacketError, frame_too_large}
use msgtrans.Packet.Codec.{frame_len, try_encode}
use msgtrans.Packet.Canonical.{try_encode-decode_one_with}
use msgtrans.Packet.Framing.{frame_len-decode}
use msgtrans.Tcp.Framing.{strict-parse_round}
use msgtrans.Tcp.{
  ReadBuffer, TcpError, Parsed, answer, take_frame, on_frame_len, on_header_error,
  on_invalid_header, parse_round, try_parse_next_packet,
}

-- A packet takes exactly the bytes that encode it off the front of the buffer; any other answer
-- takes none.
abbrev pub Conserves : ReadBuffer → Parsed → Type 0
Conserves s (ok (some p), s') =
    (bytes : Bytes) × (try_encode p ≡ ok bytes) × (s.buffer ≡ bytes ++ s'.buffer)
Conserves s (ok none, s') = s' ≡ s
Conserves s (err e, s') = s' ≡ s

take_frame-Conserves :
    (s : ReadBuffer) (n : ℕ)
    → All IsByte s.buffer
    → frame_len s.buffer s.decode ≡ ok (some n)
    → Conserves s (take_frame s n)
unfolding take_frame
take_frame-Conserves s n v h =
    let (p, exact, one) = frame_len-decode s.buffer s.decode n h in
    let facts = try_encode-decode_one_with s.buffer s.decode p n v one in
    rw (exact, take_frame) (take n s.buffer, facts.4, sym (take-append-drop n s.buffer))

on_header_error_strict :
    (s : ReadBuffer) (e : PacketError)
    → (x : TcpError) × (on_header_error true s e ≡ answer (err x, s))
unfolding on_header_error on_invalid_header
on_header_error_strict s (frame_too_large declared limit) = (_, refl)
on_header_error_strict s e = (_, refl)

on_frame_len-Conserves :
    (s : ReadBuffer) (f : Result PacketError (Option ℕ)) (r : Parsed)
    → All IsByte s.buffer
    → frame_len s.buffer s.decode ≡ f
    → on_frame_len true s f ≡ answer r
    → Conserves s r
unfolding on_frame_len
on_frame_len-Conserves s (ok (some n)) r v e h =
    let same : take_frame s n ≡ r = cc in subst (Conserves s) same (take_frame-Conserves s n v e)
on_frame_len-Conserves s (ok none) r v e h =
    let same : (ok none, s) ≡ r = cc in subst (Conserves s) same refl
on_frame_len-Conserves s (err x) r v e h =
    let (y, eq) = on_header_error_strict s x in
    let same : (err y, s) ≡ r = cc in subst (Conserves s) same refl

-- Under the strict policy, parsing a buffer of bytes takes off its front exactly the encoding of the
-- packet that it returns, and nothing when it returns no packet or fails.
pub strict-Conserves :
    (s : ReadBuffer) (r : Parsed)
    → All IsByte s.buffer
    → try_parse_next_packet true s ≡ some r
    → Conserves s r
unfolding parse_round
strict-Conserves s r v h =
    on_frame_len-Conserves s (frame_len s.buffer s.decode) r v refl (strict-parse_round s h)
