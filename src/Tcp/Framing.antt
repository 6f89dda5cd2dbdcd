-- ===== src/Tcp/Framing.antt =====
-- tcp.rs, `try_parse_next_packet`: its loop ends, and what each policy does with a bad header.
use msgtrans.Prelude.{
  ℕ, zero, suc, ◌+◌, ◌-◌, ◌≤◌, ◌<◌, ◌≡◌, refl, ap, ◌∙◌, Option, none, some, Result, ok, err, Bool,
  true, false, not, length, if◌then◌else◌, arith, length-drop, inl, inr, ◌⊎◌,
}
use msgtrans.Packet.{PacketError, frame_too_large}
use msgtrans.Packet.Codec.{frame_len}
use msgtrans.Packet.Stream.{frame_len_short}
use msgtrans.Tcp.Resync.{Resyncs, found, skipped, gave_up, try_resync_frame-Resyncs, any_header}
use msgtrans.Tcp.{
  ReadBuffer, is_valid_header_at, try_resync_frame, TcpError, packet, invalid_first_header,
  max_resync_scan_distance, buffer_overflow, Parsed, Round, answer, again, resynced,
  on_invalid_header, on_header_error, on_frame_len, parse_round, parse_loop, try_parse_next_packet,
}

-- Another round starts from a shorter buffer, and only under the lenient policy, after a packet.
pub record Shrinks (strict : Bool) (s s' : ReadBuffer) : Type 0 where
  lenient : strict ≡ false
  parsed : s.parsed_any ≡ true
  pub shorter : length s'.buffer < length s.buffer

resynced-Shrinks :
    (strict : Bool) (s s' : ReadBuffer) (r : Bool × ReadBuffer)
    → strict ≡ false
    → s.parsed_any ≡ true
    → 16 ≤ length s.buffer
    → Resyncs s r
    → resynced r ≡ again s'
    → Shrinks strict s s'
unfolding resynced
resynced-Shrinks strict s s' r l p n (found m a b v f e) h =
    let h' = rw e at h in ground (arith, length-drop (suc m) s.buffer)
resynced-Shrinks strict s s' r l p n (skipped a f e) h =
    let h' = rw e at h in ground (arith, length-drop max_resync_scan_distance s.buffer)
resynced-Shrinks strict s s' r l p n (gave_up a f e) h = let h' = rw e at h in cc

-- The three-way choice of `on_invalid_header` goes on only in its last branch.
invalid_choice :
    (strict parsed : Bool) (a b : Parsed) (z : Round) (s' : ReadBuffer)
    → (if strict then answer a else (if not parsed then answer b else z)) ≡ again s'
    → (strict ≡ false) × (parsed ≡ true) × (z ≡ again s')
invalid_choice true parsed a b z s' h = cc
invalid_choice false true a b z s' h = (refl, refl, h)
invalid_choice false false a b z s' h = cc

on_invalid_header-Shrinks :
    (strict : Bool) (s s' : ReadBuffer) (e : PacketError)
    → 16 ≤ length s.buffer
    → on_invalid_header strict s e ≡ again s'
    → Shrinks strict s s'
unfolding on_invalid_header
on_invalid_header-Shrinks strict s s' e n h =
    let (l, p, h') = invalid_choice strict s.parsed_any _ _ _ s' h in
    resynced-Shrinks strict s s' (try_resync_frame s) l p n (try_resync_frame-Resyncs s) h'

on_header_error-Shrinks :
    (strict : Bool) (s s' : ReadBuffer) (e : PacketError)
    → 16 ≤ length s.buffer
    → on_header_error strict s e ≡ again s'
    → Shrinks strict s s'
unfolding on_header_error
on_header_error-Shrinks strict s s' (frame_too_large declared limit) n h = cc
on_header_error-Shrinks strict s s' e n h = on_invalid_header-Shrinks strict s s' e n h

on_frame_len-Shrinks :
    (strict : Bool) (s s' : ReadBuffer) (r : Result PacketError (Option ℕ))
    → frame_len s.buffer s.decode ≡ r
    → on_frame_len strict s r ≡ again s'
    → Shrinks strict s s'
unfolding on_frame_len
on_frame_len-Shrinks strict s s' (ok (some total)) e h = cc
on_frame_len-Shrinks strict s s' (ok none) e h = cc
on_frame_len-Shrinks strict s s' (err x) e h =
    on_header_error-Shrinks strict s s' x (frame_len_short s.buffer s.decode x e) h

pub parse_round-Shrinks :
    (strict : Bool) (s s' : ReadBuffer) → parse_round strict s ≡ again s' → Shrinks strict s s'
unfolding parse_round
parse_round-Shrinks strict s s' h = on_frame_len-Shrinks strict s s' _ refl h

pub Round-cases : (o : Round) → ((r : Parsed) × (o ≡ answer r)) ⊎ ((s : ReadBuffer) × (o ≡ again s))
Round-cases (answer r) = inl (r, refl)
Round-cases (again s) = inr (s, refl)

parse_loop_total :
    (fuel : ℕ) (strict : Bool) (s : ReadBuffer)
    → length s.buffer < fuel
    → (r : Parsed) × (parse_loop fuel strict s ≡ some r)
unfolding parse_loop
parse_loop_total zero strict s h = absurd (omega arith)
parse_loop_total (suc fuel) strict s h = elim (Round-cases (parse_round strict s)) [
  | inl (r, e) ↦ (r, rw (e, parse_loop))
  | inr (s', e) ↦
      rw (e, parse_loop)
        (parse_loop_total fuel strict s' (omega (arith, parse_round-Shrinks strict s s' e)))
]

-- The parse loop ends on every buffer and under both policies, whatever the peer sent.
pub try_parse_next_packet_total :
    (strict : Bool) (s : ReadBuffer) → (r : Parsed) × (try_parse_next_packet strict s ≡ some r)
unfolding try_parse_next_packet
try_parse_next_packet_total strict s =
    parse_loop_total (suc (length s.buffer)) strict s (omega arith)

pub parse_loop_answer :
    (n : ℕ) (strict : Bool) (s : ReadBuffer) (r : Parsed)
    → parse_round strict s ≡ answer r
    → parse_loop (suc n) strict s ≡ some r
unfolding parse_loop
parse_loop_answer n strict s r e = rw (e, parse_loop)

-- Under the strict policy the first round answers.
pub strict-parse_round :
    (s : ReadBuffer) {r : Parsed}
    → try_parse_next_packet true s ≡ some r
    → parse_round true s ≡ answer r
unfolding try_parse_next_packet
strict-parse_round s {r} h = elim (Round-cases (parse_round true s)) [
  | inl (r', e) ↦
      let h' = parse_loop_answer (length s.buffer) true s r' e in
      let same : r' ≡ r = cc in e ∙ ap answer same
  | inr (s', e) ↦ let l = (parse_round-Shrinks true s s' e).lenient in cc
]

abbrev pub is_too_large : PacketError → Bool
is_too_large (frame_too_large declared limit) = true
is_too_large _ = false

on_header_error_invalid :
    (strict : Bool) (s : ReadBuffer) (e : PacketError)
    → is_too_large e ≡ false
    → on_header_error strict s e ≡ on_invalid_header strict s e
unfolding on_header_error
on_header_error_invalid strict s (frame_too_large declared limit) h = cc
on_header_error_invalid strict s e h = refl

parse_round-on_invalid_header :
    (strict : Bool) (s : ReadBuffer) (e : PacketError)
    → frame_len s.buffer s.decode ≡ err e
    → is_too_large e ≡ false
    → parse_round strict s ≡ on_invalid_header strict s e
unfolding parse_round on_frame_len
parse_round-on_invalid_header strict s e f h = rw f (on_header_error_invalid strict s e h)

any_header-false :
    (s : ReadBuffer) (lo n m : ℕ)
    → any_header s lo n ≡ false
    → m < n
    → is_valid_header_at s (lo + m) ≡ false
unfolding any_header
any_header-false s lo zero m h l = absurd (omega arith)
any_header-false s lo (suc n) zero h l = let e : lo + 0 ≡ lo = omega arith in rw e (ground arith)
any_header-false s lo (suc n) (suc m) h l =
    let e : lo + suc m ≡ lo + 1 + m = omega arith in
    rw e (any_header-false s (lo + 1) n m (ground arith) (omega arith))

gives_up :
    (s : ReadBuffer) (r : Bool × ReadBuffer)
    → length s.buffer ≤ max_resync_scan_distance
    → any_header s 1 (length s.buffer - 1) ≡ false
    → Resyncs s r
    → r ≡ (false, s)
gives_up s r l h (found m a b v f e) =
    let miss = any_header-false s 1 (length s.buffer - 1) m h (omega arith) in
    let here : 1 + m ≡ suc m = omega arith in let miss' = rw here at miss in cc
gives_up s r l h (skipped a f e) = absurd (omega arith)
gives_up s r l h (gave_up a f e) = e

-- How a buffer is refused whose front is no valid header, in which no other valid header stands.
unfoldable pub bad_front_error : Bool → Bool → PacketError → TcpError
bad_front_error true parsed_any e = packet e
bad_front_error false false e = invalid_first_header
bad_front_error false true e = buffer_overflow

invalid_choice_error :
    (strict parsed : Bool) (e : PacketError) (s : ReadBuffer) (z : Round)
    → z ≡ answer (err buffer_overflow, s)
    → (if strict
        then answer (err (packet e), s)
        else (if not parsed then answer (err invalid_first_header, s) else z))
      ≡ answer (err (bad_front_error strict parsed e), s)
unfolding bad_front_error
invalid_choice_error true parsed e s z h = refl
invalid_choice_error false false e s z h = refl
invalid_choice_error false true e s z h = h

-- When the front of the buffer is no valid header and none stands further on in up to 4096 bytes,
-- parsing fails at once and leaves the buffer as it was: with the parse error under the strict
-- policy, with `invalid_first_header` under the lenient one before any packet, and with
-- `buffer_overflow` under the lenient one after a packet. It does not wait for more bytes.
pub try_parse_next_packet_bad_front :
    (strict : Bool) (s : ReadBuffer) (e : PacketError)
    → frame_len s.buffer s.decode ≡ err e
    → is_too_large e ≡ false
    → length s.buffer ≤ max_resync_scan_distance
    → any_header s 1 (length s.buffer - 1) ≡ false
    → try_parse_next_packet strict s ≡ some (err (bad_front_error strict s.parsed_any e), s)
unfolding try_parse_next_packet on_invalid_header resynced
try_parse_next_packet_bad_front strict s e f t l h =
    let stop = gives_up s _ l h (try_resync_frame-Resyncs s) in
    parse_loop_answer (length s.buffer) strict s _ (
      parse_round-on_invalid_header strict s e f t
      ∙ invalid_choice_error strict s.parsed_any e s _ (rw (stop, resynced)))

-- A frame that declares more than the limits is refused under both policies, before any of its
-- bytes is consumed and without a resync.
pub try_parse_next_packet_too_large :
    (strict : Bool) (s : ReadBuffer) (declared limit : ℕ)
    → frame_len s.buffer s.decode ≡ err (frame_too_large declared limit)
    → try_parse_next_packet strict s ≡ some (err (packet (frame_too_large declared limit)), s)
unfolding try_parse_next_packet parse_round on_frame_len on_header_error
try_parse_next_packet_too_large strict s declared limit f =
    parse_loop_answer (length s.buffer) strict s _ (rw f)
