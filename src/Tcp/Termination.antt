-- ===== src/Tcp/Termination.antt =====
-- tcp.rs: the read loop's bound on its rounds is enough, whatever the peer sends.
use msgtrans.Prelude.{
  ℕ, zero, suc, ◌≤◌, ◌<◌, ◌≡◌, ◌≢◌, refl, ◌⊎◌, inl, inr, List, [], ◌∷◌, ◌++◌, Option, none, some,
  Result, ok, err, Bool, true, false, not, if◌then◌else◌, length, length-drop, Bool-cases, arith,
}
use msgtrans.Packet.{Bytes, DecodeLimits, Packet, PacketError, frame_too_large}
use msgtrans.Packet.Codec.{frame_len, frame_layout, check_layout}
use msgtrans.Tcp.{
  ReadBuffer, Parsed, TcpError, Round, answer, resynced, on_invalid_header, on_header_error,
  on_frame_len, parse_round, parse_loop, try_parse_next_packet, take_frame, try_resync_frame,
  ReadState, reading, closed_normal, closed_error, out_of_fuel, ReadLoop, drain, on_read, read_loop,
  new_read_loop,
}
use msgtrans.Tcp.Framing.{try_parse_next_packet_total, parse_round-Shrinks, Round-cases}

frame_len_bounds :
    (b : Bytes) (limits : DecodeLimits) (n : ℕ)
    → frame_len b limits ≡ ok (some n)
    → (16 ≤ n) × (n ≤ length b)
unfolding frame_len frame_layout check_layout
frame_len_bounds b limits n h = ground arith

take_frame_shorter :
    (s s' : ReadBuffer) (n : ℕ) (p : Packet)
    → frame_len s.buffer s.decode ≡ ok (some n)
    → take_frame s n ≡ (ok (some p), s')
    → length s'.buffer < length s.buffer
unfolding take_frame
take_frame_shorter s s' n p f h =
    let b = frame_len_bounds s.buffer s.decode n f in ground (arith, length-drop n s.buffer)

resynced_no_packet :
    (r : Bool × ReadBuffer) (p : Packet) (s' : ReadBuffer) → resynced r ≢ answer (ok (some p), s')
unfolding resynced
resynced_no_packet (true, s) p s' h = cc
resynced_no_packet (false, s) p s' h = cc

choice_no_packet :
    (strict parsed : Bool) (x y : TcpError) (s s' : ReadBuffer) (z : Round) (p : Packet)
    → z ≢ answer (ok (some p), s')
    → (if strict then answer (err x, s) else (if not parsed then answer (err y, s) else z))
      ≢ answer (ok (some p), s')
choice_no_packet true parsed x y s s' z p n h = cc
choice_no_packet false true x y s s' z p n h = n h
choice_no_packet false false x y s s' z p n h = cc

header_error_no_packet :
    (strict : Bool) (s : ReadBuffer) (e : PacketError) (p : Packet) (s' : ReadBuffer)
    → on_invalid_header strict s e ≢ answer (ok (some p), s')
unfolding on_invalid_header
header_error_no_packet strict s e p s' =
    choice_no_packet strict s.parsed_any _ _ s s' (resynced (try_resync_frame s)) p
      (resynced_no_packet (try_resync_frame s) p s')

on_frame_len_shorter :
    (strict : Bool) (s s' : ReadBuffer) (f : Result PacketError (Option ℕ)) (p : Packet)
    → frame_len s.buffer s.decode ≡ f
    → on_frame_len strict s f ≡ answer (ok (some p), s')
    → length s'.buffer < length s.buffer
unfolding on_frame_len on_header_error
on_frame_len_shorter strict s s' (ok (some n)) p e h = take_frame_shorter s s' n p e cc
on_frame_len_shorter strict s s' (ok none) p e h = cc
on_frame_len_shorter strict s s' (err (frame_too_large d l)) p e h = cc
on_frame_len_shorter strict s s' (err x) p e h = absurd (header_error_no_packet strict s x p s' h)

parse_loop_shorter :
    (fuel : ℕ) (strict : Bool) (s s' : ReadBuffer) (p : Packet)
    → parse_loop fuel strict s ≡ some (ok (some p), s')
    → length s'.buffer < length s.buffer
unfolding parse_loop parse_round
parse_loop_shorter zero strict s s' p h = cc
parse_loop_shorter (suc fuel) strict s s' p h = elim (Round-cases (parse_round strict s)) [
  | inl (r, e) ↦
      on_frame_len_shorter strict s s' (frame_len s.buffer s.decode) p refl
        (let h' = rw (e, parse_loop) at h in cc)
  | inr (s1, e) ↦
      let rest = parse_loop_shorter fuel strict s1 s' p (rw (e, parse_loop) at h) in
      omega (arith, rest, (parse_round-Shrinks strict s s1 e).shorter)
]

pub Parsed-cases :
    (r : Parsed)
    → ((p : Packet) × (s : ReadBuffer) × (r ≡ (ok (some p), s)))
      ⊎ (((s : ReadBuffer) × (r ≡ (ok none, s)))
          ⊎ ((e : TcpError) × (s : ReadBuffer) × (r ≡ (err e, s))))
Parsed-cases (ok (some p), s) = inl (p, s, refl)
Parsed-cases (ok none, s) = inr (inl (s, refl))
Parsed-cases (err e, s) = inr (inr (e, s, refl))

module _ (deliver : List Packet → Packet → Bool) where
  drain_ends :
      (fuel : ℕ) (strict : Bool) (s : ReadBuffer) (out : List Packet)
      → length s.buffer < fuel
      → (drain deliver fuel strict s out).state ≢ out_of_fuel
  unfolding drain try_parse_next_packet
  drain_ends zero strict s out h = absurd (omega arith)
  drain_ends (suc fuel) strict s out h =
      let (r, e) = try_parse_next_packet_total strict s in
      elim (Parsed-cases r) [
        | inl (p, s', c) ↦
            let e' : try_parse_next_packet strict s ≡ some (ok (some p), s') = cc in
            let less = parse_loop_shorter (suc (length s.buffer)) strict s s' p e' in
            let more = drain_ends fuel strict s' (out ++ (p ∷ [])) (omega arith) in
            rw (e', drain)
              (elim (Bool-cases (deliver out p)) [ inl t ↦ rw t more | inr f ↦ rw f (λ x. cc) ])
        | inr (inl (s', c)) ↦
            let e' : try_parse_next_packet strict s ≡ some (ok none, s') = cc in
            rw (e', drain) (λ x. cc)
        | inr (inr (x, s', c)) ↦
            let e' : try_parse_next_packet strict s ≡ some (err x, s') = cc in
            rw (e', drain) (λ y. cc)
      ]

  on_read_ends :
      (strict : Bool) (l : ReadLoop) (chunk : Bytes)
      → (on_read deliver strict l chunk).state ≢ out_of_fuel
  unfolding on_read
  on_read_ends strict l [] = λ x. cc
  on_read_ends strict l (b ∷ bs) =
      let s = record (l.read) { buffer = (l.read).buffer ++ (b ∷ bs) } in
      drain_ends (suc (length s.buffer)) strict s l.delivered (omega arith)

  go_on :
      (st : ReadState) (a l : ReadLoop)
      → a.state ≢ out_of_fuel
      → l.state ≢ out_of_fuel
      → (elim st as (λ x. ReadLoop) [ reading ↦ a | _ ↦ l ]).state ≢ out_of_fuel
  go_on reading a l h g = h
  go_on closed_normal a l h g = g
  go_on (closed_error e) a l h g = g
  go_on out_of_fuel a l h g = g

  read_loop_from :
      (l : ReadLoop) (chunks : List (Bool × Bytes))
      → l.state ≢ out_of_fuel
      → (read_loop deliver l chunks).state ≢ out_of_fuel
  unfolding read_loop
  read_loop_from l [] h = h
  read_loop_from l ((strict, chunk) ∷ chunks) h =
      go_on l.state (read_loop deliver (on_read deliver strict l chunk) chunks) l
        (read_loop_from (on_read deliver strict l chunk) chunks (on_read_ends strict l chunk)) h

  -- Whatever the peer sends and however it is cut into reads, under any limits, policies and
  -- consumer, the read loop is never short of rounds: after every read it waits for the next or has
  -- ended with a reason.
  pub read_loop_ends :
      (limits : DecodeLimits) (chunks : List (Bool × Bytes))
      → (read_loop deliver (new_read_loop limits) chunks).state ≢ out_of_fuel
  unfolding new_read_loop
  read_loop_ends limits chunks = read_loop_from (new_read_loop limits) chunks (λ x. cc)
