-- ===== src/Tcp.antt =====
-- crates/msgtrans/src/adapters/tcp.rs: the read buffer and the read half of the event loop; the write half is in
-- Write.
-- The buffer's capacity and its return to the memory pool are not modelled; a socket read appends
-- the bytes that arrived.
pub mod Resync
pub mod Framing
pub mod Delivery
pub mod Chunks
pub mod Write
pub mod Written
pub mod Link
pub mod Conservation
pub mod Termination
pub mod Integrity
mod Tests
use msgtrans.Prelude.{
  ℕ, zero, suc, ◌+◌, ◌-◌, ◌≤◌, ◌<◌, List, [], ◌∷◌, ◌++◌, Option, none, some, Result, ok, err, Bool,
  true, false, not, length, drop, take, get_or, ltb, ◌==◌, if◌then◌else◌, min,
}
use msgtrans.Packet.{Bytes, DecodeLimits, Packet, PacketError, fixed_header_size, frame_too_large}
use msgtrans.Packet.Header.{u16_from_be_bytes, u32_from_be_bytes}
use msgtrans.Packet.Codec.{slice, frame_len, decode_exact_from}

abbrev pub max_resync_scan_distance : ℕ
max_resync_scan_distance = 4096

-- `TcpError`, as far as parsing gives rise to it.
pub data TcpError : Type 0 where
  packet : PacketError → TcpError
  invalid_first_header : TcpError
  buffer_overflow : TcpError

pub record ReadBuffer : Type 0 where
  pub buffer : Bytes
  pub parsed_any : Bool
  pub decode : DecodeLimits

-- The tests on the 16 bytes of a candidate header, in the source's order.
unfoldable pub is_valid_header : DecodeLimits → Bytes → Bool
unfolding u16_from_be_bytes u32_from_be_bytes
is_valid_header limits header =
    if not (byte 0 == 1)
    then false
    else (if ltb 2 (byte 1)
        then false
        else (if ltb 2 (byte 2)
            then false
            else (if ltb limits.max_ext_header_size (u16_from_be_bytes (byte 8) (byte 9))
                then false
                else (if ltb limits.max_payload_size
                      (u32_from_be_bytes (byte 10) (byte 11) (byte 12) (byte 13))
                    then false
                    else true))))
  where
    byte : ℕ → ℕ
    byte i = get_or header i 0

unfoldable pub is_valid_header_at : ReadBuffer → ℕ → Bool
is_valid_header_at s offset =
    if ltb (length s.buffer) (offset + fixed_header_size)
    then false
    else is_valid_header s.decode (slice offset (offset + fixed_header_size) s.buffer)

-- `for offset in lo..lo + n`: the first offset with a valid header.
unfoldable pub scan : ReadBuffer → ℕ → ℕ → Option ℕ
scan s lo zero = none
scan s lo (suc n) =
    let rest = scan s (lo + 1) n in if is_valid_header_at s lo then some lo else rest

-- `self.buffer.split_to(n)`, the front being dropped.
abbrev pub discard : ReadBuffer → ℕ → ReadBuffer
discard s n = record s { buffer = drop n s.buffer }

unfoldable pub after_scan : ReadBuffer → Option ℕ → Bool × ReadBuffer
after_scan s (some offset) = (true, discard s offset)
after_scan s none =
    if ltb max_resync_scan_distance (length s.buffer)
    then (true, discard s max_resync_scan_distance)
    else (false, s)

unfoldable pub try_resync_frame : ReadBuffer → Bool × ReadBuffer
unfolding after_scan
try_resync_frame s =
    let scan_limit = min (length s.buffer) max_resync_scan_distance in
    after_scan s (scan s 1 (scan_limit - 1))

abbrev pub Parsed : Type 0
Parsed = Result TcpError (Option Packet) × ReadBuffer

-- A complete frame at the front: split it off and decode it.
unfoldable pub take_frame : ReadBuffer → ℕ → Parsed
take_frame s total = elim (decode_exact_from (take total s.buffer) s.decode) [
  | ok p ↦ (ok (some p), record (discard s total) { parsed_any = true })
  | err e ↦ (err (packet e), discard s total)
]

-- What one round of the parse loop decides: an answer, or another round on a resynced buffer.
pub data Round : Type 0 where
  answer : Parsed → Round
  again : ReadBuffer → Round

unfoldable pub resynced : Bool × ReadBuffer → Round
resynced (true, s) = again s
resynced (false, s) = answer (err buffer_overflow, s)

-- An invalid version, packet type or compression at the front of the stream.
unfoldable pub on_invalid_header : Bool → ReadBuffer → PacketError → Round
on_invalid_header strict s e =
    if strict
    then answer (err (packet e), s)
    else (if not s.parsed_any
        then answer (err invalid_first_header, s)
        else resynced (try_resync_frame s))

unfoldable pub on_header_error : Bool → ReadBuffer → PacketError → Round
on_header_error strict s (frame_too_large declared limit) =
    answer (err (packet (frame_too_large declared limit)), s)
on_header_error strict s e = on_invalid_header strict s e

unfoldable pub on_frame_len : Bool → ReadBuffer → Result PacketError (Option ℕ) → Round
unfolding on_header_error
on_frame_len strict s (ok (some total)) = answer (take_frame s total)
on_frame_len strict s (ok none) = answer (ok none, s)
on_frame_len strict s (err e) = on_header_error strict s e

unfoldable pub parse_round : Bool → ReadBuffer → Round
unfolding on_frame_len
parse_round strict s = on_frame_len strict s (frame_len s.buffer s.decode)

-- The `loop` of `try_parse_next_packet`; `none` means that the fuel ran out.
unfoldable pub parse_loop : ℕ → Bool → ReadBuffer → Option Parsed
parse_loop zero strict s = none
parse_loop (suc fuel) strict s = elim (parse_round strict s) [
  | answer r ↦ some r
  | again s' ↦ parse_loop fuel strict s'
]

-- Each further round starts from a shorter buffer, so its length and one more are enough rounds.
unfoldable pub try_parse_next_packet : Bool → ReadBuffer → Option Parsed
unfolding parse_loop
try_parse_next_packet strict s = parse_loop (suc (length s.buffer)) strict s

-- Why the read future ended, or that it waits for the socket.
pub data ReadState : Type 0 where
  reading : ReadState
  closed_normal : ReadState
  closed_error : TcpError → ReadState
  out_of_fuel : ReadState

pub record ReadLoop : Type 0 where
  pub read : ReadBuffer
  pub delivered : List Packet
  pub state : ReadState

-- The inner loop of the event loop: parse and deliver until the buffer holds no whole packet.
-- `deliver` says whether the event pipe takes a packet, given those that it took before.
module _ (deliver : List Packet → Packet → Bool) where
  unfoldable pub drain : ℕ → Bool → ReadBuffer → List Packet → ReadLoop
  drain zero strict s out = record { read = s; delivered = out; state = out_of_fuel }
  drain (suc fuel) strict s out = elim (try_parse_next_packet strict s) [
    | none ↦ record { read = s; delivered = out; state = out_of_fuel }
    | some (ok (some p), s') ↦
        let more = drain fuel strict s' (out ++ (p ∷ [])) in
        if deliver out p then more else record { read = s'; delivered = out; state = closed_normal }
    | some (ok none, s') ↦ record { read = s'; delivered = out; state = reading }
    | some (err e, s') ↦ record { read = s'; delivered = out; state = closed_error e }
  ]

  -- One successful read of the socket: `Ok(0)` is the end of the stream.
  unfoldable pub on_read : Bool → ReadLoop → Bytes → ReadLoop
  on_read strict l [] = record l { state = closed_normal }
  on_read strict l (b ∷ bs) =
      let s = record (l.read) { buffer = (l.read).buffer ++ (b ∷ bs) } in
      drain (suc (length s.buffer)) strict s l.delivered

  -- The reads one after the other, for as long as the loop is reading; the frame policy is looked
  -- up again after each.
  unfoldable pub read_loop : ReadLoop → List (Bool × Bytes) → ReadLoop
  read_loop l [] = l
  read_loop l ((strict, chunk) ∷ chunks) = elim l.state [
    | reading ↦ read_loop (on_read strict l chunk) chunks
    | _ ↦ l
  ]

unfoldable pub new_read_loop : DecodeLimits → ReadLoop
new_read_loop limits = record {
  read = record { buffer = []; parsed_any = false; decode = limits };
  delivered = [];
  state = reading;
}
