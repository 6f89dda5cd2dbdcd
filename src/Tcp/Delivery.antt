-- ===== src/Tcp/Delivery.antt =====
-- tcp.rs, the read loop on the bytes of a sequence of packets, however the socket cuts them up.
use msgtrans.Prelude.{
  ℕ, zero, suc, ◌≤◌, ◌<◌, ◌≡◌, refl, sym, ap, ◌∙◌, List, [], ◌∷◌, ◌++◌, Option, none, some, Result,
  ok, err, Bool, true, length, drop, take, arith, inl, inr, ◌⊎◌, ◌≢◌, All, append_assoc, append-nil,
  take-append-drop, take-append_le, drop-append_le, take_append_length, drop_append_length,
  length-append,
}
use msgtrans.Packet.{Bytes, PacketError, DecodeLimits, Packet, IsPacket, total_len}
use msgtrans.Packet.Codec.{
  frame_len, frame_layout, decode_exact_from, decode_exact_with, decode_one_from, decode_one_with,
  Fits, check_layout,
}
use msgtrans.Packet.RoundTrip.{frame, frame_layout-frame, length-frame, exact-frame}
use msgtrans.Packet.Stream.{frame_len-append}
use msgtrans.Tcp.Framing.{parse_loop_answer}
use msgtrans.Tcp.{
  ReadBuffer, take_frame, answer, on_frame_len, parse_round, try_parse_next_packet, ReadLoop,
  reading, drain,
}

-- The bytes that a peer sends for some packets, one after the other.
unfoldable pub frames : List Packet → Bytes
frames [] = []
frames (p ∷ ps) = frame p ++ frames ps

-- Packets that the connection's limits let through.
abbrev pub Sendable : DecodeLimits → Packet → Type 0
Sendable limits p = IsPacket p × Fits limits p

pub frame_len-frame :
    (p : Packet) (limits : DecodeLimits) (rest : Bytes)
    → Sendable limits p
    → frame_len (frame p ++ rest) limits ≡ ok (some (total_len p))
unfolding frame_len total_len
frame_len-frame p limits rest v = rw (frame_layout-frame p limits rest v.0 v.1)

frame_len-le :
    (b : Bytes) (limits : DecodeLimits) (n : ℕ) → frame_len b limits ≡ ok (some n) → n ≤ length b
unfolding frame_len frame_layout check_layout
frame_len-le b limits n h = ground arith

exact_from-frame :
    (p : Packet) (limits : DecodeLimits)
    → Sendable limits p
    → decode_exact_from (frame p) limits ≡ ok p
unfolding decode_exact_from decode_exact_with decode_one_from decode_one_with
exact_from-frame p limits v = exact-frame p limits v.0 v.1

take_total : (p : Packet) (rest : Bytes) → take (total_len p) (frame p ++ rest) ≡ frame p
take_total p rest = rw (← length-frame p) (take_append_length (frame p) rest)

drop_total : (p : Packet) (rest : Bytes) → drop (total_len p) (frame p ++ rest) ≡ rest
drop_total p rest = rw (← length-frame p) (drop_append_length (frame p) rest)

-- The buffer with its front parsed off.
abbrev parsed_off : ReadBuffer → Bytes → ReadBuffer
parsed_off s rest = record s { buffer = rest; parsed_any = true }

take_frame-frame :
    (s : ReadBuffer) (p : Packet) (rest : Bytes)
    → s.buffer ≡ frame p ++ rest
    → Sendable s.decode p
    → take_frame s (total_len p) ≡ (ok (some p), parsed_off s rest)
unfolding take_frame
take_frame-frame s p rest e v =
    let front : take (total_len p) s.buffer ≡ frame p =
      ap (take (total_len p)) e ∙ take_total p rest in
    let back : drop (total_len p) s.buffer ≡ rest = ap (drop (total_len p)) e ∙ drop_total p rest in
    rw (front, take_frame) (rw (exact_from-frame p s.decode v, back))

parse_frame :
    (strict : Bool) (s : ReadBuffer) (p : Packet) (rest : Bytes)
    → s.buffer ≡ frame p ++ rest
    → Sendable s.decode p
    → try_parse_next_packet strict s ≡ some (ok (some p), parsed_off s rest)
unfolding try_parse_next_packet parse_round on_frame_len
parse_frame strict s p rest e v =
    let size : frame_len s.buffer s.decode ≡ ok (some (total_len p)) =
      ap (λ b. frame_len b s.decode) e ∙ frame_len-frame p s.decode rest v in
    parse_loop_answer (length s.buffer) strict s _
      (rw size (ap answer (take_frame-frame s p rest e v)))

parse_wait :
    (strict : Bool) (s : ReadBuffer)
    → frame_len s.buffer s.decode ≡ ok none
    → try_parse_next_packet strict s ≡ some (ok none, s)
unfolding try_parse_next_packet parse_round on_frame_len
parse_wait strict s h = parse_loop_answer (length s.buffer) strict s _ (rw h)

-- A buffer in which the decoder finds a frame, when with the bytes still to come it begins with the
-- frame of `p`, begins with that frame itself.
whole_frame :
    (p : Packet) (limits : DecodeLimits) (b rest tail : Bytes)
    → Sendable limits p
    → b ++ rest ≡ frame p ++ tail
    → frame_len b limits ≢ ok none
    → (b ≡ frame p ++ drop (total_len p) b) × (drop (total_len p) b ++ rest ≡ tail)
whole_frame p limits b rest tail v e h =
    let size : frame_len b limits ≡ ok (some (total_len p)) =
      sym (frame_len-append b rest limits h)
      ∙ (ap (λ x. frame_len x limits) e ∙ frame_len-frame p limits tail v) in
    let fits = frame_len-le b limits (total_len p) size in
    let front : take (total_len p) b ≡ frame p =
      sym (take-append_le (total_len p) b rest fits)
      ∙ (ap (take (total_len p)) e ∙ take_total p tail) in
    let back : drop (total_len p) b ++ rest ≡ tail =
      sym (drop-append_le (total_len p) b rest fits)
      ∙ (ap (drop (total_len p)) e ∙ drop_total p tail) in
    (sym (take-append-drop (total_len p) b) ∙ ap (λ x. x ++ drop (total_len p) b) front, back)

shorter :
    (p : Packet) (b : Bytes)
    → b ≡ frame p ++ drop (total_len p) b
    → length (drop (total_len p) b) < length b
unfolding total_len
shorter p b e =
    omega (arith, ap length e, length-append (frame p) (drop (total_len p) b), length-frame p)

waits? : (r : Result PacketError (Option ℕ)) → (r ≡ ok none) ⊎ (r ≢ ok none)
waits? (ok none) = inl refl
waits? (ok (some n)) = inr (λ e. cc)
waits? (err e) = inr (λ x. cc)

pub frame_len_empty : (limits : DecodeLimits) → frame_len [] limits ≡ ok none
unfolding frame_len frame_layout
frame_len_empty limits = refl

pub append_empty : (xs ys : Bytes) → xs ++ ys ≡ [] → xs ≡ []
append_empty [] ys h = refl
append_empty (x ∷ xs) ys h = cc

-- A packet of `ps` is delivered or left; what is left is still to be parsed or to come.
pub record Drained (limits : DecodeLimits) (ps out : List Packet) (rest : Bytes) (l : ReadLoop)
    : Type 0 where
  pub done : List Packet
  pub left : List Packet
  pub split : ps ≡ done ++ left
  pub sent : l.delivered ≡ out ++ done
  pub kept : (l.read).buffer ++ rest ≡ frames left
  pub same_limits : (l.read).decode ≡ limits
  pub waiting : frame_len (l.read).buffer limits ≡ ok none
  pub is_reading : l.state ≡ reading

Drained-more :
    (limits : DecodeLimits) (p : Packet) (ps out : List Packet) (rest : Bytes) (l : ReadLoop)
    → Drained limits ps (out ++ (p ∷ [])) rest l
    → Drained limits (p ∷ ps) out rest l
Drained-more limits p ps out rest l d = record {
  done = p ∷ d.done;
  left = d.left;
  split = ap (◌∷◌ p) d.split;
  sent = d.sent ∙ append_assoc out (p ∷ []) d.done;
  kept = d.kept;
  same_limits = d.same_limits;
  waiting = d.waiting;
  is_reading = d.is_reading;
}

module _ (deliver : List Packet → Packet → Bool)
    (accepts : (out : List Packet) (p : Packet) → deliver out p ≡ true) where
  drain_wait :
      (fuel : ℕ) (strict : Bool) (s : ReadBuffer) (ps out : List Packet) (rest : Bytes)
      → s.buffer ++ rest ≡ frames ps
      → frame_len s.buffer s.decode ≡ ok none
      → Drained s.decode ps out rest (drain deliver (suc fuel) strict s out)
  unfolding drain
  drain_wait fuel strict s ps out rest e w =
      rw (parse_wait strict s w, drain)
        record {
          done = [];
          left = ps;
          split = refl;
          sent = sym (append-nil out);
          kept = e;
          same_limits = refl;
          waiting = w;
          is_reading = refl;
        }

  pub drain-Drained :
      (fuel : ℕ) (strict : Bool) (s : ReadBuffer) (ps out : List Packet) (rest : Bytes)
      → length s.buffer < fuel
      → All (Sendable s.decode) ps
      → s.buffer ++ rest ≡ frames ps
      → Drained s.decode ps out rest (drain deliver fuel strict s out)
  unfolding drain frames
  drain-Drained zero strict s ps out rest h v e = absurd (omega arith)
  drain-Drained (suc fuel) strict s [] out rest h v e =
      let empty : s.buffer ≡ [] = append_empty s.buffer rest e in
      drain_wait fuel strict s [] out rest e
        (ap (λ b. frame_len b s.decode) empty ∙ frame_len_empty s.decode)
  drain-Drained (suc fuel) strict s (p ∷ ps) out rest h v e =
      elim (waits? (frame_len s.buffer s.decode)) [
        | inl w ↦ drain_wait fuel strict s (p ∷ ps) out rest e w
        | inr here ↦
            let (front, back) = whole_frame p s.decode s.buffer rest (frames ps) v.0 e here in
            let b = drop (total_len p) s.buffer in
            let more = Drained-more s.decode p ps out rest _ (
              drain-Drained fuel strict (parsed_off s b) ps (out ++ (p ∷ [])) rest
                (omega (arith, shorter p s.buffer front)) v.1 back) in
            rw (parse_frame strict s p b front v.0, drain) (rw (accepts out p) more)
      ]
