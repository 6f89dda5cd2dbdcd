-- ===== src/Tcp/Chunks.antt =====
-- tcp.rs, the read side of the event loop over a whole connection.
use msgtrans.Prelude.{
  suc, ◌<◌, ◌≡◌, refl, sym, ap, subst, ◌∙◌, List, [], ◌∷◌, ◌++◌, none, some, ok, Bool, true, length,
  arith, All, All-append_right, append_assoc, append-nil,
}
use msgtrans.Packet.{Bytes, DecodeLimits, Packet, total_len}
use msgtrans.Packet.RoundTrip.{frame}
use msgtrans.Packet.Codec.{frame_len}
use msgtrans.Tcp.Delivery.{frames, Sendable, drain-Drained, frame_len-frame, frame_len_empty}
use msgtrans.Tcp.{ReadLoop, reading, on_read, read_loop, new_read_loop}

-- The bytes that arrive over some reads.
abbrev pub arriving : List (Bool × Bytes) → Bytes
arriving [] = []
arriving ((strict, chunk) ∷ chunks) = chunk ++ arriving chunks

-- A read that is not the end of the stream brings at least one byte.
abbrev pub IsRead : Bool × Bytes → Type 0
IsRead (strict, chunk) = 0 < length chunk

-- What the loop has delivered and what is still to be parsed or to come are the packets sent.
pub record Progress (limits : DecodeLimits) (all : List Packet) (rest : Bytes) (l : ReadLoop)
    : Type 0 where
  pub left : List Packet
  pub split : all ≡ l.delivered ++ left
  pub sendable : All (Sendable limits) left
  pub kept : (l.read).buffer ++ rest ≡ frames left
  pub same_limits : (l.read).decode ≡ limits
  pub waiting : frame_len (l.read).buffer limits ≡ ok none
  pub is_reading : l.state ≡ reading

regroup :
    (out done left sent : List Packet) → sent ≡ out ++ done → out ++ (done ++ left) ≡ sent ++ left
regroup out done left sent e = rw e (sym (append_assoc out done left))

module _ (deliver : List Packet → Packet → Bool)
    (accepts : (out : List Packet) (p : Packet) → deliver out p ≡ true) where
  on_read-Progress :
      (strict : Bool) (limits : DecodeLimits) (all : List Packet) (chunk rest : Bytes)
      (l : ReadLoop)
      → 0 < length chunk
      → Progress limits all (chunk ++ rest) l
      → Progress limits all rest (on_read deliver strict l chunk)
  unfolding on_read
  on_read-Progress strict limits all [] rest l n g = absurd (omega arith)
  on_read-Progress strict limits all (b ∷ bs) rest l n g =
      let s = record (l.read) { buffer = (l.read).buffer ++ (b ∷ bs) } in
      let fits = subst (λ x. All (Sendable x) g.left) (sym g.same_limits) g.sendable in
      let joined = append_assoc (l.read).buffer (b ∷ bs) rest ∙ g.kept in
      let d =
        drain-Drained deliver accepts (suc (length s.buffer)) strict s g.left l.delivered rest
          (omega arith) fits joined in
      record {
        left = d.left;
        split =
            g.split ∙ (ap (◌++◌ l.delivered) d.split ∙ regroup l.delivered d.done d.left _ d.sent);
        sendable =
            All-append_right (Sendable limits) d.done d.left
              (subst (All (Sendable limits)) d.split g.sendable);
        kept = d.kept;
        same_limits = d.same_limits ∙ g.same_limits;
        waiting =
            subst (λ x. frame_len (on_read deliver strict l (b ∷ bs)).read.buffer x ≡ ok none)
              g.same_limits d.waiting;
        is_reading = d.is_reading;
      }

  -- Whatever is still to come after these reads.
  pub read_loop-Progress :
      (limits : DecodeLimits) (all : List Packet) (chunks : List (Bool × Bytes)) (more : Bytes)
      (l : ReadLoop)
      → All IsRead chunks
      → Progress limits all (arriving chunks ++ more) l
      → Progress limits all more (read_loop deliver l chunks)
  unfolding read_loop
  read_loop-Progress limits all [] more l n g = g
  read_loop-Progress limits all ((strict, chunk) ∷ chunks) more l n g =
      let later = arriving chunks ++ more in
      let g' = subst (λ b. Progress limits all b l) (append_assoc chunk (arriving chunks) more) g in
      rw (g.is_reading, read_loop)
        (read_loop-Progress limits all chunks more _ n.1
          (on_read-Progress strict limits all chunk later l n.0 g'))

-- A new read loop that is to receive the frames of these packets.
pub new_read_loop-Progress :
    (limits : DecodeLimits) (ps : List Packet) (coming : Bytes)
    → All (Sendable limits) ps
    → coming ≡ frames ps
    → Progress limits ps coming (new_read_loop limits)
unfolding new_read_loop
new_read_loop-Progress limits ps coming v e = record {
  left = ps;
  split = refl;
  sendable = v;
  kept = e;
  same_limits = refl;
  waiting = frame_len_empty limits;
  is_reading = refl;
}

-- With nothing more to come, a buffer that holds no whole frame holds nothing.
nothing_left :
    (limits : DecodeLimits) (left : List Packet) (b : Bytes)
    → All (Sendable limits) left
    → b ++ [] ≡ frames left
    → frame_len b limits ≡ ok none
    → (left ≡ []) × (b ≡ [])
unfolding frames
nothing_left limits [] b v e w = (refl, sym (append-nil b) ∙ e)
nothing_left limits (p ∷ ps) b v e w =
    let whole : b ≡ frame p ++ frames ps = sym (append-nil b) ∙ e in
    let size = frame_len-frame p limits (frames ps) v.0 in
    let size' : frame_len b limits ≡ ok (some (total_len p)) =
      ap (λ x. frame_len x limits) whole ∙ size in
    cc

-- A peer that sends the frames of packets which the limits let through, to a consumer that takes
-- every packet: however the bytes are cut into non-empty reads, and whatever the policy at each, the
-- read loop delivers exactly these packets in order, keeps no byte, and goes on reading.
pub read_loop-frames :
    (deliver : List Packet → Packet → Bool) (limits : DecodeLimits) (ps : List Packet)
    (chunks : List (Bool × Bytes))
    → ((out : List Packet) (p : Packet) → deliver out p ≡ true)
    → All (Sendable limits) ps
    → All IsRead chunks
    → arriving chunks ≡ frames ps
    → let l = read_loop deliver (new_read_loop limits) chunks in
      (l.delivered ≡ ps) × ((l.read).buffer ≡ []) × (l.state ≡ reading)
read_loop-frames deliver limits ps chunks accepts v n e =
    let start =
      new_read_loop-Progress limits ps (arriving chunks ++ []) v
        (append-nil (arriving chunks) ∙ e) in
    let g = read_loop-Progress deliver accepts limits ps chunks [] (new_read_loop limits) n start in
    let (none_left, no_bytes) = nothing_left limits g.left _ g.sendable g.kept g.waiting in
    let all_sent : ps ≡ (read_loop deliver (new_read_loop limits) chunks).delivered =
      g.split ∙ (ap (◌++◌ _) none_left ∙ append-nil _) in
    (sym all_sent, no_bytes, g.is_reading)
