-- ===== src/Tcp/Integrity.antt =====
-- tcp.rs: under the strict policy the read loop makes nothing up, whatever the peer sends.
use msgtrans.Prelude.{
  ℕ, zero, suc, ◌≡◌, refl, sym, ap, ◌∙◌, inl, inr, List, [], ◌∷◌, ◌++◌, none, some, ok, err, Bool,
  true, length, All, All-append_left, All-append_right, ◌≢◌, subst, append_assoc, append-nil,
  Bool-cases,
}
use msgtrans.Packet.{Bytes, IsByte, DecodeLimits, Packet}
use msgtrans.Packet.Codec.{try_encode}
use msgtrans.Tcp.{
  ReadBuffer, try_parse_next_packet, ReadState, reading, closed_normal, closed_error, out_of_fuel,
  ReadLoop, drain, on_read, read_loop, new_read_loop,
}
use msgtrans.Tcp.Chunks.{arriving}
use msgtrans.Tcp.Framing.{try_parse_next_packet_total}
use msgtrans.Tcp.Conservation.{strict-Conserves}
use msgtrans.Tcp.Termination.{Parsed-cases}

-- The bytes are the encodings of the packets, one after the other.
abbrev pub Encodes : List Packet → Bytes → Type 0
Encodes [] b = b ≡ []
Encodes (p ∷ ps) b = (x : Bytes) × (y : Bytes) × (try_encode p ≡ ok x) × Encodes ps y × (b ≡ x ++ y)

Encodes-snoc :
    (ps : List Packet) (b : Bytes) (p : Packet) (x : Bytes)
    → Encodes ps b
    → try_encode p ≡ ok x
    → Encodes (ps ++ (p ∷ [])) (b ++ x)
Encodes-snoc [] b p x h e = (x, [], e, refl, rw h (sym (append-nil x)))
Encodes-snoc (q ∷ ps) b p x (u, v, eq, rest, split) e =
    (u, v ++ x, eq, Encodes-snoc ps v p x rest e, rw split (append_assoc u v x))

-- A read under the strict policy.
abbrev pub IsStrict : Bool × Bytes → Type 0
IsStrict (strict, chunk) = strict ≡ true

-- The packets delivered are the front of what was seen; while the loop is reading, the buffer is
-- the rest of it.
record Intact (seen : Bytes) (l : ReadLoop) : Type 0 where
  front : Bytes
  rest : Bytes
  encodes : Encodes l.delivered front
  split : seen ≡ front ++ rest
  kept : l.state ≡ reading → rest ≡ (l.read).buffer

module _ (deliver : List Packet → Packet → Bool) where
  drain-Intact :
      (fuel : ℕ) (s : ReadBuffer) (out : List Packet) (seen front : Bytes)
      → All IsByte s.buffer
      → Encodes out front
      → seen ≡ front ++ s.buffer
      → Intact seen (drain deliver fuel true s out)
  unfolding drain
  drain-Intact zero s out seen front v e h = record {
    front = front;
    rest = s.buffer;
    encodes = e;
    split = h;
    kept = λ x. refl;
  }
  drain-Intact (suc fuel) s out seen front v e h =
      let (r, run) = try_parse_next_packet_total true s in
      elim (Parsed-cases r) [
        | inl (p, s', c) ↦
            let run' : try_parse_next_packet true s ≡ some (ok (some p), s') = cc in
            let (x, enc, cut) = strict-Conserves s (ok (some p), s') v run' in
            let v' : All IsByte s'.buffer = All-append_right IsByte x s'.buffer (rw cut at v) in
            let h' : seen ≡ (front ++ x) ++ s'.buffer =
              h ∙ ap (λ y. front ++ y) cut ∙ sym (append_assoc front x s'.buffer) in
            let more =
              drain-Intact fuel s' (out ++ (p ∷ [])) seen (front ++ x) v'
                (Encodes-snoc out front p x e enc) h' in
            rw (run', drain)
              (elim (Bool-cases (deliver out p)) [
                | inl t ↦ rw t more
                | inr f ↦ rw f (record {
                  front = front;
                  rest = s.buffer;
                  encodes = e;
                  split = h;
                  kept = λ z. cc;
                })
              ])
        | inr (inl (s', c)) ↦
            let run' : try_parse_next_packet true s ≡ some (ok none, s') = cc in
            let same : s' ≡ s = strict-Conserves s (ok none, s') v run' in
            rw (run', drain)
              (record {
                front = front;
                rest = s.buffer;
                encodes = e;
                split = h;
                kept = λ z. ap (λ q. q.buffer) (sym same);
              })
        | inr (inr (x, s', c)) ↦
            let run' : try_parse_next_packet true s ≡ some (err x, s') = cc in
            rw (run', drain)
              (record { front = front; rest = s.buffer; encodes = e; split = h; kept = λ z. cc })
      ]

  on_read-Intact :
      (l : ReadLoop) (chunk seen : Bytes)
      → Intact seen l
      → l.state ≡ reading
      → All IsByte (seen ++ chunk)
      → Intact (seen ++ chunk) (on_read deliver true l chunk)
  unfolding on_read
  on_read-Intact l [] seen i g v = record {
    front = i.front;
    rest = i.rest;
    encodes = i.encodes;
    split = append-nil seen ∙ i.split;
    kept = λ x. cc;
  }
  on_read-Intact l (b ∷ bs) seen i g v =
      let s = record (l.read) { buffer = (l.read).buffer ++ (b ∷ bs) } in
      let h : seen ++ (b ∷ bs) ≡ i.front ++ s.buffer =
        ap (λ y. y ++ (b ∷ bs)) (i.split ∙ ap (λ y. i.front ++ y) (i.kept g))
        ∙ append_assoc i.front (l.read).buffer (b ∷ bs) in
      drain-Intact (suc (length s.buffer)) s l.delivered (seen ++ (b ∷ bs)) i.front
        (All-append_right IsByte i.front s.buffer (rw h at v)) i.encodes h

  goes_on :
      (seen : Bytes) (st : ReadState) (a l : ReadLoop)
      → (st ≡ reading → Intact seen a)
      → (st ≢ reading → Intact seen l)
      → Intact seen (elim st as (λ x. ReadLoop) [ reading ↦ a | _ ↦ l ])
  goes_on seen reading a l f g = f refl
  goes_on seen closed_normal a l f g = g (λ x. cc)
  goes_on seen (closed_error e) a l f g = g (λ x. cc)
  goes_on seen out_of_fuel a l f g = g (λ x. cc)

  read_loop-Intact :
      (l : ReadLoop) (chunks : List (Bool × Bytes)) (seen : Bytes)
      → Intact seen l
      → All IsStrict chunks
      → All IsByte (seen ++ arriving chunks)
      → Intact (seen ++ arriving chunks) (read_loop deliver l chunks)
  unfolding read_loop
  read_loop-Intact l [] seen i t v = rw (append-nil seen) i
  read_loop-Intact l ((strict, chunk) ∷ chunks) seen i t v =
      let group = append_assoc seen chunk (arriving chunks) in
      let next = on_read deliver strict l chunk in
      goes_on (seen ++ (chunk ++ arriving chunks)) l.state (read_loop deliver next chunks) l
        (λ g.
          let v' : All IsByte ((seen ++ chunk) ++ arriving chunks) = rw group v in
          let i' : Intact (seen ++ chunk) next = rw t.0 (
            on_read-Intact l chunk seen i g
              (All-append_left IsByte (seen ++ chunk) (arriving chunks) v')) in
          subst (λ y. Intact y (read_loop deliver next chunks)) group
            (read_loop-Intact next chunks (seen ++ chunk) i' t.1 v'))
        (λ g. record {
          front = i.front;
          rest = i.rest ++ (chunk ++ arriving chunks);
          encodes = i.encodes;
          split =
              ap (λ y. y ++ (chunk ++ arriving chunks)) i.split
              ∙ append_assoc i.front i.rest (chunk ++ arriving chunks);
          kept = λ x. absurd (g x);
        })

  -- When a peer sends bytes and the policy is strict at every read: however the bytes are cut into
  -- reads, and whatever the limits and the consumer, the packets delivered, in their order, are
  -- those whose encodings stand one after the other at the front of what was sent.
  pub read_loop-Encodes :
      (limits : DecodeLimits) (chunks : List (Bool × Bytes))
      → All IsStrict chunks
      → All IsByte (arriving chunks)
      → (front : Bytes) × (rest : Bytes) × Encodes
          (read_loop deliver (new_read_loop limits) chunks).delivered
          front
        × (arriving chunks ≡ front ++ rest)
  unfolding new_read_loop
  read_loop-Encodes limits chunks t v =
      let start : Intact [] (new_read_loop limits) = record {
        front = [];
        rest = [];
        encodes = refl;
        split = refl;
        kept = λ x. refl;
      } in
      let i = read_loop-Intact (new_read_loop limits) chunks [] start t v in
      (i.front, i.rest, i.encodes, i.split)
