-- ===== src/Events/Seen.antt =====
-- adapters/events.rs: in any interleaving the consumer sees what entered the queue, in order, and then
-- the end.
use msgtrans.Prelude.{
  ℕ, zero, suc, ◌≡◌, ◌≢◌, refl, sym, ap, ◌∙◌, inl, inr, List, [], ◌∷◌, ◌++◌, append-nil,
  append_assoc, Option, none, some, Bool, true, false, not, ◌&&◌, ◌||◌, replicate, if◌then◌else◌,
  Bool-cases, arith,
}
use msgtrans.Prelude.Map.{is_some}
use msgtrans.Packet.Compression.{Codecs}
use msgtrans.Events.{
  TransportEvent, connection_closed, message_sent, Queued, close, deliver, diagnostic, waits, ready,
  poll_next, next, end_of_data, terminal_reason, event_pipe_with_limit,
}
use msgtrans.Events.World.{
  World, is_done, offered, taken, settle, see, resume, cancel, admitted, forget, Act, delivers,
  resumes, cancels, diagnoses, closes, drops_sender, asks, polls, forgets, step, run, open_world,
}
use msgtrans.Events.Order.{
  events, somes, over, InOrder, Ordered, moved-Ordered, unmoved-Ordered, close-Sent, deliver-Sent,
  diagnostic-Moved, resume-Ordered, cancel-Ordered,
}

ended_again :
    (a : List (Option TransportEvent)) (o : Option TransportEvent) (n : ℕ)
    → (a ++ (o ∷ replicate n none)) ++ (none ∷ []) ≡ a ++ (o ∷ replicate (suc n) none)
ended_again [] o n = ap (◌∷◌ o) (one_more n)
  where
    one_more :
        (n : ℕ)
        → replicate {A = Option TransportEvent} n none ++ (none ∷ []) ≡ replicate (suc n) none
    one_more zero = refl
    one_more (suc n) = ap (◌∷◌ none) (one_more n)
ended_again (x ∷ a) o n = ap (◌∷◌ x) (ended_again a o n)

end_of_data-Ordered :
    (w : World)
    → (w.pipe).queue ≡ []
    → over w.pipe ≡ true
    → Ordered w
    → Ordered (see w (end_of_data w.pipe))
unfolding end_of_data see
end_of_data-Ordered w q v h = elim h.order_ok [
  | inl (e, o) ↦ simp e (record {
    shut_ok = h.shut_ok;
    order_ok = inr (0, refl, q, v, ap (λ a. a ++ (last ∷ [])) (whole o));
  })
  | inr (n, e, empty, v, o) ↦ simp e (record {
    shut_ok = h.shut_ok;
    order_ok =
        inr (
          suc n,
          e,
          empty,
          v,
          ap (λ a. a ++ (none ∷ [])) o ∙ ended_again (somes w.accepted) last n,
        );
  })
]
  where
    last : Option TransportEvent
    last = some (connection_closed (terminal_reason (w.pipe).close_reason))

    whole : w.seen ++ somes (events (w.pipe).queue) ≡ somes w.accepted → w.seen ≡ somes w.accepted
    whole o = sym (append-nil w.seen) ∙ rw q at o

-- The synchronous check of the watch cell, and the arm that the cell fires.
abbrev shut : World → World
shut w = record w { pipe = record (w.pipe) { intake_open = false } }

shut-Ordered : (w : World) → is_some (w.pipe).close_reason ≡ true → Ordered w → Ordered (shut w)
shut-Ordered w c h = record {
  shut_ok = rw c refl;
  order_ok = elim h.order_ok [
    | inl x ↦ inl x
    | inr (n, e, empty, v, o) ↦ inr (n, e, empty, rw c refl, o)
  ];
}

taken-Ordered :
    (w : World) (item : Queued) (rest : List Queued)
    → (w.pipe).queue ≡ item ∷ rest
    → Ordered w
    → Ordered (
        see w (
          ready (some item.event),
          record (w.pipe) { queue = rest; retained = item.held ∷ (w.pipe).retained },
        ))
unfolding see
taken-Ordered w item rest q h = record {
  shut_ok = h.shut_ok;
  order_ok = elim h.order_ok [
    | inl (e, o) ↦
        inl (e, append_assoc w.seen (some item.event ∷ []) (somes (events rest)) ∙ rw q at o)
    | inr (n, e, empty, v, o) ↦ absurd (filled (sym q ∙ empty))
  ];
}
  where
    filled : item ∷ rest ≢ []
    filled h = cc

poll_next-Ordered : (w : World) → Ordered w → Ordered (see w (poll_next w.pipe))
unfolding poll_next see
poll_next-Ordered w h = by_queue (w.pipe).queue refl
  where
    waiting :
        (b : Bool)
        → (not (w.pipe).close_emitted && is_some (w.pipe).close_reason) ≡ b
        → (w.pipe).queue ≡ []
        → Ordered (
            see w (
              if b then end_of_data (record (w.pipe) { intake_open = false }) else (waits, w.pipe)))
    waiting true t q =
        let c : is_some (w.pipe).close_reason ≡ true = ground arith in
        end_of_data-Ordered (shut w) q (rw c refl) (shut-Ordered w c h)
    waiting false t q = h

    idle :
        (b : Bool)
        → (not (w.pipe).intake_open || not (w.pipe).sender_alive) ≡ b
        → (w.pipe).queue ≡ []
        → Ordered (
            see w (
              if b
              then end_of_data w.pipe
              else (if not (w.pipe).close_emitted && is_some (w.pipe).close_reason
                  then end_of_data (record (w.pipe) { intake_open = false })
                  else (waits, w.pipe))))
    idle true t q =
        let v : over w.pipe ≡ true = ground (arith, h.shut_ok) in end_of_data-Ordered w q v h
    idle false t q = waiting (not (w.pipe).close_emitted && is_some (w.pipe).close_reason) refl q

    by_queue :
        (q : List Queued)
        → (w.pipe).queue ≡ q
        → Ordered (
            see w (elim q [
              | item ∷ rest ↦ (
                ready (some item.event),
                record (w.pipe) { queue = rest; retained = item.held ∷ (w.pipe).retained },
              )
              | [] ↦
                  if not (w.pipe).intake_open || not (w.pipe).sender_alive
                  then end_of_data w.pipe
                  else (if not (w.pipe).close_emitted && is_some (w.pipe).close_reason
                      then end_of_data (record (w.pipe) { intake_open = false })
                      else (waits, w.pipe))
            ]))
    by_queue (item ∷ rest) q = taken-Ordered w item rest q h
    by_queue [] q = idle (not (w.pipe).intake_open || not (w.pipe).sender_alive) refl q

next-Ordered : (w : World) → Ordered w → Ordered (see w (next w.pipe))
unfolding next see
next-Ordered w h = elim (Bool-cases (not (w.pipe).close_emitted && is_some (w.pipe).close_reason)) [
  | inl t ↦
      let c : is_some (w.pipe).close_reason ≡ true = ground arith in
      rw t (poll_next-Ordered (shut w) (shut-Ordered w c h))
  | inr t ↦ rw t (poll_next-Ordered w h)
]

while_alive :
    (w after : World)
    → ((w.pipe).sender_alive ≡ true → Ordered w → Ordered after)
    → Ordered w
    → Ordered (if (w.pipe).sender_alive then after else w)
while_alive w after keeps h = elim (Bool-cases (w.pipe).sender_alive) [
  | inl t ↦ simp t (keeps t h)
  | inr t ↦ simp t h
]

dropped-Ordered :
    (w : World) → Ordered w → Ordered (record w { pipe = record (w.pipe) { sender_alive = false } })
dropped-Ordered w h = record {
  shut_ok = h.shut_ok;
  order_ok = elim h.order_ok [
    | inl x ↦ inl x
    | inr (n, e, empty, v, o) ↦
        inr (n, e, empty, or_true (not (w.pipe).intake_open && is_some (w.pipe).close_reason), o)
  ];
}
  where
    or_true : (b : Bool) → (b || true) ≡ true
    or_true true = refl
    or_true false = refl

step-Ordered : (c : Codecs) (w : World) (a : Act) → Ordered w → Ordered (step c w a)
unfolding step settle
step-Ordered c w (delivers event) h =
    elim (Bool-cases ((w.pipe).sender_alive && is_done w.delivering)) [
      | inl t ↦
          let (d, p) = deliver c w.pipe event in
          rw t (
            moved-Ordered w p d (taken d (offered c w.pipe event)) (deliver-Sent c w.pipe event)
              (ground arith) h)
      | inr t ↦ rw t h
    ]
step-Ordered c w (resumes b) h = while_alive w (resume w b) (resume-Ordered w b) h
step-Ordered c w cancels h = while_alive w (cancel w) (cancel-Ordered w) h
step-Ordered c w (diagnoses packet_id) h =
    let event = message_sent packet_id in
    while_alive w _
      (moved-Ordered w (diagnostic w.pipe event) w.delivering (admitted w.pipe event)
        (diagnostic-Moved w.pipe event))
      h
step-Ordered c w (closes reason) h =
    while_alive w _
      (unmoved-Ordered w (close w.pipe reason) w.delivering
        (close-Sent w.pipe reason (connection_closed reason)))
      h
step-Ordered c w drops_sender h = elim (Bool-cases (is_done w.delivering)) [
  | inl t ↦ rw t (dropped-Ordered w h)
  | inr t ↦ rw t h
]
step-Ordered c w asks h = next-Ordered w h
step-Ordered c w polls h = poll_next-Ordered w h
step-Ordered c w (forgets i) h =
    unfold forget in record { shut_ok = h.shut_ok; order_ok = h.order_ok }

run-Ordered : (c : Codecs) (w : World) (acts : List Act) → Ordered w → Ordered (run c w acts)
unfolding run
run-Ordered c w [] h = h
run-Ordered c w (a ∷ acts) h = run-Ordered c (step c w a) acts (step-Ordered c w a h)

-- In any interleaving of an adapter and a consumer on a new pipe, the consumer sees the events that
-- entered the queue, each once and in order: until the close, what it has seen and what is queued
-- is what entered; from then on it has seen all that entered, then exactly one `ConnectionClosed`
-- with the published reason, or the abnormal one when none was published, and then only `None`.
pub run-InOrder :
    (c : Codecs) (capacity max_payload_size buffer_bytes : ℕ) (acts : List Act)
    → InOrder (run c (open_world capacity max_payload_size buffer_bytes) acts)
run-InOrder c capacity max_payload_size buffer_bytes acts =
    (run-Ordered c (open_world capacity max_payload_size buffer_bytes) acts start).order_ok
  where
    start : Ordered (open_world capacity max_payload_size buffer_bytes)
    start =
        unfold open_world event_pipe_with_limit in
        record { shut_ok = refl; order_ok = inl (refl, refl) }
