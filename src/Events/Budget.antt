-- ===== src/Events/Budget.antt =====
-- adapters/events.rs and adapters/budget.rs: the bounds of the queue in any interleaving. The builders of
-- transport/limits.rs clamp the budget to at most 1 GiB.
use msgtrans.Prelude.{
  ℕ, ◌+◌, ◌^◌, ◌≤◌, ◌<◌, ◌≡◌, refl, ◌∙◌, List, [], ◌∷◌, ◌++◌, Option, Bool, true, false, ◌&&◌,
  length, if◌then◌else◌, if-both, All, arith,
}
use msgtrans.Packet.Compression.{Codecs, Laws}
use msgtrans.Events.{
  TransportEvent, message_received, Queued, Pipe, Delivering, done, charging, sending, poll_send,
  poll_charge, deliver, Next, waits, ready, refuse, event_pipe_with_limit,
}
use msgtrans.Events.World.{
  World, is_done, offered, settle, see, resume, cancel, Act, delivers, resumes, cancels, diagnoses,
  closes, drops_sender, asks, polls, forgets, step, run, open_world,
}
use msgtrans.Events.Bounded.{
  ItemOk, Waiting, waiting_held, total, held_sum, queued_bytes, Kept, Polled, poll_send-Polled,
  poll_charge-Polled, deliver-Polled, close-Kept, diagnostic-Kept,
}
use msgtrans.Events.Consumer.{poll_next-Kept, next-Kept, forget-Kept}

-- The pipe keeps its bounds, and each permit is with the semaphore, the queue, the consumer or the
-- call that waits.
record Within (capacity m bytes : ℕ) (w : World) : Type 0 where
  capacity_ok : (w.pipe).capacity ≡ capacity
  max_ok : (w.pipe).max_payload_size ≡ m
  budget_ok : (w.pipe).budget_capacity ≡ bytes
  room_ok : length (w.pipe).queue ≤ capacity
  items_ok : All (ItemOk m) (w.pipe).queue
  waiting_ok : Waiting m w.delivering
  permits_ok :
      (w.pipe).permits
        + (held_sum (w.pipe).queue + (total (w.pipe).retained + waiting_held w.delivering))
      ≡ bytes

module _ (capacity m bytes : ℕ) where
  -- A poll of the adapter's, after which the call stands at `d`.
  settle-Within :
      (w : World) (event : TransportEvent) (r : Delivering × Pipe)
      → Polled w.pipe (waiting_held w.delivering) r
      → Within capacity m bytes w
      → Within capacity m bytes (settle w event r)
  unfolding settle
  settle-Within w event (d, p) k h =
      let s = k.kept in
      record {
        capacity_ok = s.capacity_ok ∙ h.capacity_ok;
        max_ok = s.max_ok ∙ h.max_ok;
        budget_ok = s.budget_ok ∙ h.budget_ok;
        room_ok = rw h.capacity_ok at (s.room_ok (rw h.capacity_ok h.room_ok));
        items_ok = rw h.max_ok at (s.items_ok (rw h.max_ok h.items_ok));
        waiting_ok = rw h.max_ok at k.waiting;
        permits_ok = s.permits_ok ∙ h.permits_ok;
      }

  -- An act on the pipe alone.
  pipe-Within :
      (w : World) (p : Pipe) (accepted : List TransportEvent) (seen : List (Option TransportEvent))
      → ((n : ℕ) → Kept w.pipe p n n)
      → Within capacity m bytes w
      → Within capacity m bytes
          (record { pipe = p; delivering = w.delivering; accepted = accepted; seen = seen })
  pipe-Within w p accepted seen k h =
      let s = k (waiting_held w.delivering) in
      record {
        capacity_ok = s.capacity_ok ∙ h.capacity_ok;
        max_ok = s.max_ok ∙ h.max_ok;
        budget_ok = s.budget_ok ∙ h.budget_ok;
        room_ok = rw h.capacity_ok at (s.room_ok (rw h.capacity_ok h.room_ok));
        items_ok = rw h.max_ok at (s.items_ok (rw h.max_ok h.items_ok));
        waiting_ok = h.waiting_ok;
        permits_ok = s.permits_ok ∙ h.permits_ok;
      }

  see-Within :
      (w : World) (r : Next × Pipe)
      → ((n : ℕ) → Kept w.pipe r.1 n n)
      → Within capacity m bytes w
      → Within capacity m bytes (see w r)
  unfolding see
  see-Within w (waits, p) k h = pipe-Within w p w.accepted w.seen k h
  see-Within w (ready o, p) k h = pipe-Within w p w.accepted (w.seen ++ (o ∷ [])) k h

  cancel-Within : (w : World) → Within capacity m bytes w → Within capacity m bytes (cancel w)
  unfolding cancel
  cancel-Within w h = by_state w.delivering refl
    where
      by_state :
          (d : Delivering)
          → w.delivering ≡ d
          → Within capacity m bytes (elim d [
            | done b ↦ w
            | charging q ↦ record w { delivering = done false }
            | sending item ↦ record w { pipe = (refuse w.pipe item).1; delivering = done false }
          ])
      by_state (done b) e = h
      by_state (charging q) e = record {
        capacity_ok = h.capacity_ok;
        max_ok = h.max_ok;
        budget_ok = h.budget_ok;
        room_ok = h.room_ok;
        items_ok = h.items_ok;
        waiting_ok = tt;
        permits_ok = rw e at h.permits_ok;
      }
      by_state (sending item) e =
          let g = rw e at h.permits_ok in
          record {
            capacity_ok = h.capacity_ok;
            max_ok = h.max_ok;
            budget_ok = h.budget_ok;
            room_ok = h.room_ok;
            items_ok = h.items_ok;
            waiting_ok = tt;
            permits_ok = omega (arith, g);
          }

  resume-Within :
      (w : World) (b : Bool)
      → bytes < 2 ^ 32
      → Within capacity m bytes w
      → Within capacity m bytes (resume w b)
  unfolding resume
  resume-Within w b l h = by_state w.delivering refl
    where
      by_state :
          (d : Delivering)
          → w.delivering ≡ d
          → Within capacity m bytes (elim d [
            | done x ↦ w
            | charging q ↦ settle w (message_received q) (poll_charge w.pipe q)
            | sending item ↦ settle w item.event (poll_send w.pipe item b)
          ])
      by_state (done x) e = h
      by_state (charging q) e =
          let fits = rw e at h.waiting_ok in
          settle-Within w _ _
            (rw e (poll_charge-Polled w.pipe q (rw h.budget_ok l) (rw h.max_ok fits))) h
      by_state (sending item) e =
          let fits = rw e at h.waiting_ok in
          settle-Within w _ _ (rw e (poll_send-Polled w.pipe item b (rw h.max_ok fits))) h

idle_holds : (d : Delivering) → is_done d ≡ true → waiting_held d ≡ 0
idle_holds (done b) h = refl
idle_holds (charging q) h = refl
idle_holds (sending item) h = cc

module _ (capacity m bytes : ℕ) where
  while_alive :
      (w after : World)
      → Within capacity m bytes after
      → Within capacity m bytes w
      → Within capacity m bytes (if (w.pipe).sender_alive then after else w)
  while_alive w after a h =
      if-both (Within capacity m bytes) (w.pipe).sender_alive after w (λ _. a) (λ _. h)

  step-Within :
      (c : Codecs) (w : World) (a : Act)
      → Laws c
      → bytes < 2 ^ 32
      → Within capacity m bytes w
      → Within capacity m bytes (step c w a)
  unfolding step
  step-Within c w (delivers event) laws l h =
      if-both (Within capacity m bytes) ((w.pipe).sender_alive && is_done w.delivering)
        (settle w (offered c w.pipe event) (deliver c w.pipe event)) w
        (λ t.
          let free : waiting_held w.delivering ≡ 0 = idle_holds w.delivering (ground arith) in
          settle-Within capacity m bytes w _ _
            (rw free (deliver-Polled c w.pipe event laws (rw h.budget_ok l))) h)
        (λ _. h)
  step-Within c w (resumes b) laws l h = while_alive w _ (resume-Within capacity m bytes w b l h) h
  step-Within c w cancels laws l h = while_alive w _ (cancel-Within capacity m bytes w h) h
  step-Within c w (diagnoses packet_id) laws l h =
      while_alive w _
        (pipe-Within capacity m bytes w _ _ w.seen (diagnostic-Kept w.pipe packet_id) h) h
  step-Within c w (closes reason) laws l h =
      while_alive w _
        (pipe-Within capacity m bytes w _ w.accepted w.seen (close-Kept w.pipe reason) h) h
  step-Within c w drops_sender laws l h =
      if-both (Within capacity m bytes) (is_done w.delivering) _ w
        (λ _. record {
          capacity_ok = h.capacity_ok;
          max_ok = h.max_ok;
          budget_ok = h.budget_ok;
          room_ok = h.room_ok;
          items_ok = h.items_ok;
          waiting_ok = h.waiting_ok;
          permits_ok = h.permits_ok;
        })
        (λ _. h)
  step-Within c w asks laws l h = see-Within capacity m bytes w _ (next-Kept w.pipe) h
  step-Within c w polls laws l h = see-Within capacity m bytes w _ (poll_next-Kept w.pipe) h
  step-Within c w (forgets i) laws l h =
      pipe-Within capacity m bytes w _ w.accepted w.seen (forget-Kept w.pipe i) h

  run-Within :
      (c : Codecs) (w : World) (acts : List Act)
      → Laws c
      → bytes < 2 ^ 32
      → Within capacity m bytes w
      → Within capacity m bytes (run c w acts)
  unfolding run
  run-Within c w [] laws l h = h
  run-Within c w (a ∷ acts) laws l h =
      run-Within c (step c w a) acts laws l (step-Within c w a laws l h)

charged_for : (m : ℕ) (q : List Queued) → All (ItemOk m) q → queued_bytes q ≤ held_sum q
charged_for m [] h = omega arith
charged_for m (item ∷ items) h = omega (arith, h.0.1, charged_for m items h.1)

-- Under codecs that keep their laws and a budget below 2^32, in any interleaving: the queue
-- never holds more events than its capacity, nor messages of more payload and extension bytes than
-- the budget; each message in it is plain, with no compression flag, and its payload within the
-- limit; and every permit is with the semaphore, the queue, the consumer or the waiting call.
pub queue_is_bounded :
    (c : Codecs) (capacity max_payload_size buffer_bytes : ℕ) (acts : List Act)
    → Laws c
    → buffer_bytes < 2 ^ 32
    → let w = run c (open_world capacity max_payload_size buffer_bytes) acts in
      (length (w.pipe).queue ≤ capacity)
      × (queued_bytes (w.pipe).queue ≤ buffer_bytes)
      × All (ItemOk max_payload_size) (w.pipe).queue
      × ((w.pipe).permits
            + (held_sum (w.pipe).queue + (total (w.pipe).retained + waiting_held w.delivering))
          ≡ buffer_bytes)
queue_is_bounded c capacity max_payload_size buffer_bytes acts laws l =
    let h =
      run-Within capacity max_payload_size buffer_bytes c
        (open_world capacity max_payload_size buffer_bytes) acts laws l start in
    (
      h.room_ok,
      omega (arith, h.permits_ok, charged_for max_payload_size _ h.items_ok),
      h.items_ok,
      h.permits_ok,
    )
  where
    start :
        Within capacity max_payload_size buffer_bytes
          (open_world capacity max_payload_size buffer_bytes)
    start =
        unfold open_world event_pipe_with_limit in
        record {
          capacity_ok = refl;
          max_ok = refl;
          budget_ok = refl;
          room_ok = omega arith;
          items_ok = tt;
          waiting_ok = tt;
          permits_ok = omega arith;
        }
