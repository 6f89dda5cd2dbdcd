-- ===== src/Events/Order.antt =====
-- adapters/events.rs: what the consumer sees is what entered the queue, in order, and then the end.
use msgtrans.Prelude.{
  ℕ, ◌-◌, ◌≡◌, ◌≢◌, subst, refl, sym, ap, ◌∙◌, ◌⊎◌, inl, inr, List, [], ◌∷◌, ◌++◌, append-nil,
  append_assoc, Option, none, some, Bool, true, false, not, ◌&&◌, ◌||◌, Result, ok, err, replicate,
  arith,
}
use msgtrans.Prelude.Map.{is_some}
use msgtrans.Packet.{Packet}
use msgtrans.Packet.Compression.{Codecs}
use msgtrans.Errors.{CloseReason, error, Fault}
use msgtrans.Events.{
  TransportEvent, connection_established, connection_closed, message_received, message_sent,
  transport_error, Queued, Pipe, normalize_inbound, Delivering, done, charging, sending, close,
  charge_permits, refuse, poll_send, start_send, poll_charge, send_arm, charge_arm, deliver,
  diagnostic, terminal_reason,
}
use msgtrans.Events.World.{World, offered, taken, settle, resume, cancel, admitted}

abbrev pub events : List Queued → List TransportEvent
events [] = []
events (item ∷ items) = item.event ∷ events items

events-append : (xs ys : List Queued) → events (xs ++ ys) ≡ events xs ++ events ys
events-append [] ys = refl
events-append (x ∷ xs) ys = ap (◌∷◌ x.event) (events-append xs ys)

abbrev pub somes : List TransportEvent → List (Option TransportEvent)
somes [] = []
somes (x ∷ xs) = some x ∷ somes xs

somes-append : (xs ys : List TransportEvent) → somes (xs ++ ys) ≡ somes xs ++ somes ys
somes-append [] ys = refl
somes-append (x ∷ xs) ys = ap (◌∷◌ (some x)) (somes-append xs ys)

-- What an act of the adapter adds to the queue, and what it leaves as it was.
pub record Moved (p p' : Pipe) (added : List TransportEvent) : Type 0 where
  queue_ok : events p'.queue ≡ events p.queue ++ added
  emitted_ok : p'.close_emitted ≡ p.close_emitted
  intake_ok : p'.intake_open ≡ p.intake_open
  alive_ok : p'.sender_alive ≡ p.sender_alive
  reason_ok : (p'.close_reason ≡ p.close_reason) ⊎ (p.close_reason ≡ none)
  added_ok : (added ≡ []) ⊎ (p.intake_open ≡ true)

abbrev pub Sent : Pipe → TransportEvent → Delivering × Pipe → Type 0
Sent p event r = Moved p r.1 (taken r.0 event)

pub poll_send-Sent : (p : Pipe) (item : Queued) (b : Bool) → Sent p item.event (poll_send p item b)
unfolding poll_send send_arm
poll_send-Sent p item b =
    ground (arith, events-append p.queue (item ∷ []), append-nil (events p.queue))

start_send-Sent : (p : Pipe) (item : Queued) → Sent p item.event (start_send p item)
unfolding start_send
start_send-Sent p item = ground (arith, poll_send-Sent p item false, append-nil (events p.queue))

pub close-Sent :
    (p : Pipe) (reason : CloseReason) (event : TransportEvent)
    → Sent p event (done false, close p reason)
unfolding close
close-Sent p reason event = ground (arith, append-nil (events p.queue))

pub poll_charge-Sent : (p : Pipe) (q : Packet) → Sent p (message_received q) (poll_charge p q)
unfolding poll_charge charge_arm
poll_charge-Sent p q =
    let size = charge_permits q in
    ground (
      arith,
      append-nil (events p.queue),
      close-Sent p _ (message_received q),
      start_send-Sent (record p { permits = p.permits - size })
          (record { event = message_received q; held = size }),
    )

pub deliver-Sent :
    (c : Codecs) (p : Pipe) (event : TransportEvent)
    → Sent p (offered c p event) (deliver c p event)
unfolding deliver
deliver-Sent c p (message_received q) = sent (normalize_inbound c q p.max_payload_size)
  where
    sent :
        (r : Result Fault Packet)
        → Sent p
            (elim r [ ok x ↦ message_received x | err reason ↦ message_received q ])
            (elim r [ ok x ↦ poll_charge p x | err reason ↦ (done false, close p (error reason)) ])
    sent (ok x) = poll_charge-Sent p x
    sent (err reason) = close-Sent p (error reason) (message_received q)
deliver-Sent c p connection_established =
    start_send-Sent p (record { event = connection_established; held = 0 })
deliver-Sent c p (connection_closed r) =
    start_send-Sent p (record { event = connection_closed r; held = 0 })
deliver-Sent c p (message_sent n) = start_send-Sent p (record { event = message_sent n; held = 0 })
deliver-Sent c p (transport_error e) =
    start_send-Sent p (record { event = transport_error e; held = 0 })

-- No event comes in any more, and the reason stands.
abbrev pub over : Pipe → Bool
over p = (not p.intake_open && is_some p.close_reason) || not p.sender_alive

-- Until the end the consumer has seen what entered and is not queued; from the end on, all of it,
-- one close with the terminal reason, and nothing more.
abbrev pub InOrder : World → Type 0
InOrder w =
    (((w.pipe).close_emitted ≡ false)
      × (w.seen ++ somes (events (w.pipe).queue) ≡ somes w.accepted))
    ⊎ ((n : ℕ) × ((w.pipe).close_emitted ≡ true)
        × ((w.pipe).queue ≡ [])
        × (over w.pipe ≡ true)
        × (w.seen
            ≡ somes w.accepted
              ++ (some (connection_closed (terminal_reason (w.pipe).close_reason))
                  ∷ replicate n none)))

-- The intake is only shut once a close was published.
pub record Ordered (w : World) : Type 0 where
  pub shut_ok : (not (w.pipe).intake_open && not (is_some (w.pipe).close_reason)) ≡ false
  pub order_ok : InOrder w

true_not_false : true ≢ false
true_not_false h = cc

events-empty : (xs : List Queued) → events xs ≡ [] → xs ≡ []
events-empty [] h = refl
events-empty (x ∷ xs) h = cc

ended :
    (p : Pipe)
    → over p ≡ true
    → p.sender_alive ≡ true
    → (p.intake_open ≡ false) × (is_some p.close_reason ≡ true)
ended p o a = ground arith

-- The adapter's acts, while it holds the sender.
abbrev pub moved : World → Pipe → Delivering → List TransportEvent → World
moved w p d added = record w { pipe = p; delivering = d; accepted = w.accepted ++ added }

pub moved-Ordered :
    (w : World) (p : Pipe) (d : Delivering) (added : List TransportEvent)
    → Moved w.pipe p added
    → (w.pipe).sender_alive ≡ true
    → Ordered w
    → Ordered (moved w p d added)
moved-Ordered w p d added s alive h = record {
  shut_ok = ground (arith, s.intake_ok, s.reason_ok, h.shut_ok);
  order_ok = elim h.order_ok [
    | inl (e, o) ↦ inl (s.emitted_ok ∙ e, entered o)
    | inr (n, e, q, v, o) ↦
        let (gone, set) = ended w.pipe v alive in
        let none_in = untaken gone in
        let reason = reason_kept set in
        inr (
          n,
          s.emitted_ok ∙ e,
          events-empty p.queue (s.queue_ok ∙ rw (q, none_in) refl),
          rw (s.intake_ok, gone, reason, set) refl,
          rw (none_in, append-nil w.accepted, reason) o,
        )
  ];
}
  where
    entered :
        w.seen ++ somes (events (w.pipe).queue) ≡ somes w.accepted
        → w.seen ++ somes (events p.queue) ≡ somes (w.accepted ++ added)
    entered o =
        rw
          (
            s.queue_ok,
            somes-append (events (w.pipe).queue) added,
            somes-append w.accepted added,
            sym (append_assoc w.seen (somes (events (w.pipe).queue)) (somes added)),
          )
          (rw o refl)

    untaken : (w.pipe).intake_open ≡ false → added ≡ []
    untaken gone = elim s.added_ok [ inl t ↦ t | inr t ↦ absurd (true_not_false (sym t ∙ gone)) ]

    reason_kept : is_some (w.pipe).close_reason ≡ true → p.close_reason ≡ (w.pipe).close_reason
    reason_kept set = elim s.reason_ok [
      | inl t ↦ t
      | inr t ↦ absurd (true_not_false (sym set ∙ ap is_some t))
    ]

-- The acts that add nothing.
pub unmoved-Ordered :
    (w : World) (p : Pipe) (d : Delivering)
    → Moved w.pipe p []
    → (w.pipe).sender_alive ≡ true
    → Ordered w
    → Ordered (record w { pipe = p; delivering = d })
unmoved-Ordered w p d s alive h =
    subst (λ a. Ordered (record { pipe = p; delivering = d; accepted = a; seen = w.seen }))
      (append-nil w.accepted) (moved-Ordered w p d [] s alive h)

pub diagnostic-Moved :
    (p : Pipe) (event : TransportEvent) → Moved p (diagnostic p event) (admitted p event)
unfolding diagnostic
diagnostic-Moved p event = ground (
  arith,
  append-nil (events p.queue),
  events-append p.queue (record { event = event; held = 0 } ∷ []),
)

refuse-Moved : (p : Pipe) (item : Queued) → Moved p (refuse p item).1 []
refuse-Moved p item = ground (arith, append-nil (events p.queue))

pub same-Moved : (p : Pipe) → Moved p p []
same-Moved p = ground (arith, append-nil (events p.queue))

pub resume-Ordered :
    (w : World) (b : Bool) → (w.pipe).sender_alive ≡ true → Ordered w → Ordered (resume w b)
unfolding resume settle
resume-Ordered w b alive h = by_state w.delivering
  where
    by_state :
        (d : Delivering)
        → Ordered (elim d [
          | done x ↦ w
          | charging q ↦ settle w (message_received q) (poll_charge w.pipe q)
          | sending item ↦ settle w item.event (poll_send w.pipe item b)
        ])
    by_state (done x) = h
    by_state (charging q) =
        let (d, p) = poll_charge w.pipe q in
        moved-Ordered w p d (taken d (message_received q)) (poll_charge-Sent w.pipe q) alive h
    by_state (sending item) =
        let (d, p) = poll_send w.pipe item b in
        moved-Ordered w p d (taken d item.event) (poll_send-Sent w.pipe item b) alive h

pub cancel-Ordered : (w : World) → (w.pipe).sender_alive ≡ true → Ordered w → Ordered (cancel w)
unfolding cancel
cancel-Ordered w alive h = by_state w.delivering
  where
    by_state :
        (d : Delivering)
        → Ordered (elim d [
          | done b ↦ w
          | charging q ↦ record w { delivering = done false }
          | sending item ↦ record w { pipe = (refuse w.pipe item).1; delivering = done false }
        ])
    by_state (done b) = h
    by_state (charging q) = record { shut_ok = h.shut_ok; order_ok = h.order_ok }
    by_state (sending item) =
        unmoved-Ordered w (refuse w.pipe item).1 (done false) (refuse-Moved w.pipe item) alive h
