-- ===== src/Events/Bounded.antt =====
-- adapters/events.rs and adapters/budget.rs: what the queue can hold.
use msgtrans.Prelude.{
  ℕ, ◌+◌, ◌-◌, ◌^◌, ◌≤◌, ◌<◌, ◌≡◌, ◌≢◌, refl, inl, inr, List, [], ◌∷◌, ◌++◌, some, Bool, true,
  false, not, ◌&&◌, length, ltb, leb, Result, ok, err, if◌then◌else◌, if-both, Bool-cases, All,
  All-append, length-append, arith,
}
use msgtrans.Prelude.Map.{is_some}
use msgtrans.Packet.{
  Packet, PacketError, CompressionType, no_compression, zlib, zstd, set_compression,
}
use msgtrans.Packet.Compression.{
  Codecs, Laws, decompress_payload_with_limit, decompress_payload_with_limit_bounded,
}
use msgtrans.Errors.{CloseReason, error, Fault}
use msgtrans.Events.{
  TransportEvent, connection_established, connection_closed, message_received, message_sent,
  transport_error, Queued, Pipe, normalize_inbound, normalize_as, normalized, Delivering, done,
  charging, sending, close, charge_size, charge_permits, start_send, poll_send, send_arm,
  charge_arm, poll_charge, deliver, diagnostic, refuse,
}

-- What a consumer may get: the payload as it was before compression, and bounded.
abbrev pub Fits : ℕ → Packet → Type 0
Fits max_payload_size q =
    ((q.header).compression ≡ no_compression) × (length q.payload ≤ max_payload_size)

-- The bytes of an event, and what the queue and its permits add up to.
abbrev pub event_bytes : TransportEvent → ℕ
event_bytes (message_received q) = length q.payload + length q.ext_header
event_bytes _ = 0

abbrev pub queued_bytes : List Queued → ℕ
queued_bytes [] = 0
queued_bytes (item ∷ items) = event_bytes item.event + queued_bytes items

abbrev pub held_sum : List Queued → ℕ
held_sum [] = 0
held_sum (item ∷ items) = item.held + held_sum items

abbrev pub Delivered : ℕ → Queued → Type 0
Delivered m item = elim item.event [ message_received q ↦ Fits m q | _ ↦ Unit ]

abbrev pub ItemOk : ℕ → Queued → Type 0
ItemOk m item = Delivered m item × (event_bytes item.event ≤ item.held)

normalized-Fits :
    (c : Codecs)
    → Laws c
    → (q x : Packet) (m : ℕ) (r : Result PacketError Packet)
    → ((q.header).compression ≢ no_compression)
    → decompress_payload_with_limit c q m ≡ r
    → normalized r ≡ ok x
    → Fits m x
unfolding set_compression
normalized-Fits c laws q x m (ok y) k e h =
    let (b, same, ext) = decompress_payload_with_limit_bounded c laws q y m e in
    let short : length y.payload ≤ m = elim b [ inl l ↦ l | inr n ↦ absurd (k n) ] in ground arith
normalized-Fits c laws q x m (err f) k e h = cc

normalize_as-Fits :
    (c : Codecs)
    → Laws c
    → (q x : Packet) (k : CompressionType) (m : ℕ) → (q.header).compression ≡ k
    → normalize_as c q k m ≡ ok x
    → Fits m x
normalize_as-Fits c laws q x no_compression m e h = ground arith
normalize_as-Fits c laws q x zlib m e h =
    normalized-Fits c laws q x m (decompress_payload_with_limit c q m) (λ n. cc) refl h
normalize_as-Fits c laws q x zstd m e h =
    normalized-Fits c laws q x m (decompress_payload_with_limit c q m) (λ n. cc) refl h

normalize_inbound-Fits :
    (c : Codecs) → Laws c → (q x : Packet) (m : ℕ) → normalize_inbound c q m ≡ ok x → Fits m x
unfolding normalize_inbound
normalize_inbound-Fits c laws q x m h = normalize_as-Fits c laws q x (q.header).compression m refl h

abbrev pub Waiting : ℕ → Delivering → Type 0
Waiting m (done b) = Unit
Waiting m (charging q) = Fits m q
Waiting m (sending item) = ItemOk m item

abbrev pub waiting_held : Delivering → ℕ
waiting_held (sending item) = item.held
waiting_held _ = 0

abbrev pub total : List ℕ → ℕ
total [] = 0
total (h ∷ hs) = h + total hs

-- What one act may do to the pipe: `spent` permits come in with it, `left` stay with a waiting call.
pub record Kept (p p' : Pipe) (spent left : ℕ) : Type 0 where
  pub capacity_ok : p'.capacity ≡ p.capacity
  pub max_ok : p'.max_payload_size ≡ p.max_payload_size
  pub budget_ok : p'.budget_capacity ≡ p.budget_capacity
  pub room_ok : length p.queue ≤ p.capacity → length p'.queue ≤ p.capacity
  pub items_ok : All (ItemOk p.max_payload_size) p.queue → All (ItemOk p.max_payload_size) p'.queue
  pub permits_ok :
      p'.permits + (held_sum p'.queue + (total p'.retained + left))
      ≡ p.permits + (held_sum p.queue + (total p.retained + spent))

held_sum-append : (xs ys : List Queued) → held_sum (xs ++ ys) ≡ held_sum xs + held_sum ys
held_sum-append [] ys = omega arith
held_sum-append (x ∷ xs) ys = omega (arith, held_sum-append xs ys)

abbrev pushed : Pipe → Queued → Pipe
pushed p item = record p { queue = p.queue ++ (item ∷ []) }

pushed-Kept :
    (p : Pipe) (item : Queued)
    → ItemOk p.max_payload_size item
    → length p.queue < p.capacity
    → Kept p (pushed p item) item.held 0
pushed-Kept p item i l = record {
  capacity_ok = refl;
  max_ok = refl;
  budget_ok = refl;
  room_ok = λ h. omega (arith, length-append p.queue (item ∷ []));
  items_ok = λ h. All-append (ItemOk p.max_payload_size) p.queue (item ∷ []) h (i, tt);
  permits_ok = omega (arith, held_sum-append p.queue (item ∷ []));
}

pub refused-Kept : (p : Pipe) (item : Queued) → Kept p (refuse p item).1 item.held 0
refused-Kept p item = record {
  capacity_ok = refl;
  max_ok = refl;
  budget_ok = refl;
  room_ok = λ h. h;
  items_ok = λ h. h;
  permits_ok = omega arith;
}

pub same-Kept : (p : Pipe) (n : ℕ) → Kept p p n n
same-Kept p n = record {
  capacity_ok = refl;
  max_ok = refl;
  budget_ok = refl;
  room_ok = λ h. h;
  items_ok = λ h. h;
  permits_ok = refl;
}

-- A poll of the adapter's: the pipe, and the call that may wait on.
pub record Polled (p : Pipe) (spent : ℕ) (r : Delivering × Pipe) : Type 0 where
  pub kept : Kept p r.1 spent (waiting_held r.0)
  pub waiting : Waiting p.max_payload_size r.0

refused : (p : Pipe) (item : Queued) → Polled p item.held (refuse p item)
refused p item = record { kept = refused-Kept p item; waiting = tt }

send_arm-Polled :
    (p : Pipe) (item : Queued)
    → ItemOk p.max_payload_size item
    → Polled p item.held (send_arm p item)
unfolding send_arm
send_arm-Polled p item i =
    if-both (Polled p item.held) (not p.intake_open) (refuse p item)
      (if ltb (length p.queue) p.capacity then (done true, pushed p item) else (sending item, p))
      (λ _. refused p item)
      (λ _.
        if-both (Polled p item.held) (ltb (length p.queue) p.capacity) (done true, pushed p item)
          (sending item, p)
          (λ l. record { kept = pushed-Kept p item i (ground arith); waiting = tt })
          (λ _. record { kept = same-Kept p item.held; waiting = i }))

pub poll_send-Polled :
    (p : Pipe) (item : Queued) (b : Bool)
    → ItemOk p.max_payload_size item
    → Polled p item.held (poll_send p item b)
unfolding poll_send
poll_send-Polled p item b i =
    if-both (Polled p item.held)
      (is_some p.close_reason && not (b && ltb (length p.queue) p.capacity)) (refuse p item)
      (send_arm p item) (λ _. refused p item) (λ _. send_arm-Polled p item i)

start_send-Polled :
    (p : Pipe) (item : Queued)
    → ItemOk p.max_payload_size item
    → Polled p item.held (start_send p item)
unfolding start_send
start_send-Polled p item i =
    if-both (Polled p item.held) (is_some p.close_reason) (refuse p item) (poll_send p item false)
      (λ _. refused p item) (λ _. poll_send-Polled p item false i)

pub close-Kept : (p : Pipe) (reason : CloseReason) (n : ℕ) → Kept p (close p reason) n n
unfolding close
close-Kept p reason n =
    if-both (λ x. Kept p x n n) (is_some p.close_reason) p (record p { close_reason = some reason })
      (λ _. same-Kept p n)
      (λ _. record {
        capacity_ok = refl;
        max_ok = refl;
        budget_ok = refl;
        room_ok = λ h. h;
        items_ok = λ h. h;
        permits_ok = refl;
      })

-- A packet that the budget charges holds a permit for each of its bytes.
charged :
    (q : Packet) (m : ℕ)
    → Fits m q
    → charge_size q < 2 ^ 32
    → ItemOk m (record { event = message_received q; held = charge_permits q })
unfolding charge_size charge_permits
charged q m f l = (f, omega (arith, l))

-- The permits that a charge takes out of the semaphore.
spend :
    (p : Pipe) (n : ℕ) (r : Delivering × Pipe)
    → n ≤ p.permits
    → Polled (record p { permits = p.permits - n }) n r
    → Polled p 0 r
spend p n r l d =
    let k = d.kept in
    record {
      kept = record {
        capacity_ok = k.capacity_ok;
        max_ok = k.max_ok;
        budget_ok = k.budget_ok;
        room_ok = k.room_ok;
        items_ok = k.items_ok;
        permits_ok = omega (arith, k.permits_ok);
      };
      waiting = d.waiting;
    }

charge_arm-Polled :
    (p : Pipe) (q : Packet)
    → p.budget_capacity < 2 ^ 32
    → Fits p.max_payload_size q
    → Polled p 0 (charge_arm p q)
unfolding charge_arm
charge_arm-Polled p q b f =
    let n = charge_permits q in
    let size = charge_size q in
    let paid = record p { permits = p.permits - n } in
    elim (Bool-cases (ltb p.budget_capacity size)) [
      | inl t ↦ simp t (record { kept = close-Kept p _ 0; waiting = tt })
      | inr t ↦ simp t (
          if-both (Polled p 0) (leb n p.permits)
            (start_send paid (record { event = message_received q; held = n })) (charging q, p)
            (λ enough.
              spend p n _ (ground arith)
                (start_send-Polled paid _ (charged q p.max_payload_size f (ground arith))))
            (λ _. record { kept = same-Kept p 0; waiting = f }))
    ]

pub poll_charge-Polled :
    (p : Pipe) (q : Packet)
    → p.budget_capacity < 2 ^ 32
    → Fits p.max_payload_size q
    → Polled p 0 (poll_charge p q)
unfolding poll_charge
poll_charge-Polled p q b f =
    if-both (Polled p 0) (is_some p.close_reason) (done false, p) (charge_arm p q)
      (λ _. record { kept = same-Kept p 0; waiting = tt }) (λ _. charge_arm-Polled p q b f)

pub deliver-Polled :
    (c : Codecs) (p : Pipe) (event : TransportEvent)
    → Laws c
    → p.budget_capacity < 2 ^ 32
    → Polled p 0 (deliver c p event)
unfolding deliver
deliver-Polled c p (message_received q) laws b =
    delivered (normalize_inbound c q p.max_payload_size) refl
  where
    delivered :
        (r : Result Fault Packet)
        → normalize_inbound c q p.max_payload_size ≡ r
        → Polled p 0
            (elim r [ ok x ↦ poll_charge p x | err fault ↦ (done false, close p (error fault)) ])
    delivered (ok x) e =
        poll_charge-Polled p x b (normalize_inbound-Fits c laws q x p.max_payload_size e)
    delivered (err fault) e = record { kept = close-Kept p (error fault) 0; waiting = tt }
deliver-Polled c p connection_established laws b = start_send-Polled p _ (tt, omega arith)
deliver-Polled c p (connection_closed r) laws b = start_send-Polled p _ (tt, omega arith)
deliver-Polled c p (message_sent n) laws b = start_send-Polled p _ (tt, omega arith)
deliver-Polled c p (transport_error e) laws b = start_send-Polled p _ (tt, omega arith)

pub diagnostic-Kept :
    (p : Pipe) (packet_id n : ℕ) → Kept p (diagnostic p (message_sent packet_id)) n n
unfolding diagnostic
diagnostic-Kept p packet_id n =
    if-both (λ x. Kept p x n n) (p.intake_open && ltb (length p.queue) p.capacity) (pushed p item) p
      (λ room.
        let l : length p.queue < p.capacity = ground arith in
        let k = pushed-Kept p item (tt, omega arith) l in
        record {
          capacity_ok = refl;
          max_ok = refl;
          budget_ok = refl;
          room_ok = k.room_ok;
          items_ok = k.items_ok;
          permits_ok = omega (arith, k.permits_ok);
        })
      (λ _. same-Kept p n)
  where
    item : Queued
    item = record { event = message_sent packet_id; held = 0 }
