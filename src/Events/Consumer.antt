-- ===== src/Events/Consumer.antt =====
-- adapters/events.rs: the consumer's acts and the bounds of the pipe.
use msgtrans.Prelude.{
  ℕ, zero, suc, ◌+◌, ◌≤◌, ◌≡◌, refl, List, [], ◌∷◌, none, some, Bool, true, false, not, ◌&&◌, ◌||◌,
  length, if◌then◌else◌, if-both, All, arith,
}
use msgtrans.Prelude.Map.{is_some}
use msgtrans.Events.{Queued, Pipe, Next, waits, ready, poll_next, next, end_of_data}
use msgtrans.Events.World.{forget, nth_held, without}
use msgtrans.Events.Bounded.{ItemOk, total, Kept, same-Kept}

taken-Kept :
    (p : Pipe) (item : Queued) (rest : List Queued) (n : ℕ)
    → p.queue ≡ item ∷ rest
    → Kept p (record p { queue = rest; retained = item.held ∷ p.retained }) n n
taken-Kept p item rest n q = record {
  capacity_ok = refl;
  max_ok = refl;
  budget_ok = refl;
  room_ok = λ h. let g : length (item ∷ rest) ≤ p.capacity = rw q at h in omega arith;
  items_ok = λ h. let g : All (ItemOk p.max_payload_size) (item ∷ rest) = rw q at h in g.1;
  permits_ok = rw q (omega arith);
}

-- The intake and the flag take no part in the bounds.
reopened :
    (p x : Pipe) (i e : Bool) (n : ℕ)
    → Kept (record p { intake_open = i; close_emitted = e }) x n n
    → Kept p x n n
reopened p x i e n k = record {
  capacity_ok = k.capacity_ok;
  max_ok = k.max_ok;
  budget_ok = k.budget_ok;
  room_ok = k.room_ok;
  items_ok = k.items_ok;
  permits_ok = k.permits_ok;
}

abbrev shut : Pipe → Pipe
shut p = record p { intake_open = false }

abbrev Keeps : Pipe → ℕ → Next × Pipe → Type 0
Keeps p n r = Kept p r.1 n n

end_of_data-Kept : (p : Pipe) (n : ℕ) → Kept p (end_of_data p).1 n n
unfolding end_of_data
end_of_data-Kept p n =
    if-both (Keeps p n) p.close_emitted (ready none, p) _ (λ _. same-Kept p n)
      (λ _. reopened p _ p.intake_open true n (same-Kept (record p { close_emitted = true }) n))

pub poll_next-Kept : (p : Pipe) (n : ℕ) → Kept p (poll_next p).1 n n
unfolding poll_next
poll_next-Kept p n = by_queue p.queue refl
  where
    by_queue :
        (q : List Queued)
        → p.queue ≡ q
        → Keeps p n (elim q [
          | item ∷ rest ↦ (
            ready (some item.event),
            record p { queue = rest; retained = item.held ∷ p.retained },
          )
          | [] ↦
              if not p.intake_open || not p.sender_alive
              then end_of_data p
              else (if not p.close_emitted && is_some p.close_reason
                  then end_of_data (record p { intake_open = false })
                  else (waits, p))
        ])
    by_queue (item ∷ rest) e = taken-Kept p item rest n e
    by_queue [] e =
        if-both (Keeps p n) (not p.intake_open || not p.sender_alive) (end_of_data p) _
          (λ _. end_of_data-Kept p n)
          (λ _.
            if-both (Keeps p n) (not p.close_emitted && is_some p.close_reason)
              (end_of_data (shut p)) (waits, p)
              (λ _. reopened p _ false p.close_emitted n (end_of_data-Kept (shut p) n))
              (λ _. same-Kept p n))

pub next-Kept : (p : Pipe) (n : ℕ) → Kept p (next p).1 n n
unfolding next
next-Kept p n =
    if-both (λ x. Kept p (poll_next x).1 n n) (not p.close_emitted && is_some p.close_reason)
      (shut p) p (λ _. reopened p _ false p.close_emitted n (poll_next-Kept (shut p) n))
      (λ _. poll_next-Kept p n)

total-without : (hs : List ℕ) (i : ℕ) → nth_held hs i + total (without hs i) ≡ total hs
total-without [] i = refl
total-without (h ∷ hs) zero = refl
total-without (h ∷ hs) (suc i) = omega (arith, total-without hs i)

pub forget-Kept : (p : Pipe) (i n : ℕ) → Kept p (forget p i) n n
unfolding forget
forget-Kept p i n = record {
  capacity_ok = refl;
  max_ok = refl;
  budget_ok = refl;
  room_ok = λ h. h;
  items_ok = λ h. h;
  permits_ok = omega (arith, total-without p.retained i);
}
