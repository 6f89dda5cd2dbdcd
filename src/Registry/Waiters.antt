-- ===== src/Registry/Waiters.antt =====
-- request_registry.rs, `complete_waiter`: a response reaches one waiter, once.
use msgtrans.Prelude.{
  ℕ, ◌≡◌, refl, ap, ◌∙◌, ◌∷◌, Option, none, some, true, false, arith, if◌then◌else◌,
}
use msgtrans.Prelude.Map.{nat_eq, get, insert, remove, get-remove}
use msgtrans.Packet.{Packet}
use msgtrans.Registry.{
  RequestKey, key_eq, key_beq, RequestEntry, pending, responded, RequestRegistry, retire, updated,
  not_found, count_duplicate, store_entry, remove_terminal_entry, forget_request, uncount_pending,
}
use msgtrans.Registry.Invariant.{retire-entries}
use msgtrans.Registry.Register.{outbound_key}
use msgtrans.Registry.Respond.{mark_responded_key, wake, complete_waiter}
use msgtrans.Registry.Tokens.{get-remove_self}

pub forget_request-waiters :
    (r : RequestRegistry) (k : RequestKey) (sid : Option ℕ)
    → ((forget_request r k sid).waiters ≡ r.waiters) × ((forget_request r k sid).woken ≡ r.woken)
unfolding forget_request
forget_request-waiters r k none = (refl, refl)
forget_request-waiters r k (some sid) = ground arith

pub retire-waiters :
    (r : RequestRegistry) (k : RequestKey) (e : RequestEntry)
    → ((retire r k e).waiters ≡ r.waiters) × ((retire r k e).woken ≡ r.woken)
unfolding remove_terminal_entry
retire-waiters r k e =
    forget_request-waiters
      (record (uncount_pending (store_entry r k e)) { entries = remove k (insert k e r.entries) }) k
      k.session_id

mark_responded_absent :
    (r : RequestRegistry) (k : RequestKey)
    → get k r.entries ≡ none
    → mark_responded_key r k ≡ (not_found, count_duplicate r)
unfolding mark_responded_key
mark_responded_absent r k h = rw (h, mark_responded_key) refl

mark_responded_pending :
    (r : RequestRegistry) (k : RequestKey) (e : RequestEntry)
    → get k r.entries ≡ some e
    → e.state ≡ pending
    → mark_responded_key r k ≡ (updated, retire r k (record e { state = responded }))
unfolding mark_responded_key
mark_responded_pending r k e h c = rw (h, mark_responded_key) (rw c refl)

complete_waiter_absent :
    (r : RequestRegistry) (s : Option ℕ) (i : ℕ) (p : Packet)
    → get (outbound_key s i) r.entries ≡ none
    → complete_waiter r s i p ≡ (false, count_duplicate r)
unfolding complete_waiter
complete_waiter_absent r s i p h =
    let m = mark_responded_absent r (outbound_key s i) h in rw (m, complete_waiter) (rw m refl)

complete_waiter_pending :
    (r : RequestRegistry) (s : Option ℕ) (i : ℕ) (p : Packet) (e : RequestEntry)
    → get (outbound_key s i) r.entries ≡ some e
    → e.state ≡ pending
    → complete_waiter r s i p ≡ (
      true,
      wake (retire r (outbound_key s i) (record e { state = responded })) (outbound_key s i) p,
    )
unfolding complete_waiter
complete_waiter_pending r s i p e h c =
    let m = mark_responded_pending r (outbound_key s i) e h c in rw (m, complete_waiter) (rw m refl)

wake_waiting :
    (r : RequestRegistry) (k : RequestKey) (p : Packet) (c : ℕ)
    → get k r.waiters ≡ some c
    → wake r k p ≡ record r { waiters = remove k r.waiters; woken = (c, p) ∷ r.woken }
unfolding wake
wake_waiting r k p c h = rw (h, wake) refl

-- The registry after a response that found its waiter.
complete_waiter_waiting :
    (r : RequestRegistry) (s : Option ℕ) (i : ℕ) (p : Packet) (e : RequestEntry) (c : ℕ)
    → get (outbound_key s i) r.entries ≡ some e
    → e.state ≡ pending
    → get (outbound_key s i) r.waiters ≡ some c
    → ((complete_waiter r s i p).0 ≡ true)
      × ((complete_waiter r s i p).1.entries ≡ remove (outbound_key s i) r.entries)
      × ((complete_waiter r s i p).1.waiters ≡ remove (outbound_key s i) r.waiters)
      × ((complete_waiter r s i p).1.woken ≡ (c, p) ∷ r.woken)
complete_waiter_waiting r s i p e c h q w =
    let k = outbound_key s i in
    let e' : RequestEntry = record e { state = responded } in
    let (ws, wk) = retire-waiters r k e' in
    rw
      (
        complete_waiter_pending r s i p e h q,
        wake_waiting (retire r k e') k p c (ap (get k) ws ∙ w),
      )
      (refl, retire-entries r k e', ap (remove k) ws, ap (λ l. (c, p) ∷ l) wk)

-- A response to a pending outbound request with a waiter sends the packet on that waiter's channel,
-- and removes the request and its waiter and no other; a second response to it, whatever it carries,
-- is refused, counted as a duplicate, and sends nothing.
pub complete_waiter_once :
    (r : RequestRegistry) (s : Option ℕ) (i : ℕ) (p q : Packet) (e : RequestEntry) (c : ℕ)
    (j : RequestKey)
    → get (outbound_key s i) r.entries ≡ some e
    → e.state ≡ pending
    → get (outbound_key s i) r.waiters ≡ some c
    → ((complete_waiter r s i p).0 ≡ true)
      × ((complete_waiter r s i p).1.woken ≡ (c, p) ∷ r.woken)
      × (get j (complete_waiter r s i p).1.entries
          ≡ (if key_beq (outbound_key s i) j then none else get j r.entries))
      × (get j (complete_waiter r s i p).1.waiters
          ≡ (if key_beq (outbound_key s i) j then none else get j r.waiters))
      × (complete_waiter (complete_waiter r s i p).1 s i q
          ≡ (false, count_duplicate (complete_waiter r s i p).1))
complete_waiter_once r s i p q e c j h st w =
    let k = outbound_key s i in
    let (ok_, es, ws, wk) = complete_waiter_waiting r s i p e c h st w in
    (
      ok_,
      wk,
      ap (get j) es ∙ get-remove k j r.entries,
      ap (get j) ws ∙ get-remove k j r.waiters,
      complete_waiter_absent (complete_waiter r s i p).1 s i q
          (get-remove_self k r.entries (complete_waiter r s i p).1.entries es),
    )
