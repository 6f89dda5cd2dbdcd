-- ===== src/Registry/Invariant.antt =====
-- request_registry.rs: the table of requests and its gauge stay in step.
use msgtrans.Prelude.{ℕ, ◌%◌, ◌≡◌, refl, ◌∙◌, ◌⊎◌, Option, none, some, arith, length}
use msgtrans.Prelude.Map.{
  nat_eq, Map, get, insert, remove, IsDistinct, Every, Every-insert, Every-remove,
  insert-IsDistinct, remove-IsDistinct, length-insert_vacant, length-insert_occupied,
  length-remove_occupied, remove-insert,
}
use msgtrans.Registry.{
  RequestKey, key_eq, RequestEntry, pending, responding, RequestRegistry, add64, dec64, u64_mod,
  retire, uncount_pending, store_entry, remove_terminal_entry, forget_request,
}

-- An entry stands under its own key and is not in a terminal state.
abbrev pub IsLive : RequestKey → RequestEntry → Type 0
IsLive k e = (e.key ≡ k) × ((e.state ≡ pending) ⊎ (e.state ≡ responding))

-- Every key stands once, every entry is live, and the gauge is the number of entries, as a u64.
pub record Sound (m : Map RequestKey RequestEntry) (gauge : ℕ) : Type 0 where
  pub distinct : IsDistinct m
  pub live : Every IsLive m
  pub counted : gauge ≡ length m % u64_mod

abbrev pub Inv : RequestRegistry → Type 0
Inv r = Sound r.entries (r.counters).pending_requests

pub Sound-insert :
    (k : RequestKey) (e : RequestEntry) (m : Map RequestKey RequestEntry) (c : ℕ)
    → Sound m c
    → get k m ≡ none
    → IsLive k e
    → Sound (insert k e m) (add64 c 1)
Sound-insert k e m c s h l = record {
  distinct = insert-IsDistinct k e m s.distinct;
  live = Every-insert IsLive k e m s.live l;
  counted = omega (arith, length-insert_vacant k e m h, s.counted);
}

pub Sound-update :
    (k : RequestKey) (e e' : RequestEntry) (m : Map RequestKey RequestEntry) (c : ℕ)
    → Sound m c
    → get k m ≡ some e
    → IsLive k e'
    → Sound (insert k e' m) c
Sound-update k e e' m c s h l = record {
  distinct = insert-IsDistinct k e' m s.distinct;
  live = Every-insert IsLive k e' m s.live l;
  counted = omega (arith, length-insert_occupied k e' e m h, s.counted);
}

pub Sound-remove :
    (k : RequestKey) (e : RequestEntry) (m : Map RequestKey RequestEntry) (c : ℕ)
    → Sound m c
    → get k m ≡ some e
    → Sound (remove k m) (dec64 c)
Sound-remove k e m c s h = record {
  distinct = remove-IsDistinct k m s.distinct;
  live = Every-remove IsLive k m s.live;
  counted = omega (arith, length-remove_occupied k e m s.distinct h, s.counted);
}

-- Counting one up and down again.
pub Sound-recount :
    (m : Map RequestKey RequestEntry) (c : ℕ) → Sound m c → Sound m (dec64 (add64 c 1))
Sound-recount m c s = record {
  distinct = s.distinct;
  live = s.live;
  counted = omega (arith, s.counted);
}

pub forget_request-entries :
    (r : RequestRegistry) (k : RequestKey) (sid : Option ℕ)
    → ((forget_request r k sid).entries ≡ r.entries)
      × ((forget_request r k sid).counters ≡ r.counters)
unfolding forget_request
forget_request-entries r k none = (refl, refl)
forget_request-entries r k (some sid) = ground arith

pub retire-entries :
    (r : RequestRegistry) (k : RequestKey) (e : RequestEntry)
    → (retire r k e).entries ≡ remove k r.entries
unfolding remove_terminal_entry
retire-entries r k e =
    (forget_request-entries
      (record (uncount_pending (store_entry r k e)) { entries = remove k (insert k e r.entries) }) k
      k.session_id).0
    ∙ remove-insert k e r.entries

pub retire-counters :
    (r : RequestRegistry) (k : RequestKey) (e : RequestEntry)
    → (retire r k e).counters
      ≡ record (r.counters) { pending_requests = dec64 (r.counters).pending_requests }
unfolding remove_terminal_entry
retire-counters r k e =
    (forget_request-entries
      (record (uncount_pending (store_entry r k e)) { entries = remove k (insert k e r.entries) }) k
      k.session_id).1

pub retire-Inv :
    (r : RequestRegistry) (k : RequestKey) (e e' : RequestEntry)
    → Inv r
    → get k r.entries ≡ some e
    → Inv (retire r k e')
retire-Inv r k e e' s h =
    rw (retire-entries r k e', retire-counters r k e') (Sound-remove k e r.entries _ s h)
