-- ===== src/Registry/Tokens.antt =====
-- request_registry.rs: who may answer a request. Tokens act on their own registration alone, a claim
-- is exclusive.
use msgtrans.Prelude.{
  ◌≡◌, ◌≢◌, refl, ◌∙◌, inl, inr, none, some, Bool, true, false, arith, Bool-cases, Option-cases,
  ◌==◌, if◌then◌else◌, ==_iff,
}
use msgtrans.Prelude.Map.{nat_eq, Map, get, insert, remove, get-insert, get-remove, remove-insert}
use msgtrans.Registry.{
  RequestKey, key_eq, key_beq, key_beq_iff, RequestEntry, RequestState, pending, responding,
  responded, RequestRegistry, state_u8, RequestToken, token_key, updated, already, not_found,
  count_duplicate, count_send_failed, store_entry, send_failed,
}
use msgtrans.Registry.Invariant.{retire-entries}
use msgtrans.Registry.Respond.{begin_respond, finish_respond}
use msgtrans.Registry.Abort.{abort_request_token}

pub key_beq_self : (k : RequestKey) → key_beq k k ≡ true
key_beq_self k = (key_beq_iff k k).1 refl

-- The two registries are the same but for the duplicate counter.
abbrev pub Untouched : RequestRegistry → RequestRegistry → Type 0
Untouched r r' =
    (record r' {
      counters = record (r'.counters) {
        duplicate_response_total = (r.counters).duplicate_response_total;
      };
    })
    ≡ r

-- A token of an earlier registration under a key that is in use again can neither claim, nor finish,
-- nor abort the new request: all three report that there is no such request, and leave the whole
-- registry as it was, its other counters too, but for the duplicate counter.
pub stale_token :
    (r : RequestRegistry) (t : RequestToken) (e : RequestEntry) (b : Bool)
    → get (token_key t) r.entries ≡ some e
    → e.generation ≢ t.generation
    → ((begin_respond r t).0 ≡ not_found)
      × ((finish_respond r t b).0 ≡ not_found)
      × ((abort_request_token r t).0 ≡ false)
      × Untouched r (begin_respond r t).1
      × Untouched r (finish_respond r t b).1
      × Untouched r (abort_request_token r t).1
unfolding begin_respond finish_respond abort_request_token
stale_token r t e b g h = elim (Bool-cases (e.generation == t.generation)) [
  | inl same ↦ absurd (h ((==_iff e.generation t.generation).0 same))
  | inr other ↦
      rw (g, begin_respond, finish_respond, abort_request_token)
        (rw other (refl, refl, refl, refl, refl, refl))
]

state_pending : (s : RequestState) → (state_u8 s == 0) ≡ true → s ≡ pending
state_pending s h = ground arith

-- What a successful claim found, and what it leaves.
pub begin_respond_found :
    (r : RequestRegistry) (t : RequestToken)
    → (begin_respond r t).0 ≡ updated
    → (e : RequestEntry) × (get (token_key t) r.entries ≡ some e)
      × (e.generation ≡ t.generation)
      × (e.state ≡ pending)
      × ((begin_respond r t).1 ≡ store_entry r (token_key t) (record e { state = responding }))
unfolding begin_respond
begin_respond_found r t h = elim (Option-cases (get (token_key t) r.entries)) [
  | inl n ↦ let h' = rw (n, begin_respond) at h in cc
  | inr (e, g) ↦ elim (Bool-cases (e.generation == t.generation)) [
    | inr other ↦ let h' = rw other at (rw (g, begin_respond) at h) in cc
    | inl same ↦ elim (Bool-cases (state_u8 e.state == 0)) [
      | inr f ↦ let h' = rw f at (rw same at (rw (g, begin_respond) at h)) in cc
      | inl p ↦ (
        e,
        g,
        (==_iff e.generation t.generation).0 same,
        state_pending e.state p,
        rw (g, begin_respond) (rw same (rw p refl)),
      )
    ]
  ]
]

-- A token of the same registration on a claimed entry.
begin_respond_claimed :
    (r : RequestRegistry) (t : RequestToken) (e : RequestEntry)
    → get (token_key t) r.entries ≡ some e
    → e.generation ≡ t.generation
    → e.state ≡ responding
    → begin_respond r t ≡ (already responding, count_duplicate r)
unfolding begin_respond
begin_respond_claimed r t e g same c =
    rw (g, begin_respond) (rw ((==_iff e.generation t.generation).1 same) (rw c refl))

finish_respond_claimed :
    (r : RequestRegistry) (t : RequestToken) (e : RequestEntry) (b : Bool)
    → get (token_key t) r.entries ≡ some e
    → e.generation ≡ t.generation
    → e.state ≡ responding
    → ((finish_respond r t b).0 ≡ updated)
      × ((finish_respond r t b).1.entries ≡ remove (token_key t) r.entries)
unfolding finish_respond
finish_respond_claimed r t e true g same c =
    rw (g, finish_respond)
      (rw ((==_iff e.generation t.generation).1 same)
        (rw c (refl, retire-entries r (token_key t) (record e { state = responded }))))
finish_respond_claimed r t e false g same c =
    rw (g, finish_respond)
      (rw ((==_iff e.generation t.generation).1 same) (
        rw c (
          refl,
          retire-entries (count_send_failed r) (token_key t) (record e { state = send_failed }),
        )))

-- Without an entry there is nothing to claim or to finish.
begin_respond_absent :
    (r : RequestRegistry) (t : RequestToken)
    → get (token_key t) r.entries ≡ none
    → (begin_respond r t).0 ≡ not_found
unfolding begin_respond
begin_respond_absent r t h = rw (h, begin_respond) refl

finish_respond_absent :
    (r : RequestRegistry) (t : RequestToken) (b : Bool)
    → get (token_key t) r.entries ≡ none
    → (finish_respond r t b).0 ≡ not_found
unfolding finish_respond
finish_respond_absent r t b h = rw (h, finish_respond) refl

pub get-remove_self :
    (k : RequestKey) (m m' : Map RequestKey RequestEntry) → m' ≡ remove k m → get k m' ≡ none
get-remove_self k m m' h = rw h (get-remove k k m ∙ rw (key_beq_self k) refl)

pub get-insert_self :
    (k : RequestKey) (e : RequestEntry) (m : Map RequestKey RequestEntry)
    → get k (insert k e m) ≡ some e
get-insert_self k e m = get-insert k k e m ∙ rw (key_beq_self k) refl

-- The table after a claim and its resolution.
pub claim-entries :
    (r : RequestRegistry) (t : RequestToken) (b : Bool)
    → (begin_respond r t).0 ≡ updated
    → ((finish_respond (begin_respond r t).1 t b).0 ≡ updated)
      × ((finish_respond (begin_respond r t).1 t b).1.entries ≡ remove (token_key t) r.entries)
      × (begin_respond (begin_respond r t).1 t
          ≡ (already responding, count_duplicate (begin_respond r t).1))
claim-entries r t b h =
    let (e, g, same, p, after) = begin_respond_found r t h in
    let k = token_key t in
    let e' : RequestEntry = record e { state = responding } in
    let g' = get-insert_self k e' r.entries in
    let f = finish_respond_claimed (store_entry r k e') t e' b g' same refl in
    rw after (
      f.0,
      f.1 ∙ remove-insert k e' r.entries,
      begin_respond_claimed (store_entry r k e') t e' g' same refl,
    )

-- A successful claim: another claim under the same token is refused with the state `responding` and
-- changes only the duplicate counter; resolving the claim succeeds whether the write was confirmed
-- or not, and removes that request and no other; after that, the token finds no request, neither to
-- claim nor to finish.
pub claim_is_exclusive :
    (r : RequestRegistry) (t : RequestToken) (b : Bool) (j : RequestKey)
    → (begin_respond r t).0 ≡ updated
    → (begin_respond (begin_respond r t).1 t
        ≡ (already responding, count_duplicate (begin_respond r t).1))
      × ((finish_respond (begin_respond r t).1 t b).0 ≡ updated)
      × (get j (finish_respond (begin_respond r t).1 t b).1.entries
          ≡ (if key_beq (token_key t) j then none else get j r.entries))
      × ((begin_respond (finish_respond (begin_respond r t).1 t b).1 t).0 ≡ not_found)
      × ((finish_respond (finish_respond (begin_respond r t).1 t b).1 t b).0 ≡ not_found)
claim_is_exclusive r t b j h =
    let (done, es, refused) = claim-entries r t b h in
    let r2 = (finish_respond (begin_respond r t).1 t b).1 in
    let gone = get-remove_self (token_key t) r.entries r2.entries es in
    (
      refused,
      done,
      rw es (get-remove (token_key t) j r.entries),
      begin_respond_absent r2 t gone,
      finish_respond_absent r2 t b gone,
    )
