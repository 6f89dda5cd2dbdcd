-- ===== src/Registry/Resolve.antt =====
-- request_registry.rs: what `finish_respond` and `abort_request_token` do to a registry that other tasks
-- may have changed since the claim.
use msgtrans.Prelude.{
  ℕ, ◌≡◌, refl, ap, ◌∙◌, Option, none, some, inl, inr, Bool, true, false, not, ◌&&◌, ◌||◌, ◌==◌,
  if◌then◌else◌, Bool-cases, Option-cases, arith,
}
use msgtrans.Prelude.Map.{get, get-remove}
use msgtrans.Registry.{
  RequestKey, key_eq, key_beq, RequestEntry, RequestState, RequestToken, token_key, RequestRegistry,
  state_u8, pending, responding, responded, send_failed, dropped, add64, retire, count_send_failed,
}
use msgtrans.Registry.Invariant.{retire-entries, retire-counters}
use msgtrans.Registry.Respond.{finish_respond}
use msgtrans.Registry.Abort.{abort_request_token}
use msgtrans.Registry.Tokens.{key_beq_self}

abbrev pub in_state : RequestState → RequestToken → Option RequestEntry → Bool
in_state s t none = false
in_state s t (some e) = (e.generation == t.generation) && (state_u8 e.state == state_u8 s)

-- The token's registration is claimed, or not answered yet.
abbrev pub is_claimed : RequestRegistry → RequestToken → Bool
is_claimed r t = in_state responding t (get (token_key t) r.entries)

abbrev pub is_waiting : RequestRegistry → RequestToken → Bool
is_waiting r t = in_state pending t (get (token_key t) r.entries)

abbrev pub failed_total : RequestRegistry → ℕ
failed_total r = (r.counters).response_send_failed_total

retired :
    (r : RequestRegistry) (k j : RequestKey) (e : RequestEntry)
    → get j (retire r k e).entries ≡ (if key_beq k j then none else get j r.entries)
retired r k j e = ap (get j) (retire-entries r k e) ∙ get-remove k j r.entries

retired_failed :
    (r : RequestRegistry) (k : RequestKey) (e : RequestEntry)
    → failed_total (retire r k e) ≡ failed_total r
retired_failed r k e = ap (λ x. x.response_send_failed_total) (retire-counters r k e)

pub finish_respond-entries :
    (r : RequestRegistry) (t : RequestToken) (b : Bool) (j : RequestKey)
    → let r' = (finish_respond r t b).1 in
      (get j r'.entries
        ≡ (if is_claimed r t && key_beq (token_key t) j then none else get j r.entries))
      × (failed_total r'
          ≡ (if is_claimed r t && not b then add64 (failed_total r) 1 else failed_total r))
unfolding finish_respond
finish_respond-entries r t true j = elim (Option-cases (get (token_key t) r.entries)) [
  | inl n ↦ rw (n, finish_respond) (refl, refl)
  | inr (e, g) ↦
      let k = token_key t in
      let e' : RequestEntry = record e { state = responded } in
      rw (g, finish_respond) (ground (arith, retired r k j e', retired_failed r k e'))
]
finish_respond-entries r t false j = elim (Option-cases (get (token_key t) r.entries)) [
  | inl n ↦ rw (n, finish_respond) (refl, refl)
  | inr (e, g) ↦
      let k = token_key t in
      let e' : RequestEntry = record e { state = send_failed } in
      let c = count_send_failed r in
      rw (g, finish_respond) (ground (arith, retired c k j e', retired_failed c k e'))
]

pub abort_request_token-entries :
    (r : RequestRegistry) (t : RequestToken) (j : RequestKey)
    → let r' = (abort_request_token r t).1 in
      (get j r'.entries
        ≡ (if is_waiting r t && key_beq (token_key t) j then none else get j r.entries))
      × (failed_total r' ≡ failed_total r)
unfolding abort_request_token
abort_request_token-entries r t j = elim (Option-cases (get (token_key t) r.entries)) [
  | inl n ↦ rw (n, abort_request_token) (refl, refl)
  | inr (e, g) ↦
      let k = token_key t in
      let e' : RequestEntry = record e { state = dropped } in
      rw (g, abort_request_token) (ground (arith, retired r k j e', retired_failed r k e'))
]

-- After the claim's end only an entry that was not claimed can still wait.
waiting_after :
    (r : RequestRegistry) (t : RequestToken) (b : Bool)
    → is_waiting (finish_respond r t b).1 t ≡ (if is_claimed r t then false else is_waiting r t)
waiting_after r t b =
    let k = token_key t in
    ap (in_state pending t) (finish_respond-entries r t b k).0
    ∙ ap (λ x. in_state pending t (if is_claimed r t && x then none else get k r.entries))
        (key_beq_self k)
    ∙ elim (Bool-cases (is_claimed r t)) [ inl c ↦ rw c refl | inr c ↦ rw c refl ]

-- Two removals of one key.
removed_twice :
    (a b same : Bool) (o : Option RequestEntry)
    → (if (if a then false else b) && same then none else (if a && same then none else o))
      ≡ (if (a || b) && same then none else o)
removed_twice true b true o = refl
removed_twice true b false o = refl
removed_twice false b same o = refl

-- The end of a claim, and the drop of the responder.
pub resolve-entries :
    (r : RequestRegistry) (t : RequestToken) (b : Bool) (j : RequestKey)
    → let r' = (abort_request_token (finish_respond r t b).1 t).1 in
      (get j r'.entries ≡ (
        if (is_claimed r t || is_waiting r t) && key_beq (token_key t) j
        then none
        else get j r.entries))
      × (failed_total r'
          ≡ (if is_claimed r t && not b then add64 (failed_total r) 1 else failed_total r))
resolve-entries r t b j =
    let (es, failed) = finish_respond-entries r t b j in
    let (es', failed') = abort_request_token-entries (finish_respond r t b).1 t j in
    let same = key_beq (token_key t) j in
    (
      es'
          ∙ ap (λ w. if w && same then none else get j (finish_respond r t b).1.entries)
              (waiting_after r t b)
          ∙ ap (λ o. if (if is_claimed r t then false else is_waiting r t) && same then none else o)
              es
          ∙ removed_twice (is_claimed r t) (is_waiting r t) same (get j r.entries),
      failed' ∙ failed,
    )
