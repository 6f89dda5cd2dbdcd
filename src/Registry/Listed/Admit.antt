-- ===== src/Registry/Listed/Admit.antt =====
-- request_registry.rs: sessions, ids and registrations keep every pending request listed.
use msgtrans.Prelude.{
  ℕ, ◌+◌, ◌≡◌, refl, sym, ap, ◌∙◌, inl, inr, Option, none, some, Bool, true, false, not, ◌&&◌, ◌||◌,
  arith, if◌then◌else◌, Bool-cases, Option-cases, ◌==◌, ==_iff, subst,
}
use msgtrans.Prelude.Map.{is_some, nat_eq, Map, get, insert, get-insert}
use msgtrans.Packet.{u32_max}
use msgtrans.Registry.{
  RequestKey, key_eq, key_beq, key_beq_iff, RequestEntry, RequestRegistry, add64, state_u8,
  RequestToken, SessionRuntime, new_runtime, count_pending, store_entry, responding,
}
use msgtrans.Registry.Register.{
  open_session, now_closing, new_entry, next_request_id, allocate, register_impl, admit,
  try_register_waiter, add_waiter, track_request, schedule_for_deadline, undo_register,
  outbound_key, resolve_runtime,
}
use msgtrans.Registry.Respond.{is_state}
use msgtrans.Registry.Gauge.Admit.{track_request-entries}
use msgtrans.Registry.Ids.{with_id, allocate_next}
use msgtrans.Registry.Listed.{
  lists, listed, listed_in, covered, covered_mono, listed-insert, retire-Covers,
}
use msgtrans.Registry.Listed.Answer.{Covered}

pub open_session-Covered :
    (r : RequestRegistry) (sid : ℕ) → Covered r → Covered (open_session r sid)
unfolding open_session
open_session-Covered r sid s = elim (Option-cases (get sid r.sessions)) [
  | inr (rt, e) ↦ rw (e, open_session) s
  | inl e ↦
      rw (e, open_session)
        (λ j.
          covered_mono r.sessions (insert sid new_runtime r.sessions) j (get j r.entries)
            (listed-insert r.sessions sid new_runtime j (λ l. let l' = rw e at l in cc)) (s j))
]

allocate-Covered :
    (r : RequestRegistry) (sid : ℕ) (rt : SessionRuntime)
    → get sid r.sessions ≡ some rt
    → Covered r
    → Covered (allocate r sid rt).1
unfolding allocate
allocate-Covered r sid rt g s = elim (Bool-cases rt.closing) [
  | inl c ↦ rw c s
  | inr o ↦ elim (Bool-cases (rt.next_request_id == u32_max)) [
    | inl full ↦ rw (o, allocate) (rw full s)
    | inr room ↦
        let rt' = with_id rt (rt.next_request_id + 1) in
        rw (allocate_next r sid rt o room) (λ j.
          covered_mono r.sessions (insert sid rt' r.sessions) j (get j r.entries)
            (listed-insert r.sessions sid rt' j (λ l. ap (lists j) (sym g) ∙ l)) (s j))
  ]
]

pub next_request_id-Covered :
    (r : RequestRegistry) (sid : Option ℕ) → Covered r → Covered (next_request_id r sid).1
unfolding next_request_id
next_request_id-Covered r none s = s
next_request_id-Covered r (some sid) s = elim (Option-cases (get sid r.sessions)) [
  | inl n ↦ rw (n, next_request_id) s
  | inr (rt, g) ↦ rw (g, next_request_id) (allocate-Covered r sid rt g s)
]

abbrev is_open : Option SessionRuntime → Bool
is_open none = false
is_open (some rt) = not rt.closing

-- The session, where there is one, is open.
abbrev opens_in : Map ℕ SessionRuntime → Option ℕ → Bool
opens_in ss none = true
opens_in ss (some sid) = is_open (get sid ss)

resolve_runtime-opens_in :
    (r : RequestRegistry) (o : Option ℕ) (x : Option SessionRuntime)
    → resolve_runtime r o ≡ some x
    → opens_in r.sessions o ≡ true
unfolding resolve_runtime
resolve_runtime-opens_in r none x h = refl
resolve_runtime-opens_in r (some sid) x h = ground arith

listed_when :
    (c : Bool) (o : Option (Unit {0}))
    → not c ≡ true
    → is_some o ≡ true
    → (not c && is_some o) ≡ true
listed_when c o h i = rw (h, i) refl

tracked-listed_in :
    (r : RequestRegistry) (k : RequestKey) (o : Option ℕ)
    → opens_in r.sessions o ≡ true
    → listed_in (track_request r k o).sessions k o ≡ true
unfolding track_request
tracked-listed_in r k none h = refl
tracked-listed_in r k (some sid) h = elim (Option-cases (get sid r.sessions)) [
  | inl e ↦ let h' = sym (ap is_open e) ∙ h in cc
  | inr (rt, e) ↦
      let rt' : SessionRuntime = record rt { requests = insert k tt rt.requests } in
      rw (e, track_request)
        (ap (lists k) (get-insert sid sid rt' r.sessions)
          ∙ rw ((==_iff sid sid).1 refl) (
              listed_when rt.closing (get k (insert k tt rt.requests)) (sym (ap is_open e) ∙ h)
                (ap is_some (get-insert k k tt rt.requests) ∙ rw ((key_beq_iff k k).1 refl) refl)))
]

tracked_mono :
    (r : RequestRegistry) (k : RequestKey) (o : Option ℕ) (j : RequestKey)
    → listed r.sessions j ≡ true
    → listed (track_request r k o).sessions j ≡ true
unfolding track_request
tracked_mono r k none j h = h
tracked_mono r k (some sid) j h = elim (Option-cases (get sid r.sessions)) [
  | inl e ↦ rw (e, track_request) h
  | inr (rt, e) ↦
      let rt' : SessionRuntime = record rt { requests = insert k tt rt.requests } in
      rw (e, track_request)
        (listed-insert r.sessions sid rt' j
          (λ l.
            ap (λ x. not rt.closing && is_some x) (get-insert k j tt rt.requests)
            ∙ still rt.closing (key_beq k j) (get j rt.requests) (ap (lists j) (sym e) ∙ l))
          h)
]
  where
    still :
        (c b : Bool) (o : Option (Unit {0}))
        → (not c && is_some o) ≡ true
        → (not c && is_some (if b then some tt else o)) ≡ true
    still c b none h = ground arith
    still c b (some x) h = ground arith

undo_register-Covered :
    (r : RequestRegistry) (k : RequestKey) → Covered r → Covered (undo_register r k)
unfolding undo_register
undo_register-Covered r k s = elim (Option-cases (get k r.entries)) [
  | inl n ↦ rw (n, undo_register) s
  | inr (e, g) ↦
      rw (g, undo_register)
        (elim (Bool-cases (state_u8 e.state == 0)) [
          | inl t ↦ rw t (retire-Covers r k _ s)
          | inr f ↦ rw f s
        ])
]

maybe_schedule-Covered :
    (b : Bool) (r : RequestRegistry) (k : RequestKey) (deadline later : ℕ)
    → Covered r
    → Covered (if b then schedule_for_deadline r k deadline later else r)
unfolding schedule_for_deadline
maybe_schedule-Covered true r k deadline later s = s
maybe_schedule-Covered false r k deadline later s = s

-- The new entry is listed before it is looked at again.
tracked-Covered :
    (r : RequestRegistry) (k : RequestKey) (e : RequestEntry)
    → opens_in r.sessions k.session_id ≡ true
    → Covered r
    → Covered (track_request (store_entry r k e) k k.session_id)
tracked-Covered r k e o s j =
    let stored = store_entry r k e in
    let ss = (track_request stored k k.session_id).sessions in
    ap (λ m. covered ss j (get j m)) (track_request-entries stored k k.session_id).0
    ∙ ap (covered ss j) (get-insert k j e r.entries)
    ∙ elim (Bool-cases (key_beq k j)) [
      | inr n ↦ rw n (
          covered_mono r.sessions ss j (get j r.entries) (tracked_mono stored k k.session_id j)
            (s j))
      | inl t ↦ rw t (
          listed_covered (is_state e.state responding) (listed ss j) (
            subst (λ i. listed ss i ≡ true) ((key_beq_iff k j).0 t)
              (tracked-listed_in stored k k.session_id o)))
    ]
  where
    listed_covered : (a b : Bool) → b ≡ true → (a || b) ≡ true
    listed_covered a b h = ground arith

admit-Covered :
    (r : RequestRegistry) (k : RequestKey) (e : RequestEntry) (schedule : Bool) (later : ℕ)
    → opens_in r.sessions k.session_id ≡ true
    → Covered r
    → Covered (admit r k e schedule later).1
unfolding admit
admit-Covered r k e schedule later o s =
    let r' = track_request (store_entry r k e) k k.session_id in
    let tracked = tracked-Covered r k e o s in
    elim (Bool-cases (now_closing r' k.session_id)) [
      | inl c ↦ rw c (undo_register-Covered r' k tracked)
      | inr n ↦ rw n (maybe_schedule-Covered schedule r' k e.deadline_at later tracked)
    ]

pub register_impl-Covered :
    (r : RequestRegistry) (k : RequestKey) (biz_type timeout : ℕ) (schedule : Bool) (now later : ℕ)
    → Covered r
    → Covered (register_impl r k biz_type timeout schedule now later).1
unfolding register_impl
register_impl-Covered r k biz_type timeout schedule now later s =
    elim (Option-cases (resolve_runtime r k.session_id)) [
      | inl refused ↦ rw (refused, register_impl) s
      | inr (rt, found) ↦
          rw (found, register_impl)
            (elim (Option-cases (get k r.entries)) [
              | inr (other, g) ↦ rw g s
              | inl free ↦ rw free (
                  let stamped = record r { next_generation = add64 r.next_generation 1 } in
                  let e = new_entry k biz_type now timeout r.next_generation in
                  admit-Covered (count_pending stamped) k e schedule later
                    (resolve_runtime-opens_in r k.session_id rt found) s)
            ])
    ]

add_waiter-Covered :
    (r : RequestRegistry) (k : RequestKey) (t : Option RequestToken)
    → Covered r
    → Covered (add_waiter r k t).1
unfolding add_waiter
add_waiter-Covered r k none s = s
add_waiter-Covered r k (some token) s = elim (Option-cases (get k r.entries)) [
  | inl n ↦ rw (n, add_waiter) s
  | inr (e, g) ↦ rw (g, add_waiter) s
]

pub try_register_waiter-Covered :
    (r : RequestRegistry) (i : ℕ) (sid : Option ℕ) (biz_type timeout now : ℕ)
    → Covered r
    → Covered (try_register_waiter r i sid biz_type timeout now).1
unfolding try_register_waiter
try_register_waiter-Covered r i sid biz_type timeout now s =
    let k = outbound_key sid i in
    let (token, r') = register_impl r k biz_type timeout false now now in
    add_waiter-Covered r' k token (register_impl-Covered r k biz_type timeout false now now s)
