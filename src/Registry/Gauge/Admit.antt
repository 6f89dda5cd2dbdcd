-- ===== src/Registry/Gauge/Admit.antt =====
-- request_registry.rs: sessions, ids and registrations keep the table sound.
use msgtrans.Prelude.{
  ℕ, ◌≡◌, refl, inl, inr, Option, none, some, Bool, true, false, arith, if◌then◌else◌, Bool-cases,
  Option-cases, ◌==◌,
}
use msgtrans.Prelude.Map.{nat_eq, get, insert}
use msgtrans.Packet.{u32_max}
use msgtrans.Registry.{
  RequestKey, key_eq, RequestEntry, RequestRegistry, add64, state_u8, RequestToken, SessionRuntime,
  count_pending,
}
use msgtrans.Registry.Invariant.{Sound, Inv, Sound-insert, Sound-recount, retire-Inv}
use msgtrans.Registry.Register.{
  now_closing, new_entry, next_request_id, allocate, register_impl, admit, try_register_waiter,
  add_waiter, track_request, schedule_for_deadline, undo_register, outbound_key, resolve_runtime,
}

pub track_request-entries :
    (r : RequestRegistry) (k : RequestKey) (sid : Option ℕ)
    → ((track_request r k sid).entries ≡ r.entries)
      × ((track_request r k sid).counters ≡ r.counters)
unfolding track_request
track_request-entries r k none = (refl, refl)
track_request-entries r k (some sid) = ground arith

pub undo_register-Inv : (r : RequestRegistry) (k : RequestKey) → Inv r → Inv (undo_register r k)
unfolding undo_register
undo_register-Inv r k s = elim (Option-cases (get k r.entries)) [
  | inl n ↦ rw (n, undo_register) s
  | inr (e, g) ↦
      rw (g, undo_register)
        (elim (Bool-cases (state_u8 e.state == 0)) [
          | inl t ↦ rw t (retire-Inv r k e _ s g)
          | inr f ↦ rw f s
        ])
]

maybe_schedule-Inv :
    (b : Bool) (r : RequestRegistry) (k : RequestKey) (deadline later : ℕ)
    → Inv r
    → Inv (if b then schedule_for_deadline r k deadline later else r)
unfolding schedule_for_deadline
maybe_schedule-Inv true r k deadline later s = s
maybe_schedule-Inv false r k deadline later s = s

admit-Inv :
    (r : RequestRegistry) (k : RequestKey) (e : RequestEntry) (schedule : Bool) (later : ℕ)
    → Sound (insert k e r.entries) (r.counters).pending_requests
    → Inv (admit r k e schedule later).1
unfolding admit
admit-Inv r k e schedule later s =
    let stored = record r { entries = insert k e r.entries } in
    let (same, counts) = track_request-entries stored k k.session_id in
    let r' = track_request stored k k.session_id in
    let tracked : Inv r' = rw (same, counts) s in
    elim (Bool-cases (now_closing r' k.session_id)) [
      | inl c ↦ rw c (undo_register-Inv r' k tracked)
      | inr o ↦ rw o (maybe_schedule-Inv schedule r' k e.deadline_at later tracked)
    ]

pub register_impl-Inv :
    (r : RequestRegistry) (k : RequestKey) (biz_type timeout : ℕ) (schedule : Bool) (now later : ℕ)
    → Inv r
    → Inv (register_impl r k biz_type timeout schedule now later).1
unfolding register_impl
register_impl-Inv r k biz_type timeout schedule now later s =
    elim (Option-cases (resolve_runtime r k.session_id)) [
      | inl refused ↦ rw (refused, register_impl) s
      | inr (rt, found) ↦
          rw (found, register_impl)
            (elim (Option-cases (get k r.entries)) [
              | inr (other, g) ↦ rw g (Sound-recount r.entries _ s)
              | inl free ↦ rw free (
                  let stamped = record r { next_generation = add64 r.next_generation 1 } in
                  let e = new_entry k biz_type now timeout r.next_generation in
                  admit-Inv (count_pending stamped) k e schedule later (
                    Sound-insert k e r.entries (r.counters).pending_requests s free
                      (refl, inl refl)))
            ])
    ]

add_waiter-Inv :
    (r : RequestRegistry) (k : RequestKey) (t : Option RequestToken)
    → Inv r
    → Inv (add_waiter r k t).1
unfolding add_waiter
add_waiter-Inv r k none s = s
add_waiter-Inv r k (some token) s = elim (Option-cases (get k r.entries)) [
  | inl n ↦ rw (n, add_waiter) s
  | inr (e, g) ↦ rw (g, add_waiter) s
]

pub try_register_waiter-Inv :
    (r : RequestRegistry) (i : ℕ) (sid : Option ℕ) (biz_type timeout now : ℕ)
    → Inv r
    → Inv (try_register_waiter r i sid biz_type timeout now).1
unfolding try_register_waiter
try_register_waiter-Inv r i sid biz_type timeout now s =
    let k = outbound_key sid i in
    let (token, r') = register_impl r k biz_type timeout false now now in
    add_waiter-Inv r' k token (register_impl-Inv r k biz_type timeout false now now s)

allocate-Inv :
    (r : RequestRegistry) (sid : ℕ) (rt : SessionRuntime) → Inv r → Inv (allocate r sid rt).1
unfolding allocate
allocate-Inv r sid rt s = elim (Bool-cases rt.closing) [
  | inl c ↦ rw c s
  | inr o ↦ rw o (elim (Bool-cases (rt.next_request_id == u32_max)) [
    | inl full ↦ rw full s
    | inr room ↦ rw room s
  ])
]

pub next_request_id-Inv :
    (r : RequestRegistry) (sid : Option ℕ) → Inv r → Inv (next_request_id r sid).1
unfolding next_request_id
next_request_id-Inv r none s = s
next_request_id-Inv r (some sid) s = elim (Option-cases (get sid r.sessions)) [
  | inl n ↦ rw (n, next_request_id) s
  | inr (rt, g) ↦ rw (g, next_request_id) (allocate-Inv r sid rt s)
]
