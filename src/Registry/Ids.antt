-- ===== src/Registry/Ids.antt =====
-- request_registry.rs, `next_request_id`: the ids of one session.
use msgtrans.Prelude.{
  ℕ, zero, suc, ◌+◌, ◌≤◌, ◌≡◌, refl, ◌∙◌, none, some, true, false, arith, ltb, not, ==_iff, inl,
  inr, ◌==◌, if◌then◌else◌, Bool-cases, min, ap,
}
use msgtrans.Prelude.Map.{nat_eq, get, insert, get-insert}
use msgtrans.Packet.{u32_max}
use msgtrans.Registry.{SessionRuntime, RequestRegistry}
use msgtrans.Registry.Register.{allocate, next_request_id}

-- The registry after `n` allocations for a session.
unfoldable pub allocated : RequestRegistry → ℕ → ℕ → RequestRegistry
allocated r sid zero = r
allocated r sid (suc n) = (next_request_id (allocated r sid n) (some sid)).1

next_request_id_open :
    (r : RequestRegistry) (sid : ℕ) (rt : SessionRuntime)
    → get sid r.sessions ≡ some rt
    → next_request_id r (some sid) ≡ allocate r sid rt
unfolding next_request_id
next_request_id_open r sid rt h = rw (h, next_request_id) refl

abbrev pub with_id : SessionRuntime → ℕ → SessionRuntime
with_id rt i = record rt { next_request_id = i }

ltb_bound : (i b : ℕ) → i ≤ b → ltb i b ≡ not (i == b)
ltb_bound i b h = ground arith

next_bound : (i b : ℕ) → i ≤ b → (i == b) ≡ false → i + 1 ≡ min (i + 1) b
next_bound i b h n = ground arith

last_bound : (i b : ℕ) → (i == b) ≡ true → i ≡ min (i + 1) b
last_bound i b h = ground arith

allocate_last :
    (r : RequestRegistry) (sid : ℕ) (rt : SessionRuntime)
    → rt.closing ≡ false
    → (rt.next_request_id == u32_max) ≡ true
    → allocate r sid rt ≡ (none, r)
unfolding allocate
allocate_last r sid rt o t = rw (o, allocate) (rw t refl)

pub allocate_next :
    (r : RequestRegistry) (sid : ℕ) (rt : SessionRuntime)
    → rt.closing ≡ false
    → (rt.next_request_id == u32_max) ≡ false
    → allocate r sid rt ≡ (
      some rt.next_request_id,
      record r { sessions = insert sid (with_id rt (rt.next_request_id + 1)) r.sessions },
    )
unfolding allocate
allocate_next r sid rt o f = rw (o, allocate) (rw f refl)

-- One allocation by an open session.
allocate_open :
    (r : RequestRegistry) (sid : ℕ) (rt : SessionRuntime)
    → get sid r.sessions ≡ some rt
    → rt.closing ≡ false
    → rt.next_request_id ≤ u32_max
    → ((allocate r sid rt).0
        ≡ (if ltb rt.next_request_id u32_max then some rt.next_request_id else none))
      × (get sid (allocate r sid rt).1.sessions
          ≡ some (with_id rt (min (rt.next_request_id + 1) u32_max)))
allocate_open r sid rt h o b = elim (Bool-cases (rt.next_request_id == u32_max)) [
  | inl t ↦
      rw (allocate_last r sid rt o t, ltb_bound rt.next_request_id u32_max b, t)
        (refl, h ∙ ap (λ i. some (with_id rt i)) (last_bound rt.next_request_id u32_max t))
  | inr f ↦
      rw (allocate_next r sid rt o f, ltb_bound rt.next_request_id u32_max b, f)
        (
          refl,
          get-insert sid sid (with_id rt (rt.next_request_id + 1)) r.sessions
              ∙ rw ((==_iff sid sid).1 refl)
                  (ap (λ i. some (with_id rt i)) (next_bound rt.next_request_id u32_max b f)),
        )
]

min_step : (i n b : ℕ) → min (min (i + n) b + 1) b ≡ min (i + suc n) b
min_step i n b = omega arith

allocated_open :
    (r : RequestRegistry) (sid : ℕ) (rt : SessionRuntime) (n : ℕ)
    → get sid r.sessions ≡ some rt
    → rt.closing ≡ false
    → rt.next_request_id ≤ u32_max
    → get sid (allocated r sid n).sessions
      ≡ some (with_id rt (min (rt.next_request_id + n) u32_max))
unfolding allocated
allocated_open r sid rt zero h o b = h ∙ ap (λ i. some (with_id rt i)) (omega (arith, b))
allocated_open r sid rt (suc n) h o b =
    let before = allocated_open r sid rt n h o b in
    let rt' = with_id rt (min (rt.next_request_id + n) u32_max) in
    ap (λ a. get sid a.1.sessions) (next_request_id_open (allocated r sid n) sid rt' before)
    ∙ (allocate_open (allocated r sid n) sid rt' before o (omega arith)).1
    ∙ ap (λ i. some (with_id rt i)) (min_step rt.next_request_id n u32_max)

min_test :
    (i b : ℕ)
    → (if ltb (min i b) b then some (min i b) else none) ≡ (if ltb i b then some i else none)
min_test i b = ground arith

-- In an open session whose counter stands at `i`, with `i ≤ u32::MAX`, the allocation after `n`
-- others returns `i + n` as long as that is below `u32::MAX`, and `None` from there on: ids of a
-- session are consecutive, none is given twice, and the counter never wraps.
pub next_request_id_consecutive :
    (r : RequestRegistry) (sid : ℕ) (rt : SessionRuntime) (n : ℕ)
    → get sid r.sessions ≡ some rt
    → rt.closing ≡ false
    → rt.next_request_id ≤ u32_max
    → (next_request_id (allocated r sid n) (some sid)).0
      ≡ (if ltb (rt.next_request_id + n) u32_max then some (rt.next_request_id + n) else none)
next_request_id_consecutive r sid rt n h o b =
    let before = allocated_open r sid rt n h o b in
    let i = min (rt.next_request_id + n) u32_max in
    ap (λ a. a.0) (next_request_id_open (allocated r sid n) sid (with_id rt i) before)
    ∙ (allocate_open (allocated r sid n) sid (with_id rt i) before o (omega arith)).0
    ∙ min_test (rt.next_request_id + n) u32_max
