-- ===== src/Registry/Register.antt =====
-- request_registry.rs: sessions, id allocation and registration.
use msgtrans.Prelude.{
  ℕ, zero, suc, ◌+◌, ◌-◌, ◌/◌, ◌%◌, ◌^◌, List, [], ◌∷◌, ◌++◌, Option, none, some, ok, err, Bool,
  true, false, ◌==◌, if◌then◌else◌, min, max, leb,
}
use msgtrans.Prelude.Map.{nat_eq, get, insert}
use msgtrans.Packet.{u32_max}
use msgtrans.Registry.{
  inbound, session_closed, retire, try_transition, remove_waiter, pending, outbound, RequestKey,
  key_eq, RequestEntry, RequestToken, SessionRuntime, new_runtime, RequestRegistry, add64, u64_mod,
  count_pending, uncount_pending, store_entry,
}

-- A session that is open already is left alone.
unfoldable pub open_session : RequestRegistry → ℕ → RequestRegistry
open_session r sid = elim (get sid r.sessions) [
  | none ↦ record r { sessions = insert sid new_runtime r.sessions }
  | some rt ↦ r
]

-- A u32 counter that wraps.
unfoldable pub next_oneway_id : RequestRegistry → ℕ × RequestRegistry
next_oneway_id r = (r.next_id, record r { next_id = (r.next_id + 1) % 2 ^ 32 })

-- The session's own counter: it stops at the largest u32 and never wraps.
unfoldable pub allocate : RequestRegistry → ℕ → SessionRuntime → Option ℕ × RequestRegistry
allocate r sid rt =
    if rt.closing
    then (none, r)
    else (if rt.next_request_id == u32_max then (none, r) else (
      some rt.next_request_id,
      record r {
        sessions = insert sid (record rt { next_request_id = rt.next_request_id + 1 }) r.sessions;
      },
    ))

unfoldable pub next_request_id : RequestRegistry → Option ℕ → Option ℕ × RequestRegistry
unfolding next_oneway_id
next_request_id r none = let (i, r') = next_oneway_id r in (some i, r')
next_request_id r (some sid) = elim (get sid r.sessions) [
  | none ↦ (none, r)
  | some rt ↦ allocate r sid rt
]

-- The `n`-th element changed; out of range nothing changes.
abbrev pub modify {ℓ} : {A : Type ℓ} → List A → ℕ → (A → A) → List A
modify [] n f = []
modify (x ∷ xs) zero f = f x ∷ xs
modify (x ∷ xs) (suc n) f = x ∷ modify xs n f

-- `now` is the clock as this call reads it.
unfoldable pub ticks_until : RequestRegistry → ℕ → ℕ → ℕ
ticks_until r deadline_at now =
    if leb deadline_at now
    then 1
    else max ((deadline_at - now + r.tick_duration - 1) / r.tick_duration % u64_mod) 1

unfoldable pub schedule_for_deadline : RequestRegistry → RequestKey → ℕ → ℕ → RequestRegistry
unfolding ticks_until
schedule_for_deadline r k deadline_at now =
    let target_tick = min (r.current_tick + ticks_until r deadline_at now) (u64_mod - 1) in
    record r {
      buckets = modify r.buckets (target_tick % r.bucket_count) (λ bucket. bucket ++ (k ∷ []));
    }

-- The runtime that a registration runs under: `none` refuses it.
unfoldable pub resolve_runtime : RequestRegistry → Option ℕ → Option (Option SessionRuntime)
resolve_runtime r none = some none
resolve_runtime r (some sid) = elim (get sid r.sessions) [
  | none ↦ none
  | some rt ↦ if rt.closing then none else some (some rt)
]

abbrev pub new_entry : RequestKey → ℕ → ℕ → ℕ → ℕ → RequestEntry
new_entry k biz_type now timeout generation = record {
  key = k;
  biz_type = biz_type;
  created_at = now;
  deadline_at = now + timeout;
  generation = generation;
  state = pending;
}

-- `rt.requests.insert(key)`.
unfoldable pub track_request : RequestRegistry → RequestKey → Option ℕ → RequestRegistry
track_request r k none = r
track_request r k (some sid) = elim (get sid r.sessions) [
  | none ↦ r
  | some rt ↦ record r {
    sessions = insert sid (record rt { requests = insert k tt rt.requests }) r.sessions;
  }
]

-- What the held runtime says when it is looked at again: `!rt.is_open()`.
unfoldable pub now_closing : RequestRegistry → Option ℕ → Bool
now_closing r none = false
now_closing r (some sid) = elim (get sid r.sessions) [ none ↦ false | some rt ↦ rt.closing ]

-- The session closed meanwhile: no pending entry may outlive it.
unfoldable pub undo_register : RequestRegistry → RequestKey → RequestRegistry
undo_register r k = elim (get k r.entries) [
  | none ↦ remove_waiter r k
  | some e ↦ elim (try_transition e pending session_closed) [
    | ok e' ↦ remove_waiter (retire r k e') k
    | err s ↦ remove_waiter r k
  ]
]

-- The tail of a registration that found its key free.
unfoldable pub admit :
    RequestRegistry → RequestKey → RequestEntry → Bool → ℕ → Option RequestToken × RequestRegistry
unfolding track_request schedule_for_deadline
admit r k e schedule later =
    let r' = track_request (store_entry r k e) k k.session_id in
    if now_closing r' k.session_id then (none, undo_register r' k) else (
      some (record {
        session_id = k.session_id;
        request_id = k.request_id;
        direction = k.direction;
        generation = e.generation;
      }),
      if schedule then schedule_for_deadline r' k e.deadline_at later else r',
    )

-- `now` is the first reading of the clock and `later` the one that the scheduling makes.
unfoldable pub register_impl :
    RequestRegistry → RequestKey → ℕ → ℕ → Bool → ℕ → ℕ → Option RequestToken × RequestRegistry
register_impl r k biz_type timeout schedule now later = elim (resolve_runtime r k.session_id) [
  | none ↦ (none, r)
  | some runtime ↦
      let e = new_entry k biz_type now timeout r.next_generation in
      let stamped = record r { next_generation = add64 r.next_generation 1 } in
      let counted = count_pending stamped in
      elim (get k r.entries) [
        | some other ↦ (none, uncount_pending counted)
        | none ↦ admit counted k e schedule later
      ]
]

-- An inbound request.
unfoldable pub register :
    RequestRegistry → ℕ → Option ℕ → ℕ → ℕ → ℕ → ℕ → Option RequestToken × RequestRegistry
register r request_id session_id biz_type timeout now later =
    register_impl r
      (record { session_id = session_id; request_id = request_id; direction = inbound }) biz_type
      timeout true now later

abbrev pub outbound_key : Option ℕ → ℕ → RequestKey
outbound_key session_id request_id = record {
  session_id = session_id;
  request_id = request_id;
  direction = outbound;
}

-- A waiter for a registration that was admitted: its channel's number, and the token.
unfoldable pub add_waiter :
    RequestRegistry → RequestKey → Option RequestToken → Option (ℕ × RequestToken) × RequestRegistry
add_waiter r k none = (none, r)
add_waiter r k (some token) =
    let waiting = record r {
      waiters = insert k r.next_channel r.waiters;
      next_channel = r.next_channel + 1;
    } in
    elim (get k r.entries) [
      | none ↦ (none, remove_waiter waiting k)
      | some e ↦ (some (r.next_channel, token), waiting)
    ]

-- An outbound request with its waiter; `none` is `DuplicateRequest`.
unfoldable pub try_register_waiter :
    RequestRegistry → ℕ → Option ℕ → ℕ → ℕ → ℕ → Option (ℕ × RequestToken) × RequestRegistry
try_register_waiter r request_id session_id biz_type timeout now =
    let k = outbound_key session_id request_id in
    let (token, r') = register_impl r k biz_type timeout false now now in add_waiter r' k token
