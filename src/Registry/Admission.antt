-- ===== src/Registry/Admission.antt =====
-- request_registry.rs, `register`: when an inbound request is admitted, and what it changes.
use msgtrans.Prelude.{
  ℕ, ◌≡◌, refl, Option, none, some, inl, inr, Bool, true, false, not, ◌&&◌, ==_iff, arith,
  Option-cases, Bool-cases, if◌then◌else◌,
}
use msgtrans.Prelude.Map.{nat_eq, get, insert, get-insert, is_some}
use msgtrans.Registry.{
  RequestKey, key_eq, key_beq, RequestEntry, RequestToken, RequestRegistry, inbound, add64,
  SessionRuntime, count_pending, store_entry,
}
use msgtrans.Registry.Gauge.Admit.{track_request-entries}
use msgtrans.Registry.Register.{
  new_entry, resolve_runtime, track_request, now_closing, schedule_for_deadline, admit,
  register_impl, register,
}

abbrev pub runtime_open : Option SessionRuntime → Bool
runtime_open none = false
runtime_open (some rt) = not rt.closing

-- The session is in the registry and takes requests.
abbrev pub is_open : RequestRegistry → ℕ → Bool
is_open r sid = runtime_open (get sid r.sessions)

abbrev pub inbound_key : ℕ → ℕ → RequestKey
inbound_key sid i = record { session_id = some sid; request_id = i; direction = inbound }

still_open :
    (r : RequestRegistry) (k : RequestKey) (sid : ℕ) (rt : SessionRuntime)
    → get sid r.sessions ≡ some rt
    → rt.closing ≡ false
    → now_closing (track_request r k (some sid)) (some sid) ≡ false
unfolding track_request now_closing
still_open r k sid rt g h =
    let e = get-insert sid sid (record rt { requests = insert k tt rt.requests }) r.sessions in
    rw (g, track_request) (rw (e, now_closing) (rw ((==_iff sid sid).1 refl) h))

abbrev pub token_of : ℕ → ℕ → ℕ → RequestToken
token_of sid i generation = record {
  session_id = some sid;
  request_id = i;
  direction = inbound;
  generation = generation;
}

-- What an inbound registration does to the table, and the token that it gives.
abbrev pub Admitted :
    RequestRegistry
    → ℕ
    → ℕ
    → ℕ
    → ℕ
    → ℕ
    → RequestKey
    → Option RequestToken × RequestRegistry
    → Type 0
Admitted r i sid b timeout now j out =
    let k = inbound_key sid i in
    let free = is_open r sid && not (is_some (get k r.entries)) in
    (out.0 ≡ (if free then some (token_of sid i r.next_generation) else none))
    × (get j out.1.entries ≡ (
        if free && key_beq k j
        then some (new_entry k b now timeout r.next_generation)
        else get j r.entries))

admit_open :
    (r : RequestRegistry) (i sid : ℕ) (rt : SessionRuntime) (e : RequestEntry) (later : ℕ)
    → get sid r.sessions ≡ some rt
    → rt.closing ≡ false
    → ((admit r (inbound_key sid i) e true later).0 ≡ some (token_of sid i e.generation))
      × ((admit r (inbound_key sid i) e true later).1.entries
          ≡ insert (inbound_key sid i) e r.entries)
unfolding admit schedule_for_deadline
admit_open r i sid rt e later g o =
    let k = inbound_key sid i in
    let r' = store_entry r k e in
    rw (still_open r' k sid rt g o) (refl, (track_request-entries r' k (some sid)).0)

-- A request is admitted exactly when its session is open and no request of that id is in the table;
-- then the table gains its entry, pending under the token's generation, and nothing else changes.
pub register-entries :
    (r : RequestRegistry) (i sid b timeout now later : ℕ) (j : RequestKey)
    → Admitted r i sid b timeout now j (register r i (some sid) b timeout now later)
unfolding register register_impl resolve_runtime
register-entries r i sid b timeout now later j = elim (Option-cases (get sid r.sessions)) [
  | inl n ↦ ground arith
  | inr (rt, g) ↦ elim (Bool-cases rt.closing) [
    | inl c ↦ ground arith
    | inr o ↦ elim (Option-cases (get (inbound_key sid i) r.entries)) [
      | inr (e, busy) ↦ ground arith
      | inl vacant ↦
          let k = inbound_key sid i in
          let e = new_entry k b now timeout r.next_generation in
          let counted = count_pending (record r { next_generation = add64 r.next_generation 1 }) in
          let (t, m) = admit_open counted i sid rt e later g o in
          ground (arith, t, m, get-insert k j e r.entries)
    ]
  ]
]
