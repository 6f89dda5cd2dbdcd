-- ===== src/Registry/Listed.antt =====
-- request_registry.rs: a session lists its requests, so that its close finds them.
pub mod Answer
pub mod Admit
pub mod Teardown
use msgtrans.Prelude.{
  ℕ, ◌≡◌, refl, sym, ap, ◌∙◌, subst, inl, inr, Option, none, some, Bool, true, false, not, ◌&&◌,
  ◌||◌, arith, if◌then◌else◌, Bool-cases, Option-cases, ◌==◌, ==_iff,
}
use msgtrans.Prelude.Map.{is_some, nat_eq, Map, get, insert, remove, get-insert, get-remove}
use msgtrans.Registry.{
  RequestKey, key_eq, key_beq, key_beq_iff, RequestEntry, RequestState, pending, responding,
  RequestRegistry, SessionRuntime, forget_request, retire, remove_terminal_entry, store_entry,
  uncount_pending,
}
use msgtrans.Registry.Invariant.{retire-entries}
use msgtrans.Registry.Respond.{is_state}

-- An open runtime with `j` in its set.
abbrev pub lists : RequestKey → Option SessionRuntime → Bool
lists j none = false
lists j (some rt) = not rt.closing && is_some (get j rt.requests)

abbrev pub listed_in : Map ℕ SessionRuntime → RequestKey → Option ℕ → Bool
listed_in ss j none = true
listed_in ss j (some sid) = lists j (get sid ss)

-- The session of `j`, where it has one, is open and lists it.
abbrev pub listed : Map ℕ SessionRuntime → RequestKey → Bool
listed ss j = listed_in ss j j.session_id

-- An entry is listed, unless it is being answered.
abbrev pub covered : Map ℕ SessionRuntime → RequestKey → Option RequestEntry → Bool
covered ss j none = true
covered ss j (some e) = is_state e.state responding || listed ss j

abbrev pub Covers : Map RequestKey RequestEntry → Map ℕ SessionRuntime → Type 0
Covers es ss = (j : RequestKey) → covered ss j (get j es) ≡ true

-- What does not unlist a key does not uncover it.
pub covered_mono :
    (ss ss' : Map ℕ SessionRuntime) (j : RequestKey) (o : Option RequestEntry)
    → (listed ss j ≡ true → listed ss' j ≡ true)
    → covered ss j o ≡ true
    → covered ss' j o ≡ true
covered_mono ss ss' j none f h = refl
covered_mono ss ss' j (some e) f h = elim (Bool-cases (is_state e.state responding)) [
  | inl t ↦ rw t refl
  | inr n ↦ rw n (f (rw n at h))
]

-- Another runtime in place of one, which lists what that one did.
pub listed-insert :
    (ss : Map ℕ SessionRuntime) (sid : ℕ) (rt : SessionRuntime) (j : RequestKey)
    → (lists j (get sid ss) ≡ true → lists j (some rt) ≡ true)
    → listed ss j ≡ true
    → listed (insert sid rt ss) j ≡ true
listed-insert ss sid rt j f = in_session j.session_id
  where
    in_session : (o : Option ℕ) → listed_in ss j o ≡ true → listed_in (insert sid rt ss) j o ≡ true
    in_session none h = refl
    in_session (some s) h = ap (lists j) (get-insert sid s rt ss) ∙ elim (Bool-cases (sid == s)) [
      | inl t ↦ rw t (f (subst (λ i. lists j (get i ss) ≡ true) (sym ((==_iff sid s).0 t)) h))
      | inr n ↦ rw n h
    ]

-- The set of `k`'s session without `k` still lists the other keys.
pub listed-forget_request :
    (r : RequestRegistry) (k : RequestKey) (o : Option ℕ) (j : RequestKey)
    → key_beq k j ≡ false
    → listed r.sessions j ≡ true
    → listed (forget_request r k o).sessions j ≡ true
unfolding forget_request
listed-forget_request r k none j n h = h
listed-forget_request r k (some sid) j n h = elim (Option-cases (get sid r.sessions)) [
  | inl e ↦ rw (e, forget_request) h
  | inr (rt, e) ↦
      let rt' : SessionRuntime = record rt { requests = remove k rt.requests } in
      rw (e, forget_request)
        (listed-insert r.sessions sid rt' j
          (λ l.
            ap (λ x. not rt.closing && is_some x) (get-remove k j rt.requests ∙ rw n refl)
            ∙ (rw e at l))
          h)
]

-- An entry that goes away with its listing.
pub retire-Covers :
    (r : RequestRegistry) (k : RequestKey) (e : RequestEntry)
    → Covers r.entries r.sessions
    → Covers (retire r k e).entries (retire r k e).sessions
unfolding remove_terminal_entry
retire-Covers r k e c j =
    let r' : RequestRegistry = record (uncount_pending (store_entry r k e)) {
      entries = remove k (insert k e r.entries);
    } in
    let after = (retire r k e).sessions in
    ap (covered after j) (ap (get j) (retire-entries r k e) ∙ get-remove k j r.entries)
    ∙ elim (Bool-cases (key_beq k j)) [
      | inl t ↦ rw t refl
      | inr n ↦ rw n (
          covered_mono r.sessions after j (get j r.entries)
            (listed-forget_request r' k k.session_id j n) (c j))
    ]

-- An entry that is claimed needs no listing.
pub claim-Covers :
    (r : RequestRegistry) (k : RequestKey) (e : RequestEntry)
    → Covers r.entries r.sessions
    → e.state ≡ responding
    → Covers (insert k e r.entries) r.sessions
claim-Covers r k e c g j =
    ap (covered r.sessions j) (get-insert k j e r.entries)
    ∙ elim (Bool-cases (key_beq k j)) [ inl t ↦ rw t (rw g refl) | inr n ↦ rw n (c j) ]
