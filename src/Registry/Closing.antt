-- ===== src/Registry/Closing.antt =====
-- request_registry.rs: what a closing session takes with it.
use msgtrans.Prelude.{
  ℕ, ◌+◌, ◌≡◌, refl, ◌∙◌, List, [], ◌∷◌, none, some, Bool, true, false, ltb, if◌then◌else◌,
  Bool-cases, Option-cases, inl, inr, ap,
}
use msgtrans.Prelude.Map.{has, nat_eq, get, remove, keys, Every-get}
use msgtrans.Registry.{SessionRuntime, RequestRegistry, RequestEntry, RequestKey, key_eq, key_beq}
use msgtrans.Registry.Invariant.{IsLive, Inv}
use msgtrans.Registry.Close.{dies, close_key, close_keys, close_session_pending, count_closed}
use msgtrans.Registry.Deadlines.{unless, entries_kept, entries_removed, unless_twice}

close_key-entries :
    (r : RequestRegistry) (k j : RequestKey)
    → get j (close_key r k).1.entries
      ≡ (if key_beq k j then unless dies (get j r.entries) else get j r.entries)
unfolding close_key
close_key-entries r k j = elim (Option-cases (get k r.entries)) [
  | inl n ↦ rw (n, close_key) (entries_kept dies k j r.entries (rw n refl))
  | inr (e, g) ↦
      rw (g, close_key)
        (elim (Bool-cases (dies e)) [
          | inl t ↦ rw t (entries_removed dies k j e r.entries g t)
          | inr f ↦ rw f (entries_kept dies k j r.entries (rw g (rw f refl)))
        ])
]

close_key-sessions :
    (r : RequestRegistry) (k : RequestKey) → (close_key r k).1.sessions ≡ r.sessions
unfolding close_key
close_key-sessions r k = elim (Option-cases (get k r.entries)) [
  | inl n ↦ rw (n, close_key) refl
  | inr (e, g) ↦
      rw (g, close_key) (elim (Bool-cases (dies e)) [ inl t ↦ rw t refl | inr f ↦ rw f refl ])
]

pub close_keys-entries :
    (r : RequestRegistry) (ks : List RequestKey) (j : RequestKey) (n : ℕ)
    → get j (close_keys r ks n).1.entries
      ≡ (if has ks j then unless dies (get j r.entries) else get j r.entries)
unfolding close_keys
close_keys-entries r [] j n = refl
close_keys-entries r (k ∷ ks) j n =
    close_keys-entries (close_key r k).1 ks j (if (close_key r k).0 then n + 1 else n)
    ∙ ap (λ o. if has ks j then unless dies o else o) (close_key-entries r k j)
    ∙ unless_twice dies (key_beq k j) (has ks j) (get j r.entries)

pub close_keys-sessions :
    (r : RequestRegistry) (ks : List RequestKey) (n : ℕ)
    → (close_keys r ks n).1.sessions ≡ r.sessions
unfolding close_keys
close_keys-sessions r [] n = refl
close_keys-sessions r (k ∷ ks) n =
    close_keys-sessions (close_key r k).1 ks (if (close_key r k).0 then n + 1 else n)
    ∙ close_key-sessions r k

-- Both live states die.
dies_live : (k : RequestKey) (e : RequestEntry) → IsLive k e → dies e ≡ true
unfolding dies
dies_live k e (h, inl p) = rw (p, dies) refl
dies_live k e (h, inr p) = rw (p, dies) (rw p refl)

pub unless-dies :
    (r : RequestRegistry) (j : RequestKey) → Inv r → unless dies (get j r.entries) ≡ none
unless-dies r j s = elim (Option-cases (get j r.entries)) [
  | inl n ↦ rw n refl
  | inr (e, g) ↦ rw g (rw (dies_live j e (Every-get IsLive j e r.entries s.live g)) refl)
]

-- The tables after a close, whatever the counter of closed requests says.
pub counted_entries :
    (b : Bool) (r : RequestRegistry) (n : ℕ)
    → ((if b then count_closed r n else r).entries ≡ r.entries)
      × ((if b then count_closed r n else r).sessions ≡ r.sessions)
counted_entries true r n = (refl, refl)
counted_entries false r n = (refl, refl)

pub close_session_pending_open :
    (r : RequestRegistry) (sid : ℕ) (rt : SessionRuntime)
    → get sid r.sessions ≡ some rt
    → ((close_session_pending r sid).1.entries
        ≡ (close_keys
            (record r { sessions = remove sid r.sessions })
            (keys rt.requests)
            0).1.entries)
      × ((close_session_pending r sid).1.sessions ≡ remove sid r.sessions)
unfolding close_session_pending
close_session_pending_open r sid rt g =
    let start = record r { sessions = remove sid r.sessions } in
    let c = close_keys start (keys rt.requests) 0 in
    let (es, ss) = counted_entries (ltb 0 c.0) c.1 c.0 in
    rw (g, close_session_pending) (es, ss ∙ close_keys-sessions start (keys rt.requests) 0)
