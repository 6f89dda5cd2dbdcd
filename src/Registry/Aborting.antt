-- ===== src/Registry/Aborting.antt =====
-- request_registry.rs: what `abort_all` ends.
use msgtrans.Prelude.{
  ℕ, ◌+◌, ◌≡◌, refl, ap, ◌∙◌, inl, inr, List, [], ◌∷◌, Option, none, some, Bool, if◌then◌else◌,
  Bool-cases, Option-cases,
}
use msgtrans.Prelude.Map.{nat_eq, get, remove, keys, has, has-keys, is_some}
use msgtrans.Registry.{
  RequestKey, key_eq, key_beq, RequestEntry, RequestRegistry, pending, dropped, remove_waiter,
}
use msgtrans.Registry.Respond.{is_state}
use msgtrans.Registry.Abort.{mark_dropped_key, is_updated, drop_sessions, drop_keys, abort_all}
use msgtrans.Registry.Invariant.{retire-entries}
use msgtrans.Registry.Deadlines.{unless, entries_kept, entries_removed, unless_twice}

-- The states that `abort_all` ends.
abbrev pub is_pending : RequestEntry → Bool
is_pending e = is_state e.state pending

mark_dropped_key-entries :
    (r : RequestRegistry) (k j : RequestKey)
    → get j (mark_dropped_key r k).1.entries
      ≡ (if key_beq k j then unless is_pending (get j r.entries) else get j r.entries)
unfolding mark_dropped_key
mark_dropped_key-entries r k j = elim (Option-cases (get k r.entries)) [
  | inl n ↦ rw (n, mark_dropped_key) (entries_kept is_pending k j r.entries (rw n refl))
  | inr (e, g) ↦
      rw (g, mark_dropped_key)
        (elim (Bool-cases (is_state e.state pending)) [
          | inl t ↦ rw t (
              ap (get j) (retire-entries r k (record e { state = dropped }))
              ∙ entries_removed is_pending k j e r.entries g t)
          | inr f ↦ rw f (entries_kept is_pending k j r.entries (rw g (rw f refl)))
        ])
]

drop_keys-entries :
    (r : RequestRegistry) (ks : List RequestKey) (j : RequestKey) (n : ℕ)
    → get j (drop_keys r ks n).1.entries
      ≡ (if has ks j then unless is_pending (get j r.entries) else get j r.entries)
unfolding drop_keys
drop_keys-entries r [] j n = refl
drop_keys-entries r (k ∷ ks) j n =
    drop_keys-entries (remove_waiter (mark_dropped_key r k).1 k) ks j
      (if is_updated (mark_dropped_key r k).0 then n + 1 else n)
    ∙ ap (λ o. if has ks j then unless is_pending o else o) (mark_dropped_key-entries r k j)
    ∙ unless_twice is_pending (key_beq k j) (has ks j) (get j r.entries)

drop_sessions-entries :
    (r : RequestRegistry) (sids : List ℕ) → (drop_sessions r sids).entries ≡ r.entries
unfolding drop_sessions
drop_sessions-entries r [] = refl
drop_sessions-entries r (sid ∷ sids) =
    drop_sessions-entries (record r { sessions = remove sid r.sessions }) sids

-- Aborting everything removes every pending request and no other: a request that is being answered
-- stays in the table.
pub abort_all-entries :
    (r : RequestRegistry) (j : RequestKey)
    → get j (abort_all r).1.entries ≡ unless is_pending (get j r.entries)
unfolding abort_all
abort_all-entries r j =
    let closed = drop_sessions r (keys r.sessions) in
    let same = drop_sessions-entries r (keys r.sessions) in
    drop_keys-entries closed (keys closed.entries) j 0
    ∙ ap (λ b. if b then unless is_pending (get j closed.entries) else get j closed.entries)
        (has-keys closed.entries j)
    ∙ present (get j closed.entries)
    ∙ ap (λ m. unless is_pending (get j m)) same
  where
    present :
        (o : Option RequestEntry)
        → (if is_some o then unless is_pending o else o) ≡ unless is_pending o
    present none = refl
    present (some e) = refl
