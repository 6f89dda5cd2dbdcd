-- ===== src/Registry/Deadlines.antt =====
-- request_registry.rs: which requests a scan of the wheel ends.
use msgtrans.Prelude.{
  ℕ, ◌+◌, ◌%◌, ◌≡◌, refl, ◌∙◌, sym, subst, List, [], ◌∷◌, Option, none, some, Bool, true, arith,
  leb, ◌&&◌, ◌||◌, if◌then◌else◌, Bool-cases, Option-cases, inl, inr, ap, length, get_or,
}
use msgtrans.Prelude.Map.{has, nat_eq, Map, get, remove, get-remove}
use msgtrans.Registry.{
  RequestRegistry, RequestEntry, RequestKey, key_eq, key_beq, key_beq_iff, pending, timed_out,
  count_timeout, add64,
}
use msgtrans.Registry.Invariant.{retire-entries}
use msgtrans.Registry.Register.{modify, schedule_for_deadline}
use msgtrans.Registry.Respond.{is_state}
use msgtrans.Registry.Wheel.{mark_timed_out, scan_key, scan_keys, scan_timeout_bucket}

-- The entry is pending and its deadline is not after `now`.
abbrev pub is_due : ℕ → RequestEntry → Bool
is_due now e = is_state e.state pending && leb e.deadline_at now

-- What is left of an entry when those that the test accepts are gone.
abbrev pub unless : (RequestEntry → Bool) → Option RequestEntry → Option RequestEntry
unless test none = none
unless test (some e) = if test e then none else some e

-- What the test says of the entry under `k`, when the table is left alone.
pub entries_kept :
    (test : RequestEntry → Bool) (k j : RequestKey) (m : Map RequestKey RequestEntry)
    → unless test (get k m) ≡ get k m
    → get j m ≡ (if key_beq k j then unless test (get j m) else get j m)
entries_kept test k j m h = elim (Bool-cases (key_beq k j)) [
  | inr f ↦ rw f refl
  | inl t ↦ rw t (subst (λ i. get i m ≡ unless test (get i m)) ((key_beq_iff k j).0 t) (sym h))
]

-- The same when the entry under `k` passed the test and is removed.
pub entries_removed :
    (test : RequestEntry → Bool) (k j : RequestKey) (e : RequestEntry)
    (m : Map RequestKey RequestEntry)
    → get k m ≡ some e
    → test e ≡ true
    → get j (remove k m) ≡ (if key_beq k j then unless test (get j m) else get j m)
entries_removed test k j e m g h = get-remove k j m ∙ elim (Bool-cases (key_beq k j)) [
  | inr f ↦ rw f refl
  | inl t ↦
      rw t (subst (λ i. none ≡ unless test (get i m)) ((key_beq_iff k j).0 t) (rw g (rw h refl)))
]

mark_timed_out_pending :
    (r : RequestRegistry) (k : RequestKey) (e : RequestEntry)
    → get k r.entries ≡ some e
    → is_state e.state pending ≡ true
    → (mark_timed_out r k).1.entries ≡ remove k r.entries
unfolding mark_timed_out
mark_timed_out_pending r k e g t =
    rw (g, mark_timed_out)
      (rw t (retire-entries (count_timeout r) k (record e { state = timed_out })))

scan_key-entries :
    (r : RequestRegistry) (k j : RequestKey) (now later : ℕ)
    → get j (scan_key r k now later).1.entries
      ≡ (if key_beq k j then unless (is_due now) (get j r.entries) else get j r.entries)
unfolding scan_key schedule_for_deadline
scan_key-entries r k j now later = elim (Option-cases (get k r.entries)) [
  | inl n ↦ rw (n, scan_key) (entries_kept (is_due now) k j r.entries (rw n refl))
  | inr (e, g) ↦
      rw (g, scan_key)
        (elim (Bool-cases (is_state e.state pending)) [
          | inr f ↦ rw f (entries_kept (is_due now) k j r.entries (rw g (rw f refl)))
          | inl t ↦ rw t (elim (Bool-cases (leb e.deadline_at now)) [
            | inr f' ↦ rw f' (entries_kept (is_due now) k j r.entries (rw g (rw t (rw f' refl))))
            | inl t' ↦ rw t' (
                ap (get j) (mark_timed_out_pending r k e g t)
                ∙ entries_removed (is_due now) k j e r.entries g (rw t (rw t' refl)))
          ])
        ])
]

-- One key after others, or the same again.
pub unless_twice :
    (test : RequestEntry → Bool) (a b : Bool) (o : Option RequestEntry)
    → (if b then unless test (if a then unless test o else o) else (if a then unless test o else o))
      ≡ (if a || b then unless test o else o)
unless_twice test a b none = ground arith
unless_twice test a b (some e) = ground arith

scan_keys-entries :
    (r : RequestRegistry) (ks : List RequestKey) (j : RequestKey) (now : ℕ) (clock : ℕ → ℕ) (n : ℕ)
    → get j (scan_keys r ks now clock n).1.entries
      ≡ (if has ks j then unless (is_due now) (get j r.entries) else get j r.entries)
unfolding scan_keys
scan_keys-entries r [] j now clock n = refl
scan_keys-entries r (k ∷ ks) j now clock n =
    let later = clock (length ks) in
    scan_keys-entries (scan_key r k now later).1 ks j now clock
      (if (scan_key r k now later).0 then n + 1 else n)
    ∙ ap (λ o. if has ks j then unless (is_due now) o else o) (scan_key-entries r k j now later)
    ∙ unless_twice (is_due now) (key_beq k j) (has ks j) (get j r.entries)

-- A scan of the wheel removes exactly the requests that the current bucket lists, are pending, and
-- have a deadline not after `now`. Every other entry stays as it is, whatever the later readings of
-- the clock: no request ends before its deadline, and none that is being answered.
pub scan_timeout_bucket-entries :
    (r : RequestRegistry) (now : ℕ) (clock : ℕ → ℕ) (j : RequestKey)
    → get j (scan_timeout_bucket r now clock).1.entries ≡ (
        if has (get_or r.buckets ((r.current_tick + 1) % r.bucket_count) []) j
        then unless (is_due now) (get j r.entries)
        else get j r.entries)
unfolding scan_timeout_bucket
scan_timeout_bucket-entries r now clock j =
    let i = (r.current_tick + 1) % r.bucket_count in
    scan_keys-entries
      (record r {
        current_tick = add64 r.current_tick 1;
        buckets = modify r.buckets i (λ bucket. []);
      })
      (get_or r.buckets i []) j now clock 0
