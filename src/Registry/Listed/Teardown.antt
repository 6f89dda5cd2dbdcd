-- ===== src/Registry/Listed/Teardown.antt =====
-- request_registry.rs: timeouts, closes and teardown keep every pending request listed.
use msgtrans.Prelude.{
  ℕ, ◌+◌, ◌%◌, ◌≡◌, ◌≢◌, refl, sym, ap, ◌∙◌, inl, inr, List, [], ◌∷◌, Option, none, some, Bool,
  true, false, not, ◌&&◌, if◌then◌else◌, Bool-cases, Option-cases, ◌==◌, ==_iff, subst, length, leb,
  get_or,
}
use msgtrans.Prelude.Map.{
  nat_eq, Map, get, remove, get-remove, keys, has, has-keys, is_some, Every-get,
}
use msgtrans.Registry.{
  RequestKey, key_eq, RequestEntry, RequestRegistry, add64, state_u8, SessionRuntime, count_timeout,
  pending,
}
use msgtrans.Registry.Register.{modify, schedule_for_deadline}
use msgtrans.Registry.Respond.{is_state}
use msgtrans.Registry.Abort.{abort_all}
use msgtrans.Registry.Close.{close_session_pending, dies}
use msgtrans.Registry.Wheel.{mark_timed_out, scan_key, scan_keys, scan_timeout_bucket}
use msgtrans.Registry.Invariant.{IsLive, Inv}
use msgtrans.Registry.Closing.{close_session_pending_open, close_keys-entries, unless-dies}
use msgtrans.Registry.Deadlines.{unless}
use msgtrans.Registry.Aborting.{is_pending, abort_all-entries}
use msgtrans.Registry.Listed.{lists, listed_in, covered, covered_mono, retire-Covers}
use msgtrans.Registry.Listed.Answer.{Covered}

mark_timed_out-Covered :
    (r : RequestRegistry) (k : RequestKey) → Covered r → Covered (mark_timed_out r k).1
unfolding mark_timed_out
mark_timed_out-Covered r k s = elim (Option-cases (get k r.entries)) [
  | inl n ↦ rw (n, mark_timed_out) s
  | inr (e, g) ↦
      rw (g, mark_timed_out)
        (elim (Bool-cases (state_u8 e.state == 0)) [
          | inl t ↦ rw t (retire-Covers (count_timeout r) k _ s)
          | inr f ↦ rw f s
        ])
]

scan_key-Covered :
    (r : RequestRegistry) (k : RequestKey) (now later : ℕ)
    → Covered r
    → Covered (scan_key r k now later).1
unfolding scan_key schedule_for_deadline
scan_key-Covered r k now later s = elim (Option-cases (get k r.entries)) [
  | inl n ↦ rw (n, scan_key) s
  | inr (e, g) ↦
      rw (g, scan_key)
        (elim (Bool-cases (is_state e.state pending)) [
          | inr f ↦ rw f s
          | inl t ↦ rw t (elim (Bool-cases (leb e.deadline_at now)) [
            | inl due ↦ rw due (mark_timed_out-Covered r k s)
            | inr early ↦ rw early s
          ])
        ])
]

scan_keys-Covered :
    (r : RequestRegistry) (ks : List RequestKey) (now : ℕ) (clock : ℕ → ℕ) (n : ℕ)
    → Covered r
    → Covered (scan_keys r ks now clock n).1
unfolding scan_keys
scan_keys-Covered r [] now clock n s = s
scan_keys-Covered r (k ∷ ks) now clock n s =
    let (hit, r') = scan_key r k now (clock (length ks)) in
    scan_keys-Covered r' ks now clock (if hit then n + 1 else n)
      (scan_key-Covered r k now (clock (length ks)) s)

pub scan_timeout_bucket-Covered :
    (r : RequestRegistry) (now : ℕ) (clock : ℕ → ℕ)
    → Covered r
    → Covered (scan_timeout_bucket r now clock).1
unfolding scan_timeout_bucket
scan_timeout_bucket-Covered r now clock s =
    let i = (r.current_tick + 1) % r.bucket_count in
    let taken = record r {
      current_tick = add64 r.current_tick 1;
      buckets = modify r.buckets i (λ bucket. []);
    } in
    scan_keys-Covered taken (get_or r.buckets i []) now clock 0 s

nothing_listed : (c : Bool) → (not c && false) ≢ true
nothing_listed true h = cc
nothing_listed false h = cc

-- Without a session, the keys that it did not list are listed as they were.
unlisted_mono :
    (ss : Map ℕ SessionRuntime) (sid : ℕ) (rt : SessionRuntime) (j : RequestKey) (o : Option ℕ)
    → get sid ss ≡ some rt
    → is_some (get j rt.requests) ≡ false
    → listed_in ss j o ≡ true
    → listed_in (remove sid ss) j o ≡ true
unlisted_mono ss sid rt j none g n h = refl
unlisted_mono ss sid rt j (some s) g n h =
    ap (lists j) (get-remove sid s ss) ∙ elim (Bool-cases (sid == s)) [
      | inr f ↦ rw f h
      | inl t ↦
          let l : lists j (some rt) ≡ true =
            ap (lists j) (sym g)
            ∙ subst (λ i. lists j (get i ss) ≡ true) (sym ((==_iff sid s).0 t)) h in
          absurd (nothing_listed rt.closing (rw n at l))
    ]

pub close_session_pending-Covered :
    (r : RequestRegistry) (sid : ℕ) → Inv r → Covered r → Covered (close_session_pending r sid).1
unfolding close_session_pending
close_session_pending-Covered r sid i s = elim (Option-cases (get sid r.sessions)) [
  | inl n ↦ rw (n, close_session_pending) s
  | inr (rt, g) ↦ λ j.
      let (es, ss) = close_session_pending_open r sid rt g in
      let start = record r { sessions = remove sid r.sessions } in
      let left : get j (close_session_pending r sid).1.entries
          ≡ (if has (keys rt.requests) j then unless dies (get j r.entries) else get j r.entries) =
        ap (get j) es ∙ close_keys-entries start (keys rt.requests) j 0 in
      rw (ss, left)
        (elim (Bool-cases (has (keys rt.requests) j)) [
          | inl t ↦ rw (t, unless-dies r j i) refl
          | inr f ↦ rw f (
              covered_mono r.sessions (remove sid r.sessions) j (get j r.entries)
                (unlisted_mono r.sessions sid rt j j.session_id g
                  (sym (has-keys rt.requests j) ∙ f))
                (s j))
        ])
]

live_covered :
    (ss : Map ℕ SessionRuntime) (k : RequestKey) (e : RequestEntry)
    → IsLive k e
    → covered ss k (unless is_pending (some e)) ≡ true
live_covered ss k e (h, inl p) = rw p refl
live_covered ss k e (h, inr p) = rw p refl

pub abort_all-Covered : (r : RequestRegistry) → Inv r → Covered (abort_all r).1
abort_all-Covered r i j =
    let ss = (abort_all r).1.sessions in
    ap (covered ss j) (abort_all-entries r j) ∙ elim (Option-cases (get j r.entries)) [
      | inl n ↦ rw n refl
      | inr (e, g) ↦ rw g (live_covered ss j e (Every-get IsLive j e r.entries i.live g))
    ]
