-- ===== src/Tcp/Resync.antt =====
-- tcp.rs, `try_resync_frame` and the rounds of `try_parse_next_packet`: where a resync stops, and
-- that the parse loop ends.
use msgtrans.Prelude.{
  ℕ, zero, suc, ◌+◌, ◌-◌, ◌≤◌, ◌<◌, ◌≡◌, refl, Option, none, some, Bool, true, false, ◌||◌, length,
  ltb, arith, min, inl, inr, Bool-cases,
}
use msgtrans.Tcp.{
  ReadBuffer, is_valid_header_at, scan, after_scan, try_resync_frame, discard,
  max_resync_scan_distance,
}

-- A valid header starts at one of the `n` offsets from `lo` on.
unfoldable pub any_header : ReadBuffer → ℕ → ℕ → Bool
any_header s lo zero = false
any_header s lo (suc n) = is_valid_header_at s lo || any_header s (lo + 1) n

abbrev Scans : ReadBuffer → ℕ → ℕ → Option ℕ → Type 0
Scans s lo n none = any_header s lo n ≡ false
Scans s lo n (some k) =
    (m : ℕ) × (k ≡ lo + m) × (m < n) × (is_valid_header_at s k ≡ true) × (any_header s lo m ≡ false)

Scans-more :
    (s : ReadBuffer) (lo n : ℕ) (r : Option ℕ)
    → is_valid_header_at s lo ≡ false
    → Scans s (lo + 1) n r
    → Scans s lo (suc n) r
unfolding any_header
Scans-more s lo n none h c = rw h c
Scans-more s lo n (some k) h c = (suc c.0, omega arith, omega arith, c.3, rw h (c.4))

scan-Scans : (s : ReadBuffer) (lo n : ℕ) → Scans s lo n (scan s lo n)
unfolding scan any_header
scan-Scans s lo zero = refl
scan-Scans s lo (suc n) = elim (Bool-cases (is_valid_header_at s lo)) [
  | inl hit ↦ rw hit (0, omega arith, omega arith, hit, refl)
  | inr miss ↦ rw miss (Scans-more s lo n (scan s (lo + 1) n) miss (scan-Scans s (lo + 1) n))
]

-- The three outcomes of a resync.
pub data Resyncs (s : ReadBuffer) (r : Bool × ReadBuffer) : Type 0 where
  found :
      (m : ℕ)
      → suc m < max_resync_scan_distance
      → suc m < length s.buffer
      → is_valid_header_at s (suc m) ≡ true
      → any_header s 1 m ≡ false
      → r ≡ (true, discard s (suc m))
      → Resyncs s r
  skipped :
      max_resync_scan_distance < length s.buffer
      → any_header s 1 (max_resync_scan_distance - 1) ≡ false
      → r ≡ (true, discard s max_resync_scan_distance)
      → Resyncs s r
  gave_up :
      length s.buffer ≤ max_resync_scan_distance
      → any_header s 1 (length s.buffer - 1) ≡ false
      → r ≡ (false, s)
      → Resyncs s r

after_scan-Resyncs :
    (s : ReadBuffer) (o : Option ℕ)
    → Scans s 1 (min (length s.buffer) max_resync_scan_distance - 1) o
    → Resyncs s (after_scan s o)
unfolding after_scan
after_scan-Resyncs s (some k) (m, e, small, hit, before) =
    let e' : k ≡ suc m = omega arith in
    found m (omega arith) (omega arith) (rw (← e') hit) before (rw e')
after_scan-Resyncs s none c = elim (Bool-cases (ltb max_resync_scan_distance (length s.buffer))) [
  | inl long ↦
      let e : min (length s.buffer) max_resync_scan_distance ≡ max_resync_scan_distance =
        ground arith in
      skipped (ground arith) (rw e at c) (rw long)
  | inr short ↦
      let e : min (length s.buffer) max_resync_scan_distance ≡ length s.buffer = ground arith in
      gave_up (ground arith) (rw e at c) (rw short)
]

-- A resync stops at the first valid header within the scan distance; with none there, it drops
-- 4096 bytes of a longer buffer, and otherwise leaves the buffer as it is and reports failure.
pub try_resync_frame-Resyncs : (s : ReadBuffer) → Resyncs s (try_resync_frame s)
unfolding try_resync_frame
try_resync_frame-Resyncs s =
    after_scan-Resyncs s _ (scan-Scans s 1 (min (length s.buffer) max_resync_scan_distance - 1))
