-- ===== src/Client/Connects.antt =====
-- transport/client.rs: how a connect ends.
use msgtrans.Prelude.{
  ℕ, zero, suc, ◌+◌, ◌-◌, ◌≤◌, ◌<◌, ◌≡◌, refl, sym, ap, ◌∙◌, ◌⊎◌, inl, inr, Option, none, some,
  Bool, true, false, Result, ok, err, arith, Bool-cases, Result-cases, implies, ltb, ◌==◌, ==_iff,
}
use msgtrans.Errors.{TransportError, is_retryable}
use msgtrans.Client.{attempts, connect_with_stored_config}

implied : (a : Bool) {b : Bool} → b ≡ true → implies a b ≡ true
implied true h = h
implied false h = refl

-- The attempt failed by an error after which the client tries again.
abbrev pub fails_retryable : Result TransportError ℕ → Bool
fails_retryable (ok connection) = false
fails_retryable (err e) = is_retryable e

module _ (build : ℕ → Result TransportError ℕ) where
  -- What the attempts from one on do: the result is that of the last one.
  record Tried (from left : ℕ) (out : Result TransportError ℕ × ℕ) : Type 0 where
    last : ℕ
    counted : out.1 ≡ last + 1
    first_ok : from ≤ last
    within : last < from + left
    result_ok : out.0 ≡ build last
    before_ok : (i : ℕ) → from ≤ i → i < last → fails_retryable (build i) ≡ true
    stop_ok : (last + 1 ≡ from + left) ⊎ (fails_retryable (build last) ≡ false)

  -- The attempt at hand is the last.
  stops :
      (from left : ℕ) (result : Result TransportError ℕ)
      → result ≡ build from
      → (from + 1 ≡ from + suc left) ⊎ (fails_retryable (build from) ≡ false)
      → Tried from (suc left) (result, from + 1)
  stops from left result e h = record {
    last = from;
    counted = refl;
    first_ok = omega arith;
    within = omega arith;
    result_ok = e;
    before_ok = λ i a b. absurd (omega arith);
    stop_ok = h;
  }

  -- An attempt that is tried again comes before the rest.
  continues :
      (from left : ℕ) (out : Result TransportError ℕ × ℕ)
      → fails_retryable (build from) ≡ true
      → Tried (from + 1) (suc left) out
      → Tried from (suc (suc left)) out
  continues from left out again t = record {
    last = t.last;
    counted = t.counted;
    first_ok = omega (arith, t.first_ok);
    within = omega (arith, t.within);
    result_ok = t.result_ok;
    before_ok = λ i a b. elim (Bool-cases (i == from)) [
      | inl same ↦ ap (λ x. fails_retryable (build x)) ((==_iff i from).0 same) ∙ again
      | inr other ↦ t.before_ok i (ground arith) b
    ];
    stop_ok = elim t.stop_ok [ inl e ↦ inl (omega (arith, e)) | inr e ↦ inr e ];
  }

  -- The rest after an attempt that is tried again.
  rest-Tried :
      (left from : ℕ) (e : TransportError)
      → build from ≡ err e
      → is_retryable e ≡ true
      → ((last_error : Option TransportError) (k : ℕ)
          → left ≡ suc k
          → Tried (from + 1) left (attempts build (from + 1) left last_error))
      → Tried from (suc left) (attempts build (from + 1) left (some e))
  unfolding attempts
  rest-Tried zero from e b again ih = stops from zero (err e) (sym b) (inl (omega arith))
  rest-Tried (suc left) from e b again ih =
      continues from left (attempts build (from + 1) (suc left) (some e))
        (ap fails_retryable b ∙ again) (ih (some e) left refl)

  -- One attempt, with what the rest does.
  attempt-Tried :
      (left from : ℕ) (last_error : Option TransportError)
      → ((l : Option TransportError) (k : ℕ)
          → left ≡ suc k
          → Tried (from + 1) left (attempts build (from + 1) left l))
      → Tried from (suc left) (attempts build from (suc left) last_error)
  unfolding attempts
  attempt-Tried left from last_error ih = elim (Result-cases (build from)) [
    | inl (c, b) ↦ rw (b, attempts) (stops from left (ok c) (sym b) (inr (ap fails_retryable b)))
    | inr (e, b) ↦ elim (Bool-cases (is_retryable e)) [
      | inr final ↦
          rw (b, attempts)
            (rw final (stops from left (err e) (sym b) (inr (ap fails_retryable b ∙ final))))
      | inl again ↦ rw (b, attempts) (rw again (rest-Tried left from e b again ih))
    ]
  ]

  attempts-Tried :
      (left from : ℕ) (last_error : Option TransportError)
      → Tried from (suc left) (attempts build from (suc left) last_error)
  attempts-Tried zero from last_error =
      attempt-Tried zero from last_error (λ l k e. absurd (omega arith))
  attempts-Tried (suc left) from last_error =
      attempt-Tried (suc left) from last_error (λ l k e. attempts-Tried left (from + 1) l)

  -- The attempts before the last, and the last, as tests.
  retries_before :
      (from left i : ℕ) (out : Result TransportError ℕ × ℕ)
      → Tried from left out
      → from ≤ i
      → implies (ltb (i + 1) out.1) (fails_retryable (build i)) ≡ true
  retries_before from left i out t f = elim (Bool-cases (ltb (i + 1) out.1)) [
    | inr done ↦ rw done refl
    | inl before ↦ rw before (t.before_ok i f (ground (arith, before, t.counted)))
  ]

  retries_at_end :
      (left : ℕ) (out : Result TransportError ℕ × ℕ)
      → Tried 0 (suc left) out
      → implies (fails_retryable (build (out.1 - 1))) (out.1 == left + 1) ≡ true
  retries_at_end left out t =
      let n : out.1 - 1 ≡ t.last = omega (arith, t.counted) in
      elim t.stop_ok [
        | inl e ↦
            implied (fails_retryable (build (out.1 - 1)))
              ((==_iff out.1 (left + 1)).1 (omega (arith, e, t.counted)))
        | inr e ↦ rw (ap (λ k. fails_retryable (build k)) n ∙ e) refl
      ]

-- A connect with a valid configuration and a number of retries, however the attempts turn out: it makes at least one attempt
-- and at most one more than the retries, and its result is that of the last. Every earlier one
-- failed by an error after which a retry makes sense; and where the last one did too, the retries
-- were used up.
pub connect_tries :
    (build : ℕ → Result TransportError ℕ) (max_retries i : ℕ)
    → let out = connect_with_stored_config none build max_retries in
      (1 ≤ out.1)
      × (out.1 ≤ max_retries + 1)
      × (out.0 ≡ build (out.1 - 1))
      × (implies (ltb (i + 1) out.1) (fails_retryable (build i)) ≡ true)
      × (implies (fails_retryable (build (out.1 - 1))) (out.1 == max_retries + 1) ≡ true)
unfolding connect_with_stored_config
connect_tries build max_retries i =
    let t = attempts-Tried build max_retries 0 none in
    let n : (connect_with_stored_config none build max_retries).1 - 1 ≡ t.last =
      omega (arith, t.counted) in
    (
      omega (arith, t.counted),
      omega (arith, t.counted, t.within),
      t.result_ok ∙ ap build (sym n),
      retries_before build 0 (suc max_retries) i _ t (omega arith),
      retries_at_end build max_retries _ t,
    )
