-- ===== src/Provider/Attempts.antt =====
-- The attempts of internal/provider/retry.go: how often a rate is asked for, and which of the answers
-- the caller is given.
use currency_quotes_service.Prelude.{
  subst, sym, pos_part, ltb, if◌then◌else◌, ℕ, zero, suc, ◌+◌, ◌-◌, ◌≤◌, ◌≡◌, refl, ◌⊎◌, inl, inr,
  Bool, true, false, ◌&&◌, Text, ℤ, pos, negsuc, arith, Bool-cases,
}
use currency_quotes_service.Domain.Errors.{Error, Result, ok, err, wrapped, is, transient}
use currency_quotes_service.Provider.{Rate}
use currency_quotes_service.Provider.Retrier.{
  Attempt, success, failure, permanent, Schedule, Tries, Retry, new_retrier, schedule, attempt,
  fetch_rate,
}

-- What the library documents of `Retry` under a schedule, with `ended` the cause of a context that is done: a success
-- and a permanent error end it (the latter given back in its wrapper or out of it), as does the last
-- of the tries; otherwise it pauses and tries again with one try less, unless the context is done.
pub record Documented (S A : Type 0) (retry : Tries S A) (ended : Error) : Type 0 where
  pub succeeds :
      (n : ℕ) (op : S → Attempt A × S) (s s' : S) (a : A)
      → op s ≡ (success a, s')
      → retry (suc n) op s ≡ (ok a, s')
  pub stops :
      (n : ℕ) (op : S → Attempt A × S) (s s' : S) (e : Error)
      → op s ≡ (permanent e, s')
      → (retry (suc n) op s ≡ (err e, s')) ⊎ (retry (suc n) op s ≡ (err (wrapped e), s'))
  pub exhausts :
      (op : S → Attempt A × S) (s s' : S) (e : Error)
      → op s ≡ (failure e, s')
      → retry 1 op s ≡ (err e, s')
  pub repeats :
      (n : ℕ) (op : S → Attempt A × S) (s s' : S) (e : Error)
      → op s ≡ (failure e, s')
      → (retry (suc (suc n)) op s ≡ retry (suc n) op s')
        ⊎ (retry (suc (suc n)) op s ≡ (err ended, s'))

-- Without a limit of the elapsed time, nothing else ends the tries.
abbrev pub Unlimited : (S A : Type 0) → Retry S A → Error → Type 0
Unlimited S A retry ended = (s : Schedule) → s.max_elapsed_time ≡ 0 → Documented S A (retry s) ended

-- How often a retrier for so many attempts calls at most.
abbrev pub most : ℤ → ℕ
most attempts = if ltb (pos_part attempts) 1 then 1 else pos_part attempts

new_retrier-most :
    (attempts backoff : ℤ) → pos_part (new_retrier attempts backoff).attempts ≡ most attempts
unfolding new_retrier
new_retrier-most (pos n) backoff = ground arith
new_retrier-most (negsuc n) backoff = ground arith

module _ {Decimal : Type 0} (answers : ℕ → Result (Rate Decimal)) where
  -- A provider that counts its calls and gives one answer after the other.
  abbrev pub scripted : Text → ℕ → Result (Rate Decimal) × ℕ
  scripted pair k = (answers k, suc k)

  abbrev is_transient : Result (Rate Decimal) → Bool
  is_transient (ok rate) = false
  is_transient (err e) = is transient e

  -- The answers from the k-th on, `n` of them, are all transient failures.
  abbrev pub all_transient : ℕ → ℕ → Bool
  all_transient k zero = true
  all_transient k (suc n) = is_transient (answers k) && all_transient (suc k) n

  -- What the caller is given for the last answer.
  abbrev pub Settles : Error → Result (Rate Decimal) → Result (Rate Decimal) → Type 0
  Settles ended (ok rate) r = r ≡ ok rate
  Settles ended (err e) r =
      (r ≡ err e) ⊎ (r ≡ err (wrapped e)) ⊎ ((is transient e ≡ true) × (r ≡ err ended))

  -- From the k-th call on, at most `suc n` calls, of which the last settles the result.
  abbrev pub Settled : Error → ℕ → ℕ → Result (Rate Decimal) × ℕ → Type 0
  Settled ended n k r =
      (m : ℕ) × (m ≤ n)
      × (r.1 ≡ suc (k + m))
      × (all_transient k m ≡ true)
      × Settles ended (answers (k + m)) r.0

  last_call :
      (ended : Error) (n k : ℕ) (r : Result (Rate Decimal) × ℕ)
      → r.1 ≡ suc k
      → Settles ended (answers k) r.0
      → Settled ended n k r
  last_call ended n k r e h =
      let none_more : k + 0 ≡ k = omega arith in
      (0, omega arith, rw none_more e, refl, rw none_more h)

  one_more :
      (ended : Error) (n k : ℕ) (r : Result (Rate Decimal) × ℕ)
      → is_transient (answers k) ≡ true
      → Settled ended n (suc k) r
      → Settled ended (suc n) k r
  one_more ended n k r t (m, b, e, a, h) =
      let later : k + suc m ≡ suc k + m = omega arith in
      (suc m, omega (arith, b), rw later e, ground (arith, t, a), rw later h)

  module _ (retry : Tries ℕ (Rate Decimal)) (ended : Error)
      (library : Documented ℕ (Rate Decimal) retry ended) (pair : Text) where
    abbrev op : ℕ → Attempt (Rate Decimal) × ℕ
    op s = attempt (scripted pair s)

    answered_ok :
        (n k : ℕ) (rate : Rate Decimal)
        → answers k ≡ ok rate
        → Settled ended n k (retry (suc n) op k)
    answered_ok n k rate e =
        let called : op k ≡ (success rate, suc k) = rw e refl in
        rw (library.succeeds n op k (suc k) rate called) (last_call ended n k _ refl (rw e refl))

    answered_final :
        (n k : ℕ) (e : Error)
        → answers k ≡ err e
        → is transient e ≡ false
        → Settled ended n k (retry (suc n) op k)
    answered_final n k e a t =
        let called : op k ≡ (permanent e, suc k) = rw a (rw t refl) in
        elim (library.stops n op k (suc k) e called) [
          | inl bare ↦ rw bare (last_call ended n k _ refl (rw a (inl refl)))
          | inr within ↦ rw within (last_call ended n k _ refl (rw a (inr (inl refl))))
        ]

    transient_last :
        (k : ℕ) (e : Error)
        → answers k ≡ err e
        → is transient e ≡ true
        → Settled ended 0 k (retry 1 op k)
    transient_last k e a t =
        let called : op k ≡ (failure e, suc k) = rw a (rw t refl) in
        rw (library.exhausts op k (suc k) e called) (last_call ended 0 k _ refl (rw a (inl refl)))

    transient_again :
        (n k : ℕ)
        → Settled ended n (suc k) (retry (suc n) op (suc k))
        → (e : Error) → answers k ≡ err e
        → is transient e ≡ true
        → Settled ended (suc n) k (retry (suc (suc n)) op k)
    transient_again n k h e a t =
        let called : op k ≡ (failure e, suc k) = rw a (rw t refl) in
        elim (library.repeats n op k (suc k) e called) [
          | inl again ↦ rw again (one_more ended n k _ (rw a t) h)
          | inr over ↦ rw over (last_call ended (suc n) k _ refl (rw a (inr (inr (t, refl)))))
        ]

    by_answer :
        (n k : ℕ)
        → ((e : Error)
            → answers k ≡ err e
            → is transient e ≡ true
            → Settled ended n k (retry (suc n) op k))
        → (x : Result (Rate Decimal)) → answers k ≡ x
        → Settled ended n k (retry (suc n) op k)
    by_answer n k h (ok rate) a = answered_ok n k rate a
    by_answer n k h (err e) a = elim (Bool-cases (is transient e)) [
      | inl t ↦ h e a t
      | inr f ↦ answered_final n k e a f
    ]

    tries : (n k : ℕ) → Settled ended n k (retry (suc n) op k)
    tries zero k = by_answer 0 k (transient_last k) (answers k) refl
    tries (suc n) k = by_answer (suc n) k (transient_again n k (tries n (suc k))) (answers k) refl

  settled :
      (retry : Tries ℕ (Rate Decimal)) (ended : Error)
      → Documented ℕ (Rate Decimal) retry ended
      → (pair : Text) (n : ℕ) → 1 ≤ n
      → Settled ended (n - 1) 0 (retry n (λ s. attempt (scripted pair s)) 0)
  settled retry ended library pair zero h = absurd (omega (arith, h))
  settled retry ended library pair (suc n) h =
      let one_less : suc n - 1 ≡ n = omega arith in rw one_less (tries retry ended library pair n 0)

  -- With a library that keeps what it documents, a provider is called once at least and at most as
  -- often as the retrier was made for, or once where that was less than one; every answer before the
  -- last is a transient failure, and the caller is given the last answer (an error perhaps in a
  -- wrapper), or, after a transient failure, the end of the context.
  pub fetch_rate-Settled :
      (retry : Retry ℕ (Rate Decimal)) (ended : Error) (attempts backoff : ℤ) (pair : Text)
      → Unlimited ℕ (Rate Decimal) retry ended
      → Settled ended
          (most attempts - 1)
          0
          (fetch_rate retry (new_retrier attempts backoff) scripted pair 0)
  unfolding fetch_rate schedule
  fetch_rate-Settled retry ended attempts backoff pair library =
      let r = new_retrier attempts backoff in
      subst
        (λ n.
          Settled ended (most attempts - 1) 0
            (retry (schedule r) n (λ s. attempt (scripted pair s)) 0))
        (sym (new_retrier-most attempts backoff))
        (settled (retry (schedule r)) ended (library (schedule r) refl) pair (most attempts)
          (ground arith))
