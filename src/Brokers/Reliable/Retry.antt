-- ===== src/Brokers/Reliable/Retry.antt =====
-- The retry loop: what every attempt keeps, and how it ends.
use native.Mathlib.Numerals.{add-one}
use broker_ai.Base.{
  ℕ, zero, suc, ◌+◌, ◌<◌, ◌≡◌, refl, Option, none, some, arith, ◌⊎◌, inl, inr, ap, subst,
}
use broker_ai.Base.Result.{Result, Error, ok, err}
use broker_ai.Brokers.Reliable.Defs.{
  Attempt, value, timed_out, transient, os_error, raised, last_after, call_from, call, pause,
  after_attempt,
}

module _ {W A : Type 0} (max_attempts : ℕ) (operation : ℕ → W → Attempt A × W)
    (sleep : ℕ → W → W) where
  -- The runs of a bounded retry, attempt by attempt: the first value is returned, the first
  -- exception that is not temporary goes on, a temporary one is followed by a pause and the next
  -- attempt, and after the last attempt it is raised with no pause.
  pub data Run : ℕ → W → Result A × W → Type 0 where
    returned : {n : ℕ} {w w' : W} {a : A} → operation n w ≡ (value a, w') → Run n w (ok a, w')
    failed : {n : ℕ} {w w' : W} {e : Error} → operation n w ≡ (raised e, w') → Run n w (err e, w')
    exhausted :
        {n : ℕ} {w w' : W} {e : Error} (o : Attempt A)
        → n ≡ max_attempts
        → operation n w ≡ (o, w')
        → last_after o ≡ some e
        → Run n w (err e, w')
    again :
        {n : ℕ} {w w' : W} {e : Error} {r : Result A × W} (o : Attempt A)
        → n < max_attempts
        → operation n w ≡ (o, w')
        → last_after o ≡ some e
        → Run (suc n) (sleep n w') r
        → Run n w r

  -- One round, whose rest is a run if an attempt is left, and raises the last error if none is.
  round-Run :
      (n : ℕ) (w : W) (rest : Error → Result A × W) (o : Attempt A) (w' : W)
      → operation n w ≡ (o, w')
      → ((e : Error)
          → last_after o ≡ some e
          → (n < max_attempts) × Run (suc n) (sleep n w') (rest e)
            ⊎ (n ≡ max_attempts) × (rest e ≡ (err e, w')))
      → Run n w (after_attempt rest o w')
  round-Run n w rest (value a) w' e more = returned e
  round-Run n w rest (raised x) w' e more = failed e
  round-Run n w rest timed_out w' e more = elim (more Error.timeout refl) [
    | inl (below, run) ↦ again timed_out below e refl run
    | inr (last, gives) ↦ rw gives (exhausted timed_out last e refl)
  ]
  round-Run n w rest (transient x) w' e more = elim (more x refl) [
    | inl (below, run) ↦ again (transient x) below e refl run
    | inr (last, gives) ↦ rw gives (exhausted (transient x) last e refl)
  ]
  round-Run n w rest os_error w' e more = elim (more Error.transient refl) [
    | inl (below, run) ↦ again os_error below e refl run
    | inr (last, gives) ↦ rw gives (exhausted os_error last e refl)
  ]

  pause_last : (n : ℕ) (w : W) → n ≡ max_attempts → pause max_attempts operation sleep n w ≡ w
  pause_last n w h = ground arith

  pause_more :
      (n : ℕ) (w : W) → n < max_attempts → pause max_attempts operation sleep n w ≡ sleep n w
  pause_more n w h = ground arith

  call_from-Run :
      (left n : ℕ) (last : Option Error) (w : W)
      → n + left ≡ max_attempts
      → Run n w (call_from max_attempts operation sleep (suc left) n last w)
  unfolding call_from
  call_from-Run zero n last w h =
      let (o, w') = operation n w in
      round-Run n w _ o w' refl
        (λ e _. inr (omega arith, ap (λ (t : W). (err e, t)) (pause_last n w' (omega arith))))
  call_from-Run (suc left) n last w h =
      let (o, w') = operation n w in
      let below : n < max_attempts = omega arith in
      round-Run n w
        (λ e.
          call_from max_attempts operation sleep (suc left) (n + 1) (some e)
            (pause max_attempts operation sleep n w'))
        o w' refl
        (λ e _. inl (
          below,
          rw (add-one n, pause_more n w' below)
              (call_from-Run left (suc n) (some e) (sleep n w') (omega arith)),
        ))

  call-Run_at :
      (m : ℕ) (w : W)
      → m ≡ max_attempts
      → 0 < m
      → Run 1 w (call_from max_attempts operation sleep m 1 none w)
  call-Run_at zero w e h = absurd (omega arith)
  call-Run_at (suc m) w e h = call_from-Run m 1 none w (omega arith)

  -- A call with at least one attempt is a run of the bounded retry from the first attempt on.
  pub call-Run : (w : W) → 0 < max_attempts → Run 1 w (call max_attempts operation sleep w)
  unfolding call
  call-Run w h = call-Run_at max_attempts w refl h

  module _ {ℓ κ} (P : W → Type ℓ) (Q : A → W → Type κ) where
    -- What a returned value satisfies.
    abbrev pub Returns : Result A → W → Type κ
    Returns (ok a) w = Q a w
    Returns (err e) w = Unit

    after :
        ((n : ℕ) (w : W) → P w → P (operation n w).1)
        → {n : ℕ} {w w' : W} {o : Attempt A} → operation n w ≡ (o, w')
        → P w
        → P w'
    after keeps {n} {w} e p = subst (λ (t : Attempt A × W). P t.1) e (keeps n w p)

    -- An invariant of the attempts and the pauses holds when the call ends, however it ends.
    pub Run-inv :
        ((n : ℕ) (w : W) → P w → P (operation n w).1)
        → ((n : ℕ) (w : W) → P w → P (sleep n w))
        → ((n : ℕ) (w : W) (a : A) → P w → (operation n w).0 ≡ value a → Q a (operation n w).1)
        → {n : ℕ} {w : W} {r : Result A × W} → Run n w r
        → P w
        → P r.1 × Returns r.0 r.1
    Run-inv keeps rests gives (returned {n} {w} {a = a} e) p = (
      after keeps e p,
      subst (λ (t : Attempt A × W). Q a t.1) e (gives n w a p (ap (λ (t : Attempt A × W). t.0) e)),
    )
    Run-inv keeps rests gives (failed e) p = (after keeps e p, tt)
    Run-inv keeps rests gives (exhausted o n e l) p = (after keeps e p, tt)
    Run-inv keeps rests gives (again {n} {w' = w'} o below e l run) p =
        Run-inv keeps rests gives run (rests n w' (after keeps e p))
