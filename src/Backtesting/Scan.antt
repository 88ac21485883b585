-- ===== src/Backtesting/Scan.antt =====
-- The loop of `calculate_metrics`, and the drawdown that it ends with.
use broker_ai.Base.{
  ◌≡◌, ◌⊎◌, inl, inr, refl, sym, ap, ◌∙◌, subst, arith, List, [], ◌∷◌, ◌++◌, Bool-cases,
}
use broker_ai.Base.Int.{leb_ℤ, eqb_ℤ, ◌≤ℤ◌}
use broker_ai.Base.Result.{Result, ok, err, ◌>>=◌, Gives}
use broker_ai.Decimal.{Amount, nought, one, sub, div}
use broker_ai.Backtesting.Defs.{EquityPoint, min}
use broker_ai.Backtesting.Metrics.{max, change, Loop, step, scan}

-- The fall from a peak to an equity, as a rate.
abbrev pub fall : Amount → Amount → Amount
fall peak equity = sub (div equity peak) one

-- The highest of an equity and those of a curve.
abbrev pub highest : Amount → List EquityPoint → Amount
highest top [] = top
highest top (p ∷ ps) = highest (max top p.equity) ps

min_least : (a b : Amount) → (min a b ≤ℤ a) × (min a b ≤ℤ b)
min_least a b = ground arith

min_one : (a b : Amount) → (min a b ≡ a) ⊎ (min a b ≡ b)
min_one a b = elim (Bool-cases (leb_ℤ a b)) [
  | inl low ↦ inl (rw low refl)
  | inr high ↦ inr (rw high refl)
]

leq_trans : (a b c : Amount) → a ≤ℤ b → b ≤ℤ c → a ≤ℤ c
leq_trans a b c p q = omega (arith, p, q)

change_fall : (a b : Amount) → Gives (λ d. d ≡ fall b a) (change a b)
change_fall a b = elim (Bool-cases (eqb_ℤ b nought)) [
  | inl zero_peak ↦ rw zero_peak tt
  | inr peak ↦ rw peak refl
]

-- What one day does to the loop.
abbrev Stepped : EquityPoint → Loop → Loop → Type 0
Stepped p s t =
    (t.peak ≡ max s.peak p.equity)
    × (t.maximum_drawdown ≡ min s.maximum_drawdown (fall (max s.peak p.equity) p.equity))

step-Stepped : (p : EquityPoint) (s : Loop) → Gives (Stepped p s) (step p s)
step-Stepped p s =
    go (change p.equity (max s.peak p.equity)) (change_fall p.equity (max s.peak p.equity))
      (change p.equity s.previous)
  where
    go :
        (drawdown : Result Amount)
        → Gives (λ d. d ≡ fall (max s.peak p.equity) p.equity) drawdown
        → (daily : Result Amount)
        → Gives (Stepped p s) (
            drawdown >>= λ d. daily >>= λ r. ok (record {
              peak = max s.peak p.equity;
              maximum_drawdown = min s.maximum_drawdown d;
              returns = s.returns ++ (r ∷ []);
              previous = p.equity;
            }))
    go (err e) g daily = tt
    go (ok d) g (err e) = tt
    go (ok d) g (ok r) = (refl, ap (min s.maximum_drawdown) g)

-- The loop ends with what it began with, or with the fall of one of its days.
abbrev pub Attained : List EquityPoint → Loop → Loop → Type 0
Attained curve s t =
    (t.maximum_drawdown ≡ s.maximum_drawdown)
    ⊎ ((before : List EquityPoint) × (after : List EquityPoint) × (p : EquityPoint) × (curve
          ≡ before ++ (p ∷ after))
        × (t.maximum_drawdown ≡ fall (highest s.peak (before ++ (p ∷ []))) p.equity))

-- The loop ends at the lowest of the falls of its days and what it began with.
abbrev pub Scanned : List EquityPoint → Loop → Loop → Type 0
Scanned curve s t =
    (t.maximum_drawdown ≤ℤ s.maximum_drawdown)
    × ((before after : List EquityPoint) (p : EquityPoint)
        → curve ≡ before ++ (p ∷ after)
        → t.maximum_drawdown ≤ℤ fall (highest s.peak (before ++ (p ∷ []))) p.equity)
    × Attained curve s t

same_head : (p q : EquityPoint) (ps qs : List EquityPoint) → (p ∷ ps) ≡ (q ∷ qs) → p ≡ q
same_head p q ps qs e = cc

same_tail : (p q : EquityPoint) (ps qs : List EquityPoint) → (p ∷ ps) ≡ (q ∷ qs) → ps ≡ qs
same_tail p q ps qs e = cc

no_split :
    {B : Type 0} (before after : List EquityPoint) (p : EquityPoint)
    → ◌≡◌ {A = List EquityPoint} [] (before ++ (p ∷ after))
    → B
no_split [] after p e = cc
no_split (b ∷ before) after p e = cc

pub scan-Scanned : (curve : List EquityPoint) (s : Loop) → Gives (Scanned curve s) (scan curve s)
unfolding scan
scan-Scanned [] s = (omega arith, (λ before after p is. no_split before after p is), inl refl)
scan-Scanned (q ∷ curve) s = go (λ t. scan-Scanned curve t) (step q s) (step-Stepped q s)
  where
    to_before :
        (t : Loop)
        → t.maximum_drawdown ≡ min s.maximum_drawdown (fall (max s.peak q.equity) q.equity)
        → t.maximum_drawdown ≤ℤ s.maximum_drawdown
    to_before t worst =
        subst (λ a. a ≤ℤ s.maximum_drawdown) (sym worst)
          (min_least s.maximum_drawdown (fall (max s.peak q.equity) q.equity)).0

    to_here :
        (t : Loop)
        → t.maximum_drawdown ≡ min s.maximum_drawdown (fall (max s.peak q.equity) q.equity)
        → t.maximum_drawdown ≤ℤ fall (max s.peak q.equity) q.equity
    to_here t worst =
        subst (λ a. a ≤ℤ fall (max s.peak q.equity) q.equity) (sym worst)
          (min_least s.maximum_drawdown (fall (max s.peak q.equity) q.equity)).1

    split :
        (t : Loop)
        → t.peak ≡ max s.peak q.equity
        → t.maximum_drawdown ≡ min s.maximum_drawdown (fall (max s.peak q.equity) q.equity)
        → (u : Loop) → u.maximum_drawdown ≤ℤ t.maximum_drawdown
        → ((before after : List EquityPoint) (p : EquityPoint)
            → curve ≡ before ++ (p ∷ after)
            → u.maximum_drawdown ≤ℤ fall (highest t.peak (before ++ (p ∷ []))) p.equity)
        → (before after : List EquityPoint) (p : EquityPoint) → (q ∷ curve) ≡ before ++ (p ∷ after)
        → u.maximum_drawdown ≤ℤ fall (highest s.peak (before ++ (p ∷ []))) p.equity
    split t peak worst u lower below [] after p is =
        subst (λ (r : EquityPoint). u.maximum_drawdown ≤ℤ fall (max s.peak r.equity) r.equity)
          (same_head q p curve after is)
          (leq_trans u.maximum_drawdown t.maximum_drawdown _ lower (to_here t worst))
    split t peak worst u lower below (b ∷ before) after p is =
        subst
          (λ (r : EquityPoint).
            u.maximum_drawdown
            ≤ℤ fall (highest (max s.peak r.equity) (before ++ (p ∷ []))) p.equity)
          (same_head q b curve (before ++ (p ∷ after)) is)
          (subst
            (λ (top : Amount).
              u.maximum_drawdown ≤ℤ fall (highest top (before ++ (p ∷ []))) p.equity)
            peak (below before after p (same_tail q b curve (before ++ (p ∷ after)) is)))

    reached :
        (t : Loop)
        → t.peak ≡ max s.peak q.equity
        → t.maximum_drawdown ≡ min s.maximum_drawdown (fall (max s.peak q.equity) q.equity)
        → (u : Loop) → Attained curve t u
        → Attained (q ∷ curve) s u
    reached t peak worst u (inl same) =
        elim (min_one s.maximum_drawdown (fall (max s.peak q.equity) q.equity)) [
          | inl old ↦ inl (same ∙ worst ∙ old)
          | inr new ↦ inr ([], curve, q, refl, same ∙ worst ∙ new)
        ]
    reached t peak worst u (inr (before, after, p, is, e)) = inr (
      q ∷ before,
      after,
      p,
      ap (λ l. q ∷ l) is,
      e ∙ ap (λ (top : Amount). fall (highest top (before ++ (p ∷ []))) p.equity) peak,
    )

    later : (t : Loop) → Stepped q s t → (u : Loop) → Scanned curve t u → Scanned (q ∷ curve) s u
    later t (peak, worst) u (lower, below, attained) = (
      leq_trans u.maximum_drawdown t.maximum_drawdown s.maximum_drawdown lower (to_before t worst),
      split t peak worst u lower below,
      reached t peak worst u attained,
    )

    found :
        (t : Loop)
        → Stepped q s t
        → (r : Result Loop) → Gives (Scanned curve t) r
        → Gives (Scanned (q ∷ curve) s) r
    found t stepped (err e) g = tt
    found t stepped (ok u) g = later t stepped u g

    go :
        ((t : Loop) → Gives (Scanned curve t) (scan curve t))
        → (r : Result Loop) → Gives (Stepped q s) r
        → Gives (Scanned (q ∷ curve) s) (r >>= scan curve)
    go rest (err e) g = tt
    go rest (ok t) g = found t g (scan curve t) (rest t)
