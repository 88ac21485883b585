-- ===== src/Backtesting/Statistics.antt =====
-- The volatility and the Sharpe ratio that `calculate_metrics` finds.
use broker_ai.Base.{
  ◌≡◌, refl, subst, true, false, inl, inr, Bool-cases, Option, none, some, List, [], ◌∷◌, map,
  length,
}
use broker_ai.Base.Result.{Result, ok, err, ◌>>=◌, Gives, bind-Gives}
use broker_ai.Decimal.{Amount, Decimal}
use broker_ai.Backtesting.Metrics.{Floats, squares, sharpe_of, statistics}

module _ {F : Type 0} (floats : Floats F) where
  -- A square of the distance from the mean for each return.
  abbrev pub Squares : F → List F → List F → Type 0
  Squares mean [] [] = Unit {0}
  Squares mean (x ∷ xs) (d ∷ ds) =
      (floats.squared (floats.minus x mean) ≡ ok d) × Squares mean xs ds
  Squares mean [] (d ∷ ds) = ⊥
  Squares mean (x ∷ xs) [] = ⊥

  squares-Squares : (mean : F) (xs : List F) → Gives (Squares mean xs) (squares floats mean xs)
  squares-Squares mean [] = tt
  squares-Squares mean (x ∷ xs) =
      go (floats.squared (floats.minus x mean)) refl (squares floats mean xs)
        (squares-Squares mean xs)
    where
      go :
          (r : Result F)
          → floats.squared (floats.minus x mean) ≡ r
          → (rest : Result (List F)) → Gives (Squares mean xs) rest
          → Gives (Squares mean (x ∷ xs)) (r >>= λ d. rest >>= λ ds. ok (d ∷ ds))
      go (err e) is rest h = tt
      go (ok d) is (err e) h = tt
      go (ok d) is (ok ds) h = (is, h)

  -- There is a Sharpe ratio just when the volatility is above zero: the mean by the volatility, times
  -- the root of 252.
  abbrev pub IsSharpe : F → F → Option Decimal → Type 0
  IsSharpe mean volatility none = floats.is_positive volatility ≡ false
  IsSharpe mean volatility (some d) =
      (floats.is_positive volatility ≡ true)
      × ((ratio : F) × (root : F) × (floats.over mean volatility ≡ ok ratio)
          × (floats.sqrt (floats.of_int 252) ≡ ok root)
          × (d ≡ floats.to_decimal (floats.times ratio root)))

  sharpe_of-IsSharpe :
      (mean volatility : F) → Gives (IsSharpe mean volatility) (sharpe_of floats mean volatility)
  sharpe_of-IsSharpe mean volatility = elim (Bool-cases (floats.is_positive volatility)) [
    | inr still ↦ rw still still
    | inl moving ↦ rw moving (
        bind-Gives (IsSharpe mean volatility) (floats.over mean volatility) _ λ ratio divided.
          bind-Gives (IsSharpe mean volatility) (floats.sqrt (floats.of_int 252)) _
            λ root rooted. (moving, (ratio, root, divided, rooted, refl)))
  ]

  -- The mean, the variance and the root of the variance of the returns, and what they come to.
  pub record IsStatistics (returns : List F) (x : Decimal × Option Decimal) : Type 0 where
    pub mean : F
    pub distances : List F
    pub variance : F
    pub volatility : F
    pub root : F
    pub is_mean : floats.over (floats.sum returns) (floats.of_int (length returns)) ≡ ok mean
    pub are_squares : Squares mean returns distances
    pub is_variance :
        floats.over (floats.sum distances) (floats.of_int (length returns)) ≡ ok variance
    pub is_volatility : floats.sqrt variance ≡ ok volatility
    pub is_root : floats.sqrt (floats.of_int 252) ≡ ok root
    pub annualized : x.0 ≡ floats.to_decimal (floats.times volatility root)
    pub is_sharpe : IsSharpe mean volatility x.1

  pub statistics-IsStatistics :
      (daily : List Amount)
      → Gives (IsStatistics (map floats.float_of daily)) (statistics floats daily)
  unfolding statistics
  statistics-IsStatistics daily =
      let xs = map floats.float_of daily in
      let n = floats.of_int (length xs) in
      let P = IsStatistics xs in
      bind-Gives P (floats.over (floats.sum xs) n) _ λ mean is_mean.
        bind-Gives P (squares floats mean xs) _ λ ds squared.
          bind-Gives P (floats.over (floats.sum ds) n) _ λ variance is_variance.
            bind-Gives P (floats.sqrt variance) _ λ volatility is_volatility.
              bind-Gives P (floats.sqrt (floats.of_int 252)) _ λ root is_root.
                bind-Gives P (sharpe_of floats mean volatility) _ λ sharpe found. record {
                  mean = mean;
                  distances = ds;
                  variance = variance;
                  volatility = volatility;
                  root = root;
                  is_mean = is_mean;
                  are_squares = subst (Gives (Squares mean xs)) squared (squares-Squares mean xs);
                  is_variance = is_variance;
                  is_volatility = is_volatility;
                  is_root = is_root;
                  annualized = refl;
                  is_sharpe =
                      subst (Gives (IsSharpe mean volatility)) found
                        (sharpe_of-IsSharpe mean volatility);
                }
