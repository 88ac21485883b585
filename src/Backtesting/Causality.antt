-- ===== src/Backtesting/Causality.antt =====
-- A run sees no bar before its day.
use broker_ai.Base.{
  ℕ, ◌≡◌, refl, sym, ap, ◌∙◌, List, [], ◌∷◌, ◌++◌, length, arith, length-append, Option, none, some,
}
use broker_ai.Base.Result.{Result, ok, err, ◌>>=◌, bound_ok, ok_inj}
use broker_ai.Base.Int.{ℤ}
use broker_ai.Decimal.{Amount, finite}
use broker_ai.Domain.Order.{OrderSide}
use broker_ai.Risk.Engine.{RiskEngine}
use broker_ai.Domain.Instrument.{Instrument, Currency}
use broker_ai.Domain.Portfolio.{Portfolio, new_portfolio, get_position}
use broker_ai.Domain.Valuation.{value}
use broker_ai.Brokers.Simulated.{Execution}
use broker_ai.Data.{HistoricalBar}
use broker_ai.Strategies.{Strategy}
use broker_ai.Backtesting.{
  Ids, BacktestConfig, BacktestState, EquityPoint, initial_state, run_day, run_bars, run,
  execute_signal, quotes, follow, planned, traded,
}

append_assoc : {A : Type 0} (xs ys zs : List A) → (xs ++ ys) ++ zs ≡ xs ++ (ys ++ zs)
append_assoc [] ys zs = refl
append_assoc (x ∷ xs) ys zs = ap (λ t. x ∷ t) (append_assoc xs ys zs)

append_nil : {A : Type 0} (xs : List A) → xs ++ [] ≡ xs
append_nil [] = refl
append_nil (x ∷ xs) = ap (λ t. x ∷ t) (append_nil xs)

-- One list continues another.
abbrev pub Extends : {A : Type 0} → List A → List A → Type 0
Extends {A} longer shorter = (more : List A) × (longer ≡ shorter ++ more)

Extends-trans :
    {A : Type 0} (xs : List A) {ys zs : List A} → Extends ys xs → Extends zs ys → Extends zs xs
Extends-trans xs (m, e) (n, f) = (m ++ n, f ∙ ap (λ t. t ++ n) e ∙ append_assoc xs m n)

Extends-refl : {A : Type 0} (xs : List A) → Extends xs xs
Extends-refl xs = ([], sym (append_nil xs))

module _ (ids : Ids) (instrument : Instrument) (strategy : Strategy) (config : BacktestConfig) where
  -- A run over two spans of bars is a run over the first, then one over the second.
  pub run_bars-append :
      (past xs ys : List HistoricalBar) (s : BacktestState)
      → run_bars ids instrument strategy config past (xs ++ ys) s ≡ (
          run_bars ids instrument strategy config past xs s
          >>= run_bars ids instrument strategy config (past ++ xs) ys)
  unfolding run_bars
  run_bars-append past [] ys s =
      ap (λ t. run_bars ids instrument strategy config t ys s) (sym (append_nil past))
  run_bars-append past (x ∷ xs) ys s =
      go (λ t. run_bars-append (past ++ (x ∷ [])) xs ys t)
        (run_day ids instrument strategy config past x s)
    where
      go :
          ((t : BacktestState)
            → run_bars ids instrument strategy config (past ++ (x ∷ [])) (xs ++ ys) t ≡ (
                run_bars ids instrument strategy config (past ++ (x ∷ [])) xs t
                >>= run_bars ids instrument strategy config ((past ++ (x ∷ [])) ++ xs) ys))
          → (r : Result BacktestState)
          → (r >>= run_bars ids instrument strategy config (past ++ (x ∷ [])) (xs ++ ys)) ≡ (
              (r >>= run_bars ids instrument strategy config (past ++ (x ∷ [])) xs)
              >>= run_bars ids instrument strategy config (past ++ (x ∷ xs)) ys)
      go again (err e) = refl
      go again (ok t) =
          again t
          ∙ ap
              (λ l.
                run_bars ids instrument strategy config (past ++ (x ∷ [])) xs t
                >>= run_bars ids instrument strategy config l ys)
              (append_assoc past (x ∷ []) xs)

  traded_continues :
      (s : BacktestState) (x : Result Execution × (RiskEngine × Portfolio)) {t : BacktestState}
      → traded ids instrument strategy config s x ≡ ok t
      → (t.equity_curve ≡ s.equity_curve) × Extends t.executions s.executions
  traded_continues s (ok execution, (engine, p)) e = (ground arith, (execution ∷ [], ground arith))
  traded_continues s (err x, w) e = cc

  follow_continues :
      (bar : HistoricalBar) (s : BacktestState) (plan : Option (OrderSide × (ℤ × Amount)))
      {t : BacktestState}
      → follow ids instrument strategy config bar s plan ≡ ok t
      → (t.equity_curve ≡ s.equity_curve) × Extends t.executions s.executions
  follow_continues bar s none e = (ground arith, ([], ground (arith, append_nil s.executions)))
  follow_continues bar s (some (side, (q, fill))) e = traded_continues s _ e

  -- A day adds one point to the curve.
  abbrev pub Continues : ℕ → BacktestState → BacktestState → Type 0
  Continues days later earlier =
      ((more : List EquityPoint) × (later.equity_curve ≡ earlier.equity_curve ++ more)
        × (length more ≡ days))
      × Extends later.executions earlier.executions

  run_day-Continues :
      (past : List HistoricalBar) (bar : HistoricalBar) (s : BacktestState) {t : BacktestState}
      → run_day ids instrument strategy config past bar s ≡ ok t
      → Continues 1 t s
  unfolding run_day execute_signal
  run_day-Continues past bar s {t} e =
      let plan =
        planned s.pending_signal config bar.open_price (get_position instrument.symbol s.portfolio)
          s.portfolio in
      let (t1, traded_ok, rest) = bound_ok (follow ids instrument strategy config bar s plan) _ e in
      let (prices, _, rest) =
        bound_ok (quotes ids instrument strategy config bar t1.portfolio.positions) _ rest in
      let (v, _, done) = bound_ok (value prices t1.portfolio) _ rest in
      let point : EquityPoint = record {
        trading_date = bar.trading_date;
        equity = v.total_equity;
      } in
      let (curve, trades) = follow_continues bar s plan traded_ok in
      let kept = ap (λ (u : BacktestState). u.equity_curve) (ok_inj done) in
      let trades_kept = ap (λ (u : BacktestState). u.executions) (ok_inj done) in
      (
        (point ∷ [], sym kept ∙ ap (λ l. l ++ (point ∷ [])) curve, refl),
        (trades.0, sym trades_kept ∙ trades.1),
      )

  run_bars-Continues :
      (past bars : List HistoricalBar) (s : BacktestState) {t : BacktestState}
      → run_bars ids instrument strategy config past bars s ≡ ok t
      → Continues (length bars) t s
  unfolding run_bars
  run_bars-Continues past [] s e = (
    ([], ground (arith, append_nil s.equity_curve), refl),
    ([], ground (arith, append_nil s.executions)),
  )
  run_bars-Continues past (bar ∷ bars) s e =
      let (t1, day, rest) = bound_ok (run_day ids instrument strategy config past bar s) _ e in
      let ((m, grown, one_point), trades) = run_day-Continues past bar s day in
      let ((k, grown', points), trades') = run_bars-Continues (past ++ (bar ∷ [])) bars t1 rest in
      (
        (
          m ++ k,
          grown' ∙ ap (λ t. t ++ k) grown ∙ append_assoc s.equity_curve m k,
          omega (arith, length-append m k, one_point, points),
        ),
        Extends-trans s.executions trades trades',
      )

  -- No look-ahead: if a run over some bars followed by later ones returns, the run over the first
  -- bars alone returns too, and the later bars only append: one equity point for each, and
  -- executions at the end.
  pub run_causal :
      (bars later : List HistoricalBar) {t : BacktestState}
      → run ids instrument strategy config (bars ++ later) ≡ ok t
      → (s : BacktestState) × (run ids instrument strategy config bars ≡ ok s)
        × Continues (length later) t s
  unfolding run
  run_causal bars later {t} e =
      let (p, opened, rest) =
        bound_ok (new_portfolio (finite config.initial_cash) Currency.eur) _ e in
      let start = initial_state ids instrument strategy config p in
      let (s, early, late) =
        bound_ok (run_bars ids instrument strategy config [] bars start) _
          (sym (run_bars-append [] bars later start) ∙ rest) in
      (s, rw (opened) early, run_bars-Continues bars later s late)
