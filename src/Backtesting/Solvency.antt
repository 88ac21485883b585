-- ===== src/Backtesting/Solvency.antt =====
-- A run never spends money it does not have.
use broker_ai.Base.{
  ℕ, suc, ◌≡◌, refl, sym, ap, subst, Option, none, some, List, [], ◌∷◌, ◌++◌, arith,
}
use broker_ai.Base.Int.{ℤ, ◌≤ℤ◌}
use broker_ai.Base.Result.{Result, ok, err, ◌>>=◌, bound_ok, ok_inj}
use broker_ai.Decimal.{Amount, Decimal, finite, nought}
use broker_ai.Domain.Instrument.{Instrument, Currency, IsNormal}
use broker_ai.Domain.Order.{Order, OrderSide, new_order, IsValidOrder, new_order-IsValidOrder}
use broker_ai.Domain.Portfolio.{Portfolio, new_portfolio, get_position}
use broker_ai.Domain.Portfolio.Invariant.{IsValid, new_portfolio-IsValid}
use broker_ai.Domain.Valuation.{value}
use broker_ai.Brokers.Simulated.{SimulatedBroker, Execution, new_simulated_broker, execute}
use broker_ai.Brokers.Simulated.Settlement.{Settles, execute-Settles}
use broker_ai.Risk.Models.{RiskContext}
use broker_ai.Risk.Engine.{RiskEngine}
use broker_ai.Risk.Gateway.Guard.{execute-keeps}
use broker_ai.Data.{HistoricalBar}
use broker_ai.Strategies.{Strategy}
use broker_ai.Backtesting.{
  Ids, BacktestConfig, BacktestState, initial_state, run_day, run_bars, run, execute_signal, quotes,
  follow, planned, traded, placed, prepared, dated_broker, combine,
}

-- The portfolio that an execution leaves, whether it returns or raises, is valid, and the fee is
-- not negative.
abbrev Solvent : SimulatedBroker × Portfolio → Type 0
Solvent (b, p) = (nought ≤ℤ b.fee_per_order) × IsValid p

Settles-Solvent :
    (before : SimulatedBroker × Portfolio) (r : Result Execution)
    (after : SimulatedBroker × Portfolio)
    → Settles before (r, after)
    → Solvent before
    → Solvent after
Settles-Solvent before (err x) after same solvent = subst Solvent (sym same) solvent
Settles-Solvent before (ok e) after (valid, _, _, fee) solvent =
    (subst (λ (f : Amount). nought ≤ℤ f) (sym fee) solvent.0, valid)

new_simulated_broker_fee :
    (fee : Decimal) {b : SimulatedBroker}
    → new_simulated_broker fee ≡ ok b
    → nought ≤ℤ b.fee_per_order
unfolding new_simulated_broker
new_simulated_broker_fee fee e = ground arith

new_order_instrument :
    (i : Instrument) (s : OrderSide) (q : ℤ) (price : Decimal) (id : ℕ) {o : Order}
    → new_order i s q price id ≡ ok o
    → o.instrument ≡ i
unfolding new_order
new_order_instrument i s q price id e = ground arith

abbrev triple : {A B C : Type 0} → A → B → C → Result (A × (B × C))
triple x y z = ok (x, (y, z))

-- Inversion of a chain of three calls that do not use each other's results.
chain_ok :
    {A B C : Type 0} (r : Result A) (s : Result B) (q : Result C) {a : A} {b : B} {c : C}
    → (do x ← r; y ← s; z ← q; triple x y z) ≡ ok (a, (b, c))
    → (r ≡ ok a) × (s ≡ ok b)
chain_ok (ok x) (ok y) (ok z) e =
    let same = ok_inj e in (ap (λ t. ok t.0) same, ap (λ t. ok t.1.0) same)
chain_ok (ok x) (ok y) (err f) e = cc
chain_ok (ok x) (err f) q e = cc
chain_ok (err f) s q e = cc

module _ (ids : Ids) (instrument : Instrument) (strategy : Strategy) (config : BacktestConfig)
    (n : IsNormal instrument) where
  placed-IsValid :
      (day : ℕ) (side : OrderSide) (number : ℕ) (b : SimulatedBroker) (o : Order) (c : RiskContext)
      (engine : RiskEngine) (p : Portfolio)
      → IsNormal o.instrument
      → IsValidOrder o
      → nought ≤ℤ b.fee_per_order
      → IsValid p
      → IsValid
          (placed ids instrument strategy config day side number (ok (b, (o, c))) (engine, p)).1.1
  placed-IsValid day side number b o c engine p on v fee valid =
      (execute-keeps (dated_broker ids instrument strategy config day side) 0
        (ids.assessment number) (combine day 539) o c engine (b, p) Solvent
        (λ w solvent.
          let done = execute (ids.transaction day side) (combine day 540) o w in
          Settles-Solvent w done.0 done.1
            (execute-Settles (ids.transaction day side) (combine day 540) o w.0 w.1 on v solvent.0
              solvent.1)
            solvent)
        (fee, valid)).1

  traded_portfolio :
      (s : BacktestState) (x : Result Execution × (RiskEngine × Portfolio)) {t : BacktestState}
      → traded ids instrument strategy config s x ≡ ok t
      → t.portfolio ≡ x.1.1
  traded_portfolio s (ok execution, (engine, p)) e = ground arith
  traded_portfolio s (err x, w) e = cc

  prepared_ok :
      (side : OrderSide) (q : ℤ) (fill open_price : Amount) (day : ℕ) (p : Portfolio)
      {b : SimulatedBroker} {o : Order} {c : RiskContext}
      → prepared ids instrument strategy config side q fill open_price day p ≡ ok (b, (o, c))
      → IsNormal o.instrument × IsValidOrder o × (nought ≤ℤ b.fee_per_order)
  unfolding prepared
  prepared_ok side q fill open_price day p {b} {o} {c} e =
      let (made, ordered) =
        chain_ok (new_simulated_broker (finite config.fee_per_order))
          (new_order instrument side q (finite fill) (ids.order day side)) _ e in
      (
        subst IsNormal
            (sym
              (new_order_instrument instrument side q (finite fill) (ids.order day side) ordered))
            n,
        new_order-IsValidOrder instrument side q (finite fill) (ids.order day side) ordered,
        new_simulated_broker_fee (finite config.fee_per_order) made,
      )

  follow-IsValid :
      (bar : HistoricalBar) (s : BacktestState) (plan : Option (OrderSide × (ℤ × Amount)))
      {t : BacktestState}
      → IsValid s.portfolio
      → follow ids instrument strategy config bar s plan ≡ ok t
      → IsValid t.portfolio
  follow-IsValid bar s none valid e = ground arith
  follow-IsValid bar s (some (side, (q, fill))) {t} valid e =
      go
        (prepared ids instrument strategy config side q fill bar.open_price bar.trading_date
          s.portfolio)
        refl e
    where
      go :
          (r : Result (SimulatedBroker × (Order × RiskContext)))
          → prepared ids instrument strategy config side q fill bar.open_price bar.trading_date
              s.portfolio
            ≡ r
          → traded ids instrument strategy config s (
              placed ids instrument strategy config bar.trading_date side
                (suc s.assessments)
                r
                (s.risk_engine, s.portfolio))
            ≡ ok t
          → IsValid t.portfolio
      go (err x) made done = cc
      go (ok (b, (o, c))) made done =
          let (on, v, fee) =
            prepared_ok side q fill bar.open_price bar.trading_date s.portfolio made in
          subst IsValid (sym (traded_portfolio s _ done)) (
            placed-IsValid bar.trading_date side (suc s.assessments) b o c s.risk_engine s.portfolio
              on v fee valid)

  run_day-IsValid :
      (past : List HistoricalBar) (bar : HistoricalBar) (s : BacktestState) {t : BacktestState}
      → IsValid s.portfolio
      → run_day ids instrument strategy config past bar s ≡ ok t
      → IsValid t.portfolio
  unfolding run_day execute_signal
  run_day-IsValid past bar s {t} valid e =
      let plan =
        planned s.pending_signal config bar.open_price (get_position instrument.symbol s.portfolio)
          s.portfolio in
      let (t1, traded_ok, rest) = bound_ok (follow ids instrument strategy config bar s plan) _ e in
      let (prices, _, rest) =
        bound_ok (quotes ids instrument strategy config bar t1.portfolio.positions) _ rest in
      let (v, _, done) = bound_ok (value prices t1.portfolio) _ rest in
      subst IsValid (ap (λ (u : BacktestState). u.portfolio) (ok_inj done))
        (follow-IsValid bar s plan valid traded_ok)

  run_bars-IsValid :
      (past bars : List HistoricalBar) (s : BacktestState) {t : BacktestState}
      → IsValid s.portfolio
      → run_bars ids instrument strategy config past bars s ≡ ok t
      → IsValid t.portfolio
  unfolding run_bars
  run_bars-IsValid past [] s valid e = ground arith
  run_bars-IsValid past (bar ∷ bars) s valid e =
      let (t1, day, rest) = bound_ok (run_day ids instrument strategy config past bar s) _ e in
      run_bars-IsValid (past ++ (bar ∷ [])) bars t1 (run_day-IsValid past bar s valid day) rest

  -- Whatever the strategy, the bars and the limits, a run over an instrument in normal form that
  -- returns ends with a valid portfolio: its cash is not negative, and every position is held under
  -- its own symbol with a positive quantity and average price.
  pub run-IsValid :
      (bars : List HistoricalBar) {t : BacktestState}
      → run ids instrument strategy config bars ≡ ok t
      → IsValid t.portfolio
  unfolding run
  run-IsValid bars e =
      let (p, opened, rest) =
        bound_ok (new_portfolio (finite config.initial_cash) Currency.eur) _ e in
      run_bars-IsValid [] bars (initial_state ids instrument strategy config p)
        (new_portfolio-IsValid (finite config.initial_cash) Currency.eur opened) rest
