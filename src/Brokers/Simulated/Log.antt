-- ===== src/Brokers/Simulated/Log.antt =====
-- The transaction log of the simulated broker.
use broker_ai.Base.{ℕ, ◌≡◌, refl, sym, subst, arith, false, Option, List, [], ◌∷◌, ◌++◌, inl, inr}
use broker_ai.Base.Distinct.{Distinct, Distinct-append, has_key}
use broker_ai.Base.Result.{Result, ok, err, Result-cases}
use broker_ai.Decimal.{Amount}
use broker_ai.Domain.Order.{Order}
use broker_ai.Domain.Position.{Position}
use broker_ai.Domain.Portfolio.{Portfolio}
use broker_ai.Domain.Time.{Datetime}
use broker_ai.Domain.Transaction.{Transaction, new_transaction, new_transaction_zoned}
use broker_ai.Brokers.Simulated.{
  SimulatedBroker, execute, precheck, validate_transaction_metadata, settle, run_checked,
  transaction_of, log_transaction,
}

abbrev pub HasDistinctIds : List Transaction → Type 0
HasDistinctIds = Distinct (λ (t : Transaction). t.transaction_id)

precheck_fresh :
    (b : SimulatedBroker) (o : Order) (id : ℕ) (at : Datetime) (p : Portfolio)
    {found : Option Position}
    → precheck b o id at p ≡ ok found
    → has_key (λ (t : Transaction). t.transaction_id) id b.transactions ≡ false
unfolding precheck validate_transaction_metadata
precheck_fresh b o id at p e = ground arith

-- An execution, whether it returns or raises, leaves a log in which no two transactions share an
-- ID, if the log was such a one before.
pub execute-HasDistinctIds :
    (id : ℕ) (at : Datetime) (o : Order) (b : SimulatedBroker) (p : Portfolio)
    → HasDistinctIds b.transactions
    → HasDistinctIds (execute id at o (b, p)).1.0.transactions
unfolding execute
execute-HasDistinctIds id at o b p d = go (precheck b o id at p) refl
  where
    logged :
        (t : Transaction) (after : Portfolio)
        → has_key (λ (t : Transaction). t.transaction_id) t.transaction_id b.transactions ≡ false
        → HasDistinctIds (log_transaction o b after (new_transaction t)).1.0.transactions
    logged t after fresh = elim (Result-cases (new_transaction t)) [
      | inl (x, e) ↦ rw e d
      | inr (t', e) ↦
          let same = (new_transaction_zoned t e).0 in
          rw e (
            subst (λ (u : Transaction). HasDistinctIds (b.transactions ++ (u ∷ []))) (sym same)
              (Distinct-append _ b.transactions t d fresh))
    ]

    settled :
        (r : Result Amount × Portfolio)
        → has_key (λ (t : Transaction). t.transaction_id) id b.transactions ≡ false
        → HasDistinctIds (settle o id at b p r).1.0.transactions
    settled (err x, after) fresh = d
    settled (ok c, after) fresh = logged (transaction_of b o id at c p after) after fresh

    go :
        (r : Result (Option Position))
        → precheck b o id at p ≡ r
        → HasDistinctIds (run_checked o id at r (b, p)).1.0.transactions
    go (err x) e = d
    go (ok existing) e = settled _ (precheck_fresh b o id at p e)
