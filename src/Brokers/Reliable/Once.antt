-- ===== src/Brokers/Reliable/Once.antt =====
-- Retrying a submission to the simulator adapter over a link that may lose requests and answers:
-- at most one of the attempts takes effect.
use broker_ai.Base.{ℕ, ◌<◌, ◌≡◌, refl, ◌⊎◌, inl, inr, sym, ◌∙◌, ap, subst}
use broker_ai.Base.Result.{Result, ok, err}
use broker_ai.Domain.Instrument.{IsNormal}
use broker_ai.Domain.Order.{Order, IsValidOrder}
use broker_ai.Domain.Time.{Datetime}
use broker_ai.Brokers.Models.{BrokerMode, BrokerOrder}
use broker_ai.Brokers.Local.{LocalBroker, submit_filled}
use broker_ai.Brokers.Local.Idempotence.{submit_filled-again}
use broker_ai.Brokers.Local.Atomic.{IsSound, submit_filled_atomic}
use broker_ai.Brokers.Reliable.Defs.{Attempt, value, timed_out, raised, call}
use broker_ai.Brokers.Reliable.Retry.{call-Run, Run-inv, Returns}

-- What happens to one attempt on its way: it is answered, or it times out before or after it has
-- reached the adapter.
pub data Fate : Type 0 where
  answered request_lost answer_lost : Fate

-- The answer of the adapter as the client's loop sees it; no error of a local adapter is temporary.
abbrev pub as_attempt : Result BrokerOrder → Attempt BrokerOrder
as_attempt (ok o) = value o
as_attempt (err e) = raised e

abbrev pub deliver :
    Fate → LocalBroker → Result BrokerOrder × LocalBroker → Attempt BrokerOrder × LocalBroker
deliver Fate.answered s (r, s') = (as_attempt r, s')
deliver Fate.request_lost s (r, s') = (timed_out, s)
deliver Fate.answer_lost s (r, s') = (timed_out, s')

module _ (uuid5 : BrokerMode → ℕ → ℕ) (order : Order) (ids : ℕ → ℕ) (clock : ℕ → Datetime)
    (fate : ℕ → Fate) where
  -- The `n`-th attempt of `ReliableBrokerClient.submit_order`.
  abbrev pub submission : ℕ → LocalBroker → Result BrokerOrder × LocalBroker
  submission n = submit_filled uuid5 (ids n) (clock n) order

  abbrev pub attempt : ℕ → LocalBroker → Attempt BrokerOrder × LocalBroker
  attempt n s = deliver (fate n) s (submission n s)

  -- `ReliableBrokerClient.submit_order`, when no other task uses the adapter meanwhile
  abbrev pub submit_order : ℕ → LocalBroker → Result BrokerOrder × LocalBroker
  submit_order max_attempts = call max_attempts attempt (λ _ s. s)

  module _ (start : LocalBroker) (n : IsNormal order.instrument) (v : IsValidOrder order)
      (sound : IsSound start) where
    -- The order `o` was submitted to the adapter as it was at the start, once.
    abbrev pub Submitted : BrokerOrder → LocalBroker → Type 0
    Submitted o s = (k : ℕ) × (submission k start ≡ (ok o, s))

    -- Nothing has happened, or one submission.
    abbrev pub AtMostOnce : LocalBroker → Type 0
    AtMostOnce s = (s ≡ start) ⊎ ((o : BrokerOrder) × Submitted o s)

    -- A submission, from either of the two, leads to one of the two, and its answer is the record
    -- of the one submission.
    submission-AtMostOnce :
        (k : ℕ) (s : LocalBroker)
        → AtMostOnce s
        → (r : Result BrokerOrder) (s' : LocalBroker) → submission k s ≡ (r, s')
        → AtMostOnce s' × ((o : BrokerOrder) → r ≡ ok o → Submitted o s')
    submission-AtMostOnce k s (inl e) (ok o) s' done =
        let d : submission k start ≡ (ok o, s') =
          subst (λ (t : LocalBroker). submission k t ≡ (ok o, s')) e done in
        (inr (o, (k, d)), λ o' q. (k, d ∙ ap (λ (t : Result BrokerOrder). (t, s')) q))
    submission-AtMostOnce k s (inl e) (err x) s' done =
        let d : submission k start ≡ (err x, s') =
          subst (λ (t : LocalBroker). submission k t ≡ (err x, s')) e done in
        (inl (submit_filled_atomic uuid5 (ids k) (clock k) order start n v sound d), λ o' q. cc)
    submission-AtMostOnce k s (inr (o, (j, first))) r s' done =
        let same =
          sym (submit_filled-again uuid5 (ids j) (ids k) (clock j) (clock k) order start first)
          ∙ done in
        (
          inr (o, (j, first ∙ ap (λ (t : Result BrokerOrder × LocalBroker). (ok o, t.1)) same)),
          λ o' q. (j, first ∙ same ∙ ap (λ (t : Result BrokerOrder). (t, s')) q),
        )

    attempt-AtMostOnce :
        (k : ℕ) (s : LocalBroker)
        → AtMostOnce s
        → AtMostOnce (attempt k s).1
          × ((o : BrokerOrder) → (attempt k s).0 ≡ value o → Submitted o (attempt k s).1)
    attempt-AtMostOnce k s h =
        go (fate k) (submission k s).0 (submission k s).1
          (submission-AtMostOnce k s h (submission k s).0 (submission k s).1 refl)
      where
        go :
            (f : Fate) (r : Result BrokerOrder) (s' : LocalBroker)
            → AtMostOnce s' × ((o : BrokerOrder) → r ≡ ok o → Submitted o s')
            → let (a, t) = deliver f s (r, s') in
              AtMostOnce t × ((o : BrokerOrder) → a ≡ value o → Submitted o t)
        go Fate.answered (ok o) s' (once, done) = (once, λ o' q. done o' (cc))
        go Fate.answered (err x) s' (once, done) = (once, λ o' q. cc)
        go Fate.request_lost r s' (once, done) = (h, λ o' q. cc)
        go Fate.answer_lost r s' (once, done) = (once, λ o' q. cc)

    -- A valid order, for an instrument in normal form, is sent to a sound simulator adapter with at
    -- least one attempt. However many attempts time out, and wherever, the adapter ends as it was or as one single
    -- submission leaves it; and an order that the client gets back is the record of that one
    -- submission.
    pub submit_order-AtMostOnce :
        (max_attempts : ℕ)
        → 0 < max_attempts
        → let (r, s') = submit_order max_attempts start in
          AtMostOnce s' × ((o : BrokerOrder) → r ≡ ok o → Submitted o s')
    submit_order-AtMostOnce max_attempts h =
        let (r, s') = submit_order max_attempts start in
        let (once, back) =
          Run-inv max_attempts attempt (λ _ s. s) AtMostOnce Submitted
            (λ k s p. (attempt-AtMostOnce k s p).0) (λ k s p. p)
            (λ k s o p. (attempt-AtMostOnce k s p).1 o)
            (call-Run max_attempts attempt (λ _ s. s) start h) (inl refl) in
        (once, returned r s' back)
      where
        returned :
            (r : Result BrokerOrder) (s' : LocalBroker)
            → Returns max_attempts attempt (λ _ s. s) AtMostOnce Submitted r s'
            → (o : BrokerOrder) → r ≡ ok o
            → Submitted o s'
        returned (ok o) s' (k, done) o' q = (k, done ∙ ap (λ (t : Result BrokerOrder). (t, s')) q)
        returned (err x) s' back o' q = cc
