-- ===== src/Brokers/Alpaca/PaperOnly.antt =====
-- What the adapter sends: it changes nothing at any host but that of paper trading.
use broker_ai.Base.{
  ℕ, ◌≡◌, ◌⊎◌, inl, inr, refl, subst, arith, Bool, false, Option, none, some, List, [], ◌∷◌, Text,
  nat_eq,
}
use broker_ai.Base.Result.{Result, ok, err, then_do-keeps}
use broker_ai.Base.Dict.{Dict, lookup}
use broker_ai.Domain.Instrument.{Instrument}
use broker_ai.Domain.Order.{Order}
use broker_ai.Domain.Time.{Datetime}
use broker_ai.Brokers.Alpaca.Json.{Json}
use broker_ai.Brokers.Alpaca.Http.{HttpClient, Call, Method, Resource, OrderBody}
use broker_ai.Brokers.Alpaca.Answers.{Parsers}
use broker_ai.Brokers.Alpaca.Adapter.{
  Adapter, new_adapter, request, fetch, status_of, get_status, get_market_price, get_account,
  get_order, get_known, submit_order, submit_by_id, remember, cancel_order, cancel_known,
  reconcile_orders, get_each, paper_trading_url, require_usd, require_same,
}
use broker_ai.Brokers.Alpaca.Recent.{get_recent_order_snapshots}

-- The methods of the adapter, with their arguments.
pub data Command : Type 0 where
  ask_status ask_account : Datetime → Command
  ask_price : Instrument → Command
  submit : Order → Command
  ask_order cancel : ℕ → Command
  reconcile recent : Command

-- A call that changes nothing, or is made to the paper trading service.
abbrev pub IsPaper : Call → Type 0
IsPaper c = (c.method ≡ Method.get) ⊎ (c.host ≡ paper_trading_url)

module _ {S : Type 0} (client : HttpClient S) (parsers : Parsers) where
  -- The adapter after a method, which may have raised.
  unfoldable pub run : Command → Adapter S → Adapter S
  run (Command.ask_status now) s = (get_status client parsers now s).1
  run (Command.ask_account now) s = (get_account client parsers now s).1
  run (Command.ask_price i) s = (get_market_price client parsers i s).1
  run (Command.submit order) s = (submit_order client parsers order s).1
  run (Command.ask_order id) s = (get_order client parsers id s).1
  run (Command.cancel id) s = (cancel_order client parsers id s).1
  run Command.reconcile s = (reconcile_orders client parsers s).1
  run Command.recent s = (get_recent_order_snapshots client parsers s).1

  unfoldable pub run_all : List Command → Adapter S → Adapter S
  run_all [] s = s
  run_all (c ∷ cs) s = run_all cs (run c s)

  module _ (P : S → Type 0)
      (keeps : (c : Call) → IsPaper c → (w : S) → P w → P (client.request c w).1) where
    -- The adapter trades at the paper service, and its world has the property.
    abbrev Keeps : Adapter S → Type 0
    Keeps s = (s.trading_url ≡ paper_trading_url) × P s.world

    request-Keeps :
        (m : Method) (host : Text) (r : Resource) (json : Option OrderBody) (e : Bool)
        → (m ≡ Method.get) ⊎ (host ≡ paper_trading_url)
        → (s : Adapter S) → Keeps s
        → Keeps (request client parsers m host r json e s).1
    unfolding request
    request-Keeps m host r json e paper s (url, holds) = (url, keeps _ paper s.world holds)

    fetch-Keeps : (r : Resource) (s : Adapter S) → Keeps s → Keeps (fetch client parsers r s).1
    fetch-Keeps r s k = request-Keeps Method.get s.trading_url r none false (inl refl) s k

    get_known-Keeps :
        (id : ℕ) (order : Option Order) (s : Adapter S)
        → Keeps s
        → Keeps (get_known client parsers id order s).1
    get_known-Keeps id none s k = k
    get_known-Keeps id (some order) s k =
        then_do-keeps Keeps (fetch client parsers (Resource.order_with id) s) _
          (fetch-Keeps (Resource.order_with id) s k) (λ _ t l. l)

    get_order-Keeps : (id : ℕ) (s : Adapter S) → Keeps s → Keeps (get_order client parsers id s).1
    unfolding get_order
    get_order-Keeps id s k = get_known-Keeps id (lookup id s.orders) s k

    submit_by_id-Keeps :
        (order : Order) (id : Option ℕ) (s : Adapter S)
        → Keeps s
        → Keeps (submit_by_id client parsers order id s).1
    submit_by_id-Keeps order none s k =
        then_do-keeps Keeps (request client parsers Method.post s.trading_url _ _ _ s) _
          (request-Keeps Method.post s.trading_url _ _ _ (inr k.0) s k)
          (λ _ t l. then_do-keeps Keeps (_, t) (remember client parsers order) l (λ _ u m. m))
    submit_by_id-Keeps order (some id) s k =
        then_do-keeps Keeps (require_same client parsers order (lookup id s.orders), s) _ k
          (λ _ t l. get_order-Keeps id t l)

    cancel_known-Keeps :
        (id : ℕ) (order : Option Order) (s : Adapter S)
        → Keeps s
        → Keeps (cancel_known client parsers id order s).1
    cancel_known-Keeps id none s k = k
    cancel_known-Keeps id (some _) s k =
        then_do-keeps Keeps (request client parsers Method.delete s.trading_url _ _ _ s) _
          (request-Keeps Method.delete s.trading_url _ _ _ (inr k.0) s k)
          (λ _ t l. get_order-Keeps id t l)

    get_each-Keeps :
        (d : Dict ℕ Order) (s : Adapter S) → Keeps s → Keeps (get_each client parsers d s).1
    get_each-Keeps [] s k = k
    get_each-Keeps ((id, _) ∷ d) s k =
        then_do-keeps Keeps (get_order client parsers id s) _ (get_order-Keeps id s k) (λ _ t l.
          then_do-keeps Keeps (get_each client parsers d t) _ (get_each-Keeps d t l) (λ _ u m. m))

    fetch_status-Keeps :
        (now : Datetime) (x : Result Json × Adapter S)
        → Keeps x.1
        → Keeps (status_of client parsers now x).1
    fetch_status-Keeps now (ok _, s) k = k
    fetch_status-Keeps now (err e, s) k = k

    run-Keeps : (c : Command) (s : Adapter S) → Keeps s → Keeps (run c s)
    unfolding run get_status get_account get_market_price submit_order cancel_order reconcile_orders
        get_recent_order_snapshots
    run-Keeps (Command.ask_status now) s k =
        fetch_status-Keeps now (fetch client parsers Resource.account s)
          (fetch-Keeps Resource.account s k)
    run-Keeps (Command.ask_account now) s k =
        then_do-keeps Keeps (fetch client parsers Resource.account s) _
          (fetch-Keeps Resource.account s k)
          (λ _ t l.
            then_do-keeps Keeps (fetch client parsers Resource.positions t) _
              (fetch-Keeps Resource.positions t l) (λ _ u m. m))
    run-Keeps (Command.ask_price i) s k =
        then_do-keeps Keeps (require_usd i, s) _ k
          (λ _ t l.
            then_do-keeps Keeps (request client parsers Method.get t.data_url _ _ _ t) _
              (request-Keeps Method.get t.data_url _ _ _ (inl refl) t l) (λ _ u m. m))
    run-Keeps (Command.submit order) s k =
        then_do-keeps Keeps (require_usd order.instrument, s) _ k
          (λ _ t l. submit_by_id-Keeps order (lookup order.order_id t.broker_id_by_client_id) t l)
    run-Keeps (Command.ask_order id) s k = get_order-Keeps id s k
    run-Keeps (Command.cancel id) s k = cancel_known-Keeps id (lookup id s.orders) s k
    run-Keeps Command.reconcile s k = get_each-Keeps s.orders s k
    run-Keeps Command.recent s k =
        then_do-keeps Keeps (fetch client parsers Resource.recent_orders s) _
          (fetch-Keeps Resource.recent_orders s k) (λ _ t l. l)

    run_all-Keeps : (cs : List Command) (s : Adapter S) → Keeps s → Keeps (run_all cs s)
    unfolding run_all
    run_all-Keeps [] s k = k
    run_all-Keeps (c ∷ cs) s k = run_all-Keeps cs (run c s) (run-Keeps c s k)

    -- Whatever is kept by every call that only reads or goes to the paper trading host is kept by
    -- an adapter that was constructed, whatever its credentials and URLs, through any sequence of
    -- its methods, whether they return or raise.
    pub run_all-paper :
        (key secret trading_url data_url : Text) (world : S) (s : Adapter S)
        → new_adapter key secret trading_url data_url world ≡ ok s
        → P world
        → (cs : List Command) → P (run_all cs s).world
    unfolding new_adapter
    run_all-paper key secret trading_url data_url world s made holds cs =
        (run_all-Keeps cs s (ground arith, subst P (ground arith) holds)).1
