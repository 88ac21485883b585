-- ===== src/Brokers/Alpaca/Http.antt =====
-- What the adapter sends, what it gets back, and `_request`.
use broker_ai.Base.{ℕ, Bool, ◌&&◌, ◌||◌, ◌==◌, leb, if◌then◌else◌, Option, none, some, Text}
use broker_ai.Base.Result.{Result, Error, ok, err}
use broker_ai.Decimal.{Amount}
use broker_ai.Domain.Order.{OrderSide}
use broker_ai.Brokers.Alpaca.Json.{Json}

pub data Method : Type 0 where
  get post delete : Method

-- What follows the host of a URL, with its query parameters.
pub data Resource : Type 0 where
  account positions orders recent_orders : Resource
  order_with : ℕ → Resource
  latest_trade : Text → Resource

-- The JSON of a new limit order for the day; a number is sent as its `str`.
pub record OrderBody : Type 0 where
  pub symbol : Text
  pub qty : ℕ
  pub side : OrderSide
  pub limit_price : Amount
  pub client_order_id : ℕ

pub record Headers : Type 0 where
  pub api_key_id : Text
  pub api_secret_key : Text

pub record Call : Type 0 where
  pub method : Method
  pub host : Text
  pub resource : Resource
  pub headers : Headers
  pub json : Option OrderBody

pub record Response : Type 0 where
  pub status_code : ℕ
  pub is_empty : Bool
  pub json : Option Json

-- A timeout or a network error, another exception of the client, or an answer.
pub data Reply : Type 0 where
  unreachable broken : Reply
  answered : Response → Reply

-- `httpx.AsyncClient.request`, over whatever the client and the world behind it keep.
pub record HttpClient (S : Type 0) : Type 0 where
  pub request : Call → S → Reply × S

-- `_request` on the answer, whose test `is_error` is true from 400 to 599.
unfoldable pub decode : Bool → Reply → Result Json
decode empty_ok Reply.unreachable = err Error.transient
decode empty_ok Reply.broken = err Error.http_failed
decode empty_ok (Reply.answered r) =
    let c = r.status_code in
    if c == 404
    then err Error.order_not_found
    else if c == 429 || c == 500 || c == 502 || c == 503 || c == 504
    then err Error.transient
    else if c == 401 || c == 403
    then err Error.unavailable
    else if leb 400 c && leb c 599
    then err Error.broker_failed
    else if empty_ok && r.is_empty
    then ok Json.null
    else (elim r.json [ none ↦ err Error.broker_failed | some j ↦ ok j ])
