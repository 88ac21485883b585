-- ===== src/Server/Api/Access.antt =====
-- `current_user`, `require_admin`, the routes and the middleware `observe`. `sha256` stands for the
-- digest of a text.
use broker_ai.Base.{
  ℕ, suc, not, if◌then◌else◌, Option, none, some, List, [], ◌∷◌, ◌++◌, Text, text_beq,
}
use broker_ai.Base.Result.{Result, Error, ok, err, Action, then_do}
use broker_ai.Domain.Text.{strip, lower}
use broker_ai.Server.RateLimiter.{RateLimiter, check}
use broker_ai.Server.Schemas.{BotCreate, ProposalCreate, Decision}
use broker_ai.Server.Database.{
  Database, User, Role, Bot, Proposal, AuditLog, BrokerOrderRow, BrokerPositionRow, SyncRun,
  first_where,
}
use broker_ai.Server.Api.Proposals.{Draw, create_bot, propose, decide}

pub record Credentials : Type 0 where
  pub scheme : Text
  pub token : Text

pub record Api : Type 0 where
  pub database : Database
  pub limiter : RateLimiter
  pub requests : ℕ
  pub errors : ℕ

-- The endpoints. A list of rows is given in the order of the table, not in that of its ORDER BY.
pub data Endpoint : Type 0 where
  health metrics api_status list_bots list_proposals audit_logs broker_orders : Endpoint
  broker_positions broker_sync_runs : Endpoint
  post_bot : BotCreate → Endpoint
  post_proposal : ProposalCreate → Endpoint
  post_decision : ℕ → Decision → Endpoint

pub data Body : Type 0 where
  nothing : Body
  numbers : ℕ → ℕ → Body
  bots : List Bot → Body
  bot : Option Bot → Body
  proposals : List Proposal → Body
  proposal : Option Proposal → Body
  logs : List AuditLog → Body
  orders : List BrokerOrderRow → Body
  positions : List BrokerPositionRow → Body
  runs : List SyncRun → Body

pub record Request : Type 0 where
  pub endpoint : Endpoint
  pub client_host : Option Text
  pub credentials : Option Credentials
  pub at : ℕ
  pub draw : Draw

abbrev pub host_key : Option Text → Text
host_key none =
    b'a' ∷ b'u' ∷ b't' ∷ b'h' ∷ b':' ∷ b'u' ∷ b'n' ∷ b'k' ∷ b'n' ∷ b'o' ∷ b'w' ∷ b'n' ∷ []
host_key (some host) = (b'a' ∷ b'u' ∷ b't' ∷ b'h' ∷ b':' ∷ []) ++ host

-- "bearer"
abbrev pub bearer : Text
bearer = b'b' ∷ b'e' ∷ b'a' ∷ b'r' ∷ b'e' ∷ b'r' ∷ []

module _ (sha256 : Text → Text) where
  abbrev pub user_of : List User → Option Credentials → Result User
  user_of users none = err Error.no_credentials
  user_of users (some c) =
      if not (text_beq (lower c.scheme) bearer)
      then err Error.no_credentials
      else (elim (first_where (λ (u : User). text_beq (sha256 (strip c.token)) u.token_hash)
          users) [ none ↦ err Error.invalid_token | some user ↦ ok user ])

  -- `current_user`: the rate limiter is asked before the credentials are read.
  unfoldable pub current_user : Request → Action Api User
  current_user request api =
      let (passed, limiter) = check (host_key request.client_host) request.at api.limiter in
      then_do (passed, record api { limiter = limiter })
        λ _ s. (user_of s.database.users request.credentials, s)

  -- `require_admin`
  abbrev pub require_admin : Role → Result (Unit {0})
  require_admin Role.admin = ok tt
  require_admin Role.viewer = err Error.not_admin

  -- An operation on the tables.
  abbrev pub on_database : {A : Type 0} → (A → Body) → Action Database A → Action Api Body
  on_database body m api =
      let (r, db) = m api.database in
      then_do (r, record api { database = db }) λ a s. (ok (body a), s)

  abbrev pub as_user : Request → (User → Action Api Body) → Action Api Body
  as_user request m api = then_do (current_user request api) m

  abbrev pub as_admin : Request → (User → Action Api Body) → Action Api Body
  as_admin request m = as_user request λ user s. then_do (require_admin user.role, s) λ _. m user

  -- The routes.
  unfoldable pub route : Endpoint → Request → Action Api Body
  route Endpoint.health request = λ s. (ok Body.nothing, s)
  route Endpoint.metrics request = as_user request λ _ s. (ok (Body.numbers s.requests s.errors), s)
  route Endpoint.api_status request = as_user request λ _ s. (ok Body.nothing, s)
  route Endpoint.list_bots request = as_user request λ _ s. (ok (Body.bots s.database.bots), s)
  route Endpoint.list_proposals request =
      as_user request λ _ s. (ok (Body.proposals s.database.order_proposals), s)
  route Endpoint.audit_logs request =
      as_user request λ _ s. (ok (Body.logs s.database.audit_logs), s)
  route Endpoint.broker_orders request =
      as_user request λ _ s. (ok (Body.orders s.database.broker_orders), s)
  route Endpoint.broker_positions request =
      as_user request λ _ s. (ok (Body.positions s.database.broker_positions), s)
  route Endpoint.broker_sync_runs request =
      as_user request λ _ s. (ok (Body.runs s.database.broker_sync_runs), s)
  route (Endpoint.post_bot payload) request =
      as_admin request λ user. on_database Body.bot (create_bot payload user request.draw)
  route (Endpoint.post_proposal payload) request =
      as_admin request λ user. on_database Body.proposal (propose payload user request.draw)
  route (Endpoint.post_decision id decision) request =
      as_admin request λ user. on_database Body.proposal (decide id decision user request.draw)

  abbrev pub count_error : Result Body × Api → Result Body × Api
  count_error (ok body, s) = (ok body, s)
  count_error (err e, s) = (err e, record s { errors = suc s.errors })

  -- `observe` around a route: every exception ends in a response with an error status, or goes on.
  unfoldable pub observe : Request → Action Api Body
  observe request api =
      count_error (route request.endpoint request (record api { requests = suc api.requests }))
