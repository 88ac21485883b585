-- ===== src/Server/Database.antt =====
-- src/broker_ai/server/database.py: the tables that the code writes, and its statements on them. A
-- row is a record, a table the list of its rows in the order of insertion, a UUID and a text of
-- ISO time are numbers. An INSERT that breaks a key or a reference raises; each statement of
-- `execute` is committed by itself.
use broker_ai.Base.{
  ℕ, Bool, not, ◌||◌, ◌==◌, if◌then◌else◌, Option, none, some, List, [], ◌∷◌, ◌++◌, any_of, Text,
  text_beq,
}
use broker_ai.Base.Result.{Error, ok, err, Action, then_do}
use broker_ai.Decimal.{Amount}
use broker_ai.Domain.Order.{OrderSide}
use broker_ai.Server.Schemas.{ApprovalMode, BotStatus, BotCreate}

pub data Role : Type 0 where
  admin viewer : Role

pub record User : Type 0 where
  pub id : ℕ
  pub username : Text
  pub token_hash : Text
  pub role : Role
  pub created_at : ℕ

pub record Bot : Type 0 where
  pub id : ℕ
  pub name : Text
  pub specialization : Text
  pub approval_mode : ApprovalMode
  pub status : BotStatus
  pub max_auto_order_value : Amount
  pub created_at : ℕ

pub data ProposalStatus : Type 0 where
  pending_approval auto_approved approved rejected : ProposalStatus

pub record Proposal : Type 0 where
  pub id : ℕ
  pub bot_id : ℕ
  pub symbol : Text
  pub side : OrderSide
  pub quantity : Amount
  pub price : Amount
  pub rationale : Text
  pub status : ProposalStatus
  pub created_at : ℕ
  pub reviewed_at : Option ℕ

-- The event types, with what their details hold.
pub data AuditEvent : Type 0 where
  bot_created : BotCreate → AuditEvent
  proposal_created : ProposalStatus → Amount → ℕ → AuditEvent
  proposal_approved proposal_rejected : AuditEvent
  broker_sync_completed : ℕ → ℕ → AuditEvent

pub record AuditLog : Type 0 where
  pub id : ℕ
  pub event_type : AuditEvent
  pub actor_id : Option ℕ
  pub entity_id : ℕ
  pub created_at : ℕ

pub record BrokerOrderRow : Type 0 where
  pub broker_order_id : ℕ
  pub broker : Text
  pub environment : Text
  pub client_order_id : Option Text
  pub symbol : Text
  pub side : Text
  pub order_type : Text
  pub quantity : Amount
  pub filled_quantity : Amount
  pub limit_price : Option Amount
  pub average_fill_price : Option Amount
  pub status : Text
  pub submitted_at : ℕ
  pub updated_at : ℕ
  pub synced_at : ℕ

pub record BrokerPositionRow : Type 0 where
  pub broker : Text
  pub environment : Text
  pub symbol : Text
  pub quantity : ℕ
  pub average_price : Amount
  pub synced_at : ℕ

pub record SyncRun : Type 0 where
  pub id : ℕ
  pub broker : Text
  pub environment : Text
  pub orders_seen : ℕ
  pub positions_seen : ℕ
  pub started_at : ℕ
  pub completed_at : ℕ
  pub status : Text

pub record Database : Type 0 where
  pub users : List User
  pub bots : List Bot
  pub order_proposals : List Proposal
  pub audit_logs : List AuditLog
  pub broker_orders : List BrokerOrderRow
  pub broker_positions : List BrokerPositionRow
  pub broker_sync_runs : List SyncRun

-- `fetchone` with a condition that picks one row at most
module _ {A : Type 0} where
  abbrev pub first_where : (A → Bool) → List A → Option A
  first_where p [] = none
  first_where p (x ∷ xs) = if p x then some x else first_where p xs

  -- `UPDATE ... WHERE`
  abbrev pub update_where : (A → Bool) → (A → A) → List A → List A
  update_where p f [] = []
  update_where p f (x ∷ xs) = (if p x then f x else x) ∷ update_where p f xs

abbrev pub find_user : ℕ → Database → Option User
find_user id db = first_where (λ (u : User). u.id == id) db.users

abbrev pub find_bot : ℕ → Database → Option Bot
find_bot id db = first_where (λ (b : Bot). b.id == id) db.bots

abbrev pub find_proposal : ℕ → Database → Option Proposal
find_proposal id db = first_where (λ (p : Proposal). p.id == id) db.order_proposals

-- `INSERT INTO bots`: the ID is the key, the name is unique.
unfoldable pub insert_bot : Bot → Action Database (Unit {0})
insert_bot bot db =
    if any_of (λ (b : Bot). b.id == bot.id || text_beq b.name bot.name) db.bots
    then (err Error.name_taken, db)
    else (ok tt, record db { bots = db.bots ++ (bot ∷ []) })

-- `INSERT INTO order_proposals`: the ID is the key, and the bot has to exist.
unfoldable pub insert_proposal : Proposal → Action Database (Unit {0})
insert_proposal proposal db =
    if any_of (λ (p : Proposal). p.id == proposal.id) db.order_proposals
      || not (any_of (λ (b : Bot). b.id == proposal.bot_id) db.bots)
    then (err Error.integrity_failed, db)
    else (ok tt, record db { order_proposals = db.order_proposals ++ (proposal ∷ []) })

-- `UPDATE order_proposals SET status = ?, reviewed_at = ? WHERE id = ?`
unfoldable pub review_proposal : ℕ → ProposalStatus → ℕ → Database → Database
review_proposal id status reviewed_at db = record db {
  order_proposals =
      update_where (λ (p : Proposal). p.id == id)
        (λ (p : Proposal). record p { status = status; reviewed_at = some reviewed_at })
        db.order_proposals;
}

-- `Database.audit`
unfoldable pub audit : AuditLog → Action Database (Unit {0})
audit entry db =
    if any_of (λ (a : AuditLog). a.id == entry.id) db.audit_logs
    then (err Error.integrity_failed, db)
    else (ok tt, record db { audit_logs = db.audit_logs ++ (entry ∷ []) })

-- `INSERT INTO users`: the ID is the key, the username is unique.
unfoldable pub insert_user : User → Action Database (Unit {0})
insert_user user db =
    if any_of (λ (u : User). u.id == user.id || text_beq u.username user.username) db.users
    then (err Error.integrity_failed, db)
    else (ok tt, record db { users = db.users ++ (user ∷ []) })

-- `UPDATE users SET token_hash = ? WHERE id = ?`
unfoldable pub set_token_hash : ℕ → Text → Database → Database
set_token_hash id hash db = record db {
  users =
      update_where (λ (u : User). u.id == id) (λ (u : User). record u { token_hash = hash })
        db.users;
}

-- "local-admin"
abbrev pub local_admin : Text
local_admin = b'l' ∷ b'o' ∷ b'c' ∷ b'a' ∷ b'l' ∷ b'-' ∷ b'a' ∷ b'd' ∷ b'm' ∷ b'i' ∷ b'n' ∷ []

abbrev pub seeded : Option User → User → Action Database (Option User)
seeded (some existing) user db =
    let changed = set_token_hash existing.id user.token_hash db in
    (ok (find_user existing.id changed), changed)
seeded none user db = then_do (insert_user user db) λ _ db'. (ok (find_user user.id db'), db')

-- `Database.seed_admin`
unfoldable pub seed_admin : (Text → Text) → Text → ℕ → ℕ → Action Database (Option User)
unfolding insert_user set_token_hash
seed_admin sha256 token user_id now db =
    seeded (first_where (λ (u : User). text_beq u.username local_admin) db.users)
      (record {
        id = user_id;
        username = local_admin;
        token_hash = sha256 token;
        role = Role.admin;
        created_at = now;
      })
      db
