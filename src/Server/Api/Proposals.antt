-- ===== src/Server/Api/Proposals.antt =====
-- `create_bot`, `propose` and `decide`. What `uuid4` and the clock return is given to a call.
use broker_ai.Base.{ℕ, Bool, true, false, not, ◌&&◌, ◌||◌, if◌then◌else◌, Option, none, some}
use broker_ai.Base.Int.{leb_ℤ}
use broker_ai.Base.Result.{Result, Error, ok, err, Action, then_do}
use broker_ai.Decimal.{Amount, mul}
use broker_ai.Domain.Text.{upper}
use broker_ai.Server.Schemas.{ApprovalMode, BotStatus, BotCreate, ProposalCreate, Decision}
use broker_ai.Server.Database.{
  Database, User, Bot, Proposal, ProposalStatus, AuditEvent, AuditLog, find_bot, find_proposal,
  insert_bot, insert_proposal, review_proposal, audit,
}

-- The ID of the new row, the ID of the audit row, and the times of the two.
pub record Draw : Type 0 where
  pub id : ℕ
  pub now : ℕ
  pub audit_id : ℕ
  pub audited_at : ℕ

abbrev pub entry_of : Draw → AuditEvent → ℕ → ℕ → AuditLog
entry_of draw event actor entity = record {
  id = draw.audit_id;
  event_type = event;
  actor_id = some actor;
  entity_id = entity;
  created_at = draw.audited_at;
}

abbrev pub bot_of : BotCreate → Draw → Bot
bot_of payload draw = record {
  id = draw.id;
  name = payload.name;
  specialization = payload.specialization;
  approval_mode = payload.approval_mode;
  status = BotStatus.active;
  max_auto_order_value = payload.max_auto_order_value;
  created_at = draw.now;
}

unfoldable pub create_bot : BotCreate → User → Draw → Action Database (Option Bot)
create_bot payload user draw db = then_do (insert_bot (bot_of payload draw) db) λ _ db.
    then_do (audit (entry_of draw (AuditEvent.bot_created payload) user.id draw.id) db)
      λ _ db. (ok (find_bot draw.id db), db)

abbrev pub is_active : BotStatus → Bool
is_active BotStatus.active = true
is_active BotStatus.paused = false

abbrev pub is_disabled : ApprovalMode → Bool
is_disabled ApprovalMode.disabled = true
is_disabled _ = false

abbrev pub is_automatic : ApprovalMode → Bool
is_automatic ApprovalMode.automatic_limited = true
is_automatic _ = false

-- The status of a new proposal.
unfoldable pub proposal_status : Bot → Amount → ProposalStatus
proposal_status bot worth =
    if not (is_active bot.status) || is_disabled bot.approval_mode
    then ProposalStatus.rejected
    else if is_automatic bot.approval_mode && leb_ℤ worth bot.max_auto_order_value
    then ProposalStatus.auto_approved
    else ProposalStatus.pending_approval

abbrev pub proposal_of : ProposalCreate → ProposalStatus → Draw → Proposal
proposal_of payload status draw = record {
  id = draw.id;
  bot_id = payload.bot_id;
  symbol = upper payload.symbol;
  side = payload.side;
  quantity = payload.quantity;
  price = payload.price;
  rationale = payload.rationale;
  status = status;
  created_at = draw.now;
  reviewed_at = none;
}

abbrev pub worth : ProposalCreate → Amount
worth payload = mul payload.quantity payload.price

-- The rest of `propose`, with the status of the proposal.
abbrev pub propose_as :
    ProposalCreate → ProposalStatus → User → Draw → Action Database (Option Proposal)
propose_as payload status user draw db =
    then_do (insert_proposal (proposal_of payload status draw) db) λ _ db.
      then_do
        (audit
          (entry_of draw (AuditEvent.proposal_created status (worth payload) payload.bot_id) user.id
            draw.id)
          db)
        λ _ db. (ok (find_proposal draw.id db), db)

abbrev pub propose_for :
    Option Bot → ProposalCreate → User → Draw → Action Database (Option Proposal)
propose_for none payload user draw db = (err Error.not_found, db)
propose_for (some bot) payload user draw db =
    propose_as payload (proposal_status bot (worth payload)) user draw db

unfoldable pub propose : ProposalCreate → User → Draw → Action Database (Option Proposal)
propose payload user draw db = propose_for (find_bot payload.bot_id db) payload user draw db

abbrev pub is_pending : ProposalStatus → Bool
is_pending ProposalStatus.pending_approval = true
is_pending _ = false

abbrev pub decided : Decision → ProposalStatus
decided Decision.approve = ProposalStatus.approved
decided Decision.reject = ProposalStatus.rejected

abbrev pub decision_event : Decision → AuditEvent
decision_event Decision.approve = AuditEvent.proposal_approved
decision_event Decision.reject = AuditEvent.proposal_rejected

-- The reading half of `decide`: the proposal is there, and waits.
abbrev pub reviewable : Option Proposal → Result (Unit {0})
reviewable none = err Error.not_found
reviewable (some proposal) =
    if not (is_pending proposal.status) then err Error.already_decided else ok tt

-- The writing half: the update, the audit and the row that is returned.
unfoldable pub write_decision : ℕ → Decision → User → Draw → Action Database (Option Proposal)
write_decision id decision user draw db =
    then_do
      (audit (entry_of draw (decision_event decision) user.id id)
        (review_proposal id (decided decision) draw.now db))
      λ _ db. (ok (find_proposal id db), db)

abbrev pub decide_if :
    Result (Unit {0}) → ℕ → Decision → User → Draw → Action Database (Option Proposal)
decide_if (err e) id decision user draw db = (err e, db)
decide_if (ok _) id decision user draw db = write_decision id decision user draw db

-- `decide`, when no other request runs meanwhile
unfoldable pub decide : ℕ → Decision → User → Draw → Action Database (Option Proposal)
decide id decision user draw db =
    decide_if (reviewable (find_proposal id db)) id decision user draw db
