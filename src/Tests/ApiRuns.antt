-- ===== src/Tests/ApiRuns.antt =====
-- A small database, requests to it, and the theorems of the server at them.
use broker_ai.Base.{◌≡◌, refl, arith, none, some, List, [], ◌∷◌, ◌++◌, Text}
use broker_ai.Base.Result.{Error, ok, err}
use broker_ai.Decimal.{
  cents, mul, round, round_ratio, ulp, ulp_from, half_even, coefficient_bound, unit,
}
use broker_ai.Domain.Text.{strip, lstrip, rstrip, lower, upper}
use broker_ai.Domain.Order.{OrderSide}
use broker_ai.Server.Schemas.{ApprovalMode, BotStatus, Decision, ProposalCreate}
use broker_ai.Server.RateLimiter.{new_rate_limiter, check, expire}
use broker_ai.Server.Database.{
  Database, User, Bot, Role, Proposal, ProposalStatus, AuditEvent, local_admin, seed_admin,
  insert_user, set_token_hash, find_proposal, insert_proposal, audit, review_proposal,
}
use broker_ai.Server.Api.Proposals.{
  Draw, decide, write_decision, reviewable, propose, proposal_status,
}
use broker_ai.Server.Api.Access.{
  Api, Request, Endpoint, bearer, user_of, observe, route, current_user,
}
use broker_ai.Server.Api.Lifecycle.{Moves}
use broker_ai.Server.Api.Routes.{Allowed, observe-Allowed, observe-Moves}
use broker_ai.Server.Api.Replay.{IsTold, observe-IsTold}
use broker_ai.Server.Api.Limits.{IsLimited, observe-IsLimited}
use broker_ai.Server.Api.Decisions.{reviewed, after_decision, decide-decides, write_decision-race}
use broker_ai.Server.Api.Approval.{IsApproval, serve, serve-IsApproval}
use broker_ai.Server.Api.Seeding.{seed_admin-accepted}

-- A stand-in for the digest of a text.
abbrev digest : Text → Text
digest t = t

abbrev secret : Text
secret = b's' ∷ b'e' ∷ b'c' ∷ b'r' ∷ b'e' ∷ b't' ∷ []

abbrev root : User
root = record {
  id = 1;
  username = local_admin;
  token_hash = secret;
  role = Role.admin;
  created_at = 0;
}

-- A bot that approves orders up to 100.00 by itself.
abbrev small_bot : Bot
small_bot = record {
  id = 2;
  name = b'b' ∷ b'o' ∷ b't' ∷ [];
  specialization = b'e' ∷ b't' ∷ b'f' ∷ [];
  approval_mode = ApprovalMode.automatic_limited;
  status = BotStatus.active;
  max_auto_order_value = cents 10000;
  created_at = 0;
}

-- A proposal that waits, of 3 at 50.00.
abbrev waiting : Proposal
waiting = record {
  id = 3;
  bot_id = 2;
  symbol = b'A' ∷ [];
  side = OrderSide.buy;
  quantity = cents 300;
  price = cents 5000;
  rationale = b'v' ∷ b'a' ∷ b'l' ∷ b'u' ∷ b'e' ∷ [];
  status = ProposalStatus.pending_approval;
  created_at = 5;
  reviewed_at = none;
}

abbrev tables : Database
tables = record {
  users = root ∷ [];
  bots = small_bot ∷ [];
  order_proposals = waiting ∷ [];
  audit_logs =
      record {
        id = 4;
        event_type = AuditEvent.proposal_created ProposalStatus.pending_approval (cents 15000) 2;
        actor_id = some 1;
        entity_id = 3;
        created_at = 5;
      }
      ∷ [];
  broker_orders = [];
  broker_positions = [];
  broker_sync_runs = [];
}

abbrev server : Api
server = record { database = tables; limiter = new_rate_limiter 60 60; requests = 0; errors = 0 }

abbrev draw : Draw
draw = record { id = 10; now = 20; audit_id = 11; audited_at = 21 }

-- One at 50.00, from the same bot.
abbrev payload : ProposalCreate
payload = record {
  bot_id = 2;
  symbol = b'a' ∷ [];
  side = OrderSide.buy;
  quantity = cents 100;
  price = cents 5000;
  rationale = b'c' ∷ b'h' ∷ b'e' ∷ b'a' ∷ b'p' ∷ [];
}

abbrev post : Endpoint → Request
post endpoint = record {
  endpoint = endpoint;
  client_host = some (b'h' ∷ []);
  credentials = some (record { scheme = bearer; token = secret });
  at = 100;
  draw = draw;
}

abbrev proposal_posted : Request
proposal_posted = post (Endpoint.post_proposal payload)

abbrev approval_posted : Request
approval_posted = post (Endpoint.post_decision 3 Decision.approve)

-- The proposal is approved within the limit of its bot.
posted_automatically :
    (propose payload root draw tables).0
    ≡ ok (
        some (record waiting {
          id = 10;
          quantity = cents 100;
          rationale = payload.rationale;
          status = ProposalStatus.auto_approved;
          created_at = 20;
        }))
unfolding propose proposal_status insert_proposal audit mul round round_ratio ulp ulp_from half_even
    coefficient_bound unit upper
posted_automatically = refl

observe-Allowed_example :
    Allowed digest proposal_posted tables (observe digest proposal_posted server).1.database
observe-Allowed_example = observe-Allowed digest proposal_posted server

observe-Moves_example : Moves tables (observe digest approval_posted server).1.database
observe-Moves_example = observe-Moves digest approval_posted server

observe-IsTold_example : IsTold (observe digest proposal_posted server).1.database
observe-IsTold_example = observe-IsTold digest proposal_posted server refl told
  where
    told : IsTold tables
    told id = ground arith

observe-IsLimited_example : IsLimited (observe digest proposal_posted server).1.database
observe-IsLimited_example = observe-IsLimited digest proposal_posted server ((λ h. cc), tt)

serve-IsApproval_example :
    (before : List Request) × (after : List Request) × (r : Request) × ((proposal_posted
        ∷ approval_posted ∷ [])
      ≡ before ++ (r ∷ after))
    × IsApproval digest 3 r (serve digest before server)
unfolding observe route current_user check expire strip lstrip rstrip lower propose decide
    write_decision review_proposal insert_proposal audit upper proposal_status mul round round_ratio
    ulp ulp_from half_even coefficient_bound unit new_rate_limiter
serve-IsApproval_example =
    serve-IsApproval digest 3 (proposal_posted ∷ approval_posted ∷ []) server refl (λ h. cc)

decide-decides_example :
    (decide 3 Decision.approve root draw tables ≡ (
      ok (some (reviewed Decision.approve 20 waiting)),
      after_decision 3 Decision.approve root draw tables,
    ))
    × ((e : Decision) (other : User) (late : Draw)
        → decide 3 e other late (after_decision 3 Decision.approve root draw tables)
          ≡ (err Error.already_decided, after_decision 3 Decision.approve root draw tables))
decide-decides_example = decide-decides 3 Decision.approve root draw tables waiting refl refl refl

abbrev late_draw : Draw
late_draw = record { id = 12; now = 22; audit_id = 13; audited_at = 23 }

write_decision-race_example :
    (reviewable (find_proposal 3 tables) ≡ ok tt)
    × (write_decision 3 Decision.approve root draw tables ≡ (
      ok (some (reviewed Decision.approve 20 waiting)),
      after_decision 3 Decision.approve root draw tables,
    ))
    × (write_decision 3 Decision.reject root late_draw
          (after_decision 3 Decision.approve root draw tables)
        ≡ (
          ok (some (reviewed Decision.reject 22 waiting)),
          after_decision 3 Decision.reject root late_draw
              (after_decision 3 Decision.approve root draw tables),
        ))
write_decision-race_example =
    write_decision-race 3 Decision.approve Decision.reject root root draw late_draw tables waiting
      refl refl refl refl

seed_admin-accepted_example :
    user_of digest (root ∷ []) (some (record { scheme = bearer; token = secret })) ≡ ok root
unfolding seed_admin insert_user set_token_hash strip lstrip rstrip lower
seed_admin-accepted_example =
    seed_admin-accepted digest secret bearer 1 0 (record tables { users = [] })
      (record tables { users = root ∷ [] }) root refl refl refl refl

-- The token with a space before it: the admin's hash is that of the text with the space, and no
-- request with it is accepted.
spaced_token_refused :
    user_of digest
      (seed_admin digest (b' ' ∷ secret) 1 0 (record tables { users = [] })).1.users
      (some (record { scheme = bearer; token = b' ' ∷ secret }))
    ≡ err Error.invalid_token
unfolding seed_admin insert_user set_token_hash strip lstrip rstrip lower
spaced_token_refused = refl
