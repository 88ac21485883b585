-- ===== src/Server/Api/Approval.antt =====
-- Where an approval comes from, among the requests that the server has had.
use broker_ai.Base.{
  ℕ, ◌≡◌, ◌≢◌, ◌⊎◌, inl, inr, refl, sym, ap, ◌∙◌, subst, arith, false, ◌==◌, ==_iff, Option, none,
  some, List, [], ◌∷◌, ◌++◌, any_of, Bool-cases, ◌||◌, not, text_beq, Text,
}
use broker_ai.Base.Result.{Result, ok, err, then_do-keeps}
use broker_ai.Server.Schemas.{ProposalCreate, BotCreate, Decision}
use broker_ai.Server.Database.{
  Database, User, Role, Bot, Proposal, ProposalStatus, AuditLog, find_bot, find_proposal,
  first_where, insert_proposal, insert_bot, review_proposal, audit,
}
use broker_ai.Server.Api.Proposals.{
  Draw, create_bot, propose, propose_for, proposal_of, proposal_status, decide, decide_if, decided,
  reviewable, write_decision, worth, bot_of,
}
use broker_ai.Server.Api.Access.{Api, Request, Endpoint, user_of, observe}
use broker_ai.Server.Api.Routes.{effect, observe-Allowed}
use broker_ai.Server.Api.Lifecycle.{
  status_of, status_in, find_appended, find_updated, if_found, audit-proposals, proposal_status_new,
}

-- A proposal of this ID is approved.
abbrev pub IsApproved : ℕ → Database → Type 0
IsApproved id db = status_of id db ≡ some ProposalStatus.approved

-- A change that approves nothing under this ID.
abbrev Spares : ℕ → Database → Database → Type 0
Spares id before after = IsApproved id after → IsApproved id before

audit-Spares :
    (id : ℕ) (before : Database) (entry : AuditLog) (db : Database)
    → Spares id before db
    → Spares id before (audit entry db).1
audit-Spares id before entry db h =
    subst
      (λ ps.
        status_in (first_where (λ (q : Proposal). q.id == id) ps) ≡ some ProposalStatus.approved
        → IsApproved id before)
      (sym (audit-proposals entry db)) h

same_status : (s t : ProposalStatus) → some s ≡ some t → s ≡ t
same_status s t e = cc

insert_proposal-Spares :
    (id : ℕ) (p : Proposal) (db : Database)
    → p.status ≢ ProposalStatus.approved
    → Spares id db (insert_proposal p db).1
unfolding insert_proposal
insert_proposal-Spares id p db h =
    elim (Bool-cases (
      any_of (λ (q : Proposal). q.id == p.id) db.order_proposals
      || not (any_of (λ (b : Bot). b.id == p.bot_id) db.bots))) [
        | inl broken ↦ rw broken (λ a. a)
        | inr free ↦ rw free (appended (ground (arith, free)))
      ]
  where
    appended :
        any_of (λ (q : Proposal). q.id == p.id) db.order_proposals ≡ false
        → status_in (first_where (λ (q : Proposal). q.id == id) (db.order_proposals ++ (p ∷ [])))
          ≡ some ProposalStatus.approved
        → IsApproved id db
    appended fresh = elim (Bool-cases (p.id == id)) [
      | inl same ↦
          rw (find_appended id db.order_proposals p fresh, same)
            (λ a. absurd (h (same_status p.status ProposalStatus.approved a)))
      | inr other ↦ rw (find_appended id db.order_proposals p fresh, other) (λ a. a)
    ]

propose-Spares :
    (id : ℕ) (payload : ProposalCreate) (user : User) (draw : Draw) (db : Database)
    → Spares id db (propose payload user draw db).1
unfolding propose
propose-Spares id payload user draw db = go (find_bot payload.bot_id db)
  where
    go : (bot : Option Bot) → Spares id db (propose_for bot payload user draw db).1
    go none = λ a. a
    go (some bot) =
        let row = proposal_of payload (proposal_status bot (worth payload)) draw in
        then_do-keeps (Spares id db) (insert_proposal row db) _
          (insert_proposal-Spares id row db (proposal_status_new bot (worth payload)))
          (λ _ s m.
            then_do-keeps (Spares id db) (audit _ s) _ (audit-Spares id db _ s m) (λ _ t k. k))

insert_bot-Spares : (id : ℕ) (bot : Bot) (db : Database) → Spares id db (insert_bot bot db).1
unfolding insert_bot
insert_bot-Spares id bot db =
    elim (Bool-cases (any_of (λ (b : Bot). b.id == bot.id || text_beq b.name bot.name) db.bots)) [
      | inl taken ↦ rw taken (λ a. a)
      | inr free ↦ rw free (λ a. a)
    ]

create_bot-Spares :
    (id : ℕ) (payload : BotCreate) (user : User) (draw : Draw) (db : Database)
    → Spares id db (create_bot payload user draw db).1
unfolding create_bot
create_bot-Spares id payload user draw db =
    then_do-keeps (Spares id db) (insert_bot (bot_of payload draw) db) _
      (insert_bot-Spares id (bot_of payload draw) db)
      (λ _ s m. then_do-keeps (Spares id db) (audit _ s) _ (audit-Spares id db _ s m) (λ _ t k. k))

-- It was approved before, or the endpoint is its approval.
abbrev Approves : ℕ → Endpoint → Database → Database → Type 0
Approves id e before after =
    IsApproved id after → IsApproved id before ⊎ (e ≡ Endpoint.post_decision id Decision.approve)

by_review :
    (old : Option ProposalStatus) (at : ℕ) (d : Decision)
    → if_found old (decided d) ≡ some ProposalStatus.approved
    → Endpoint.post_decision at d ≡ Endpoint.post_decision at Decision.approve
by_review none at d h = cc
by_review (some s) at Decision.approve h = refl
by_review (some s) at Decision.reject h = cc

decide-Approves :
    (id at : ℕ) (d : Decision) (user : User) (draw : Draw) (db : Database)
    → Approves id (Endpoint.post_decision at d) db (decide at d user draw db).1
unfolding decide write_decision review_proposal
decide-Approves id at d user draw db = go (reviewable (find_proposal at db))
  where
    updated :
        Approves id (Endpoint.post_decision at d) db (review_proposal at (decided d) draw.now db)
    updated = elim (Bool-cases (at == id)) [
      | inl same ↦
          rw (find_updated id at (decided d) (some draw.now) db.order_proposals, same)
            (λ a. inr (
              by_review _ at d a
              ∙ ap (λ n. Endpoint.post_decision n Decision.approve) ((==_iff at id).0 same)))
      | inr other ↦
          rw (find_updated id at (decided d) (some draw.now) db.order_proposals, other) (λ a. inl a)
    ]

    audited :
        (entry : AuditLog) (s : Database)
        → Approves id (Endpoint.post_decision at d) db s
        → Approves id (Endpoint.post_decision at d) db (audit entry s).1
    audited entry s h =
        subst
          (λ ps.
            status_in (first_where (λ (q : Proposal). q.id == id) ps) ≡ some ProposalStatus.approved
            → IsApproved id db
              ⊎ (Endpoint.post_decision at d ≡ Endpoint.post_decision id Decision.approve))
          (sym (audit-proposals entry s)) h

    go :
        (r : Result (Unit {0}))
        → Approves id (Endpoint.post_decision at d) db (decide_if r at d user draw db).1
    go (err e) = λ a. inl a
    go (ok u) =
        then_do-keeps (Approves id (Endpoint.post_decision at d) db) (audit _ _) _
          (audited _ _ updated) (λ _ t k. k)

effect-Approves :
    (id : ℕ) (e : Endpoint) (user : User) (draw : Draw) (db : Database)
    → Approves id e db (effect e user draw db)
effect-Approves id (Endpoint.post_bot payload) user draw db =
    λ a. inl (create_bot-Spares id payload user draw db a)
effect-Approves id (Endpoint.post_proposal payload) user draw db =
    λ a. inl (propose-Spares id payload user draw db a)
effect-Approves id (Endpoint.post_decision at d) user draw db = decide-Approves id at d user draw db
effect-Approves id _ user draw db = λ a. inl a

approved_or_not :
    (s : Option ProposalStatus)
    → (s ≡ some ProposalStatus.approved) ⊎ (¬ (s ≡ some ProposalStatus.approved))
approved_or_not none = inr (λ h. cc)
approved_or_not (some ProposalStatus.pending_approval) = inr (λ h. cc)
approved_or_not (some ProposalStatus.auto_approved) = inr (λ h. cc)
approved_or_not (some ProposalStatus.approved) = inl refl
approved_or_not (some ProposalStatus.rejected) = inr (λ h. cc)

module _ (sha256 : Text → Text) where
  -- The server after requests, in the order in which they come.
  abbrev pub serve : List Request → Api → Api
  serve [] api = api
  serve (request ∷ requests) api = serve requests (observe sha256 request api).1

  -- An approval of this ID, requested with the token of an admin.
  pub record IsApproval (id : ℕ) (request : Request) (api : Api) : Type 0 where
    pub asks : request.endpoint ≡ Endpoint.post_decision id Decision.approve
    pub user : User
    pub known : user_of sha256 api.database.users request.credentials ≡ ok user
    pub admin : user.role ≡ Role.admin

  observe-IsApproval :
      (id : ℕ) (request : Request) (api : Api)
      → IsApproved id (observe sha256 request api).1.database
      → IsApproved id api.database ⊎ IsApproval id request api
  observe-IsApproval id request api approved = elim (observe-Allowed sha256 request api) [
    | inl same ↦ inl (subst (IsApproved id) same approved)
    | inr (user, known, admin, made) ↦
        elim (effect-Approves id request.endpoint user request.draw api.database
          (subst (IsApproved id) made approved)) [
            | inl old ↦ inl old
            | inr asks ↦ inr (record { asks = asks; user = user; known = known; admin = admin })
          ]
  ]

  -- If a proposal is approved after some requests and was not before them, then one of the requests
  -- was its approval, made with a token that belonged to an admin at that moment.
  pub serve-IsApproval :
      (id : ℕ) (requests : List Request) (api : Api)
      → IsApproved id (serve requests api).database
      → ¬ IsApproved id api.database
      → (before : List Request) × (after : List Request) × (request : Request) × (requests
          ≡ before ++ (request ∷ after))
        × IsApproval id request (serve before api)
  serve-IsApproval id [] api approved not_before = absurd (not_before approved)
  serve-IsApproval id (request ∷ requests) api approved not_before =
      by_now (approved_or_not (status_of id (observe sha256 request api).1.database))
        (λ h. serve-IsApproval id requests (observe sha256 request api).1 approved h)
    where
      by_now :
          IsApproved id (observe sha256 request api).1.database
            ⊎ (¬ IsApproved id (observe sha256 request api).1.database)
          → (¬ IsApproved id (observe sha256 request api).1.database
              → (before : List Request) × (after : List Request) × (r : Request) × (requests
                  ≡ before ++ (r ∷ after))
                × IsApproval id r (serve before (observe sha256 request api).1))
          → (before : List Request) × (after : List Request) × (r : Request) × ((request ∷ requests)
              ≡ before ++ (r ∷ after))
            × IsApproval id r (serve before api)
      by_now (inl now) later = elim (observe-IsApproval id request api now) [
        | inl old ↦ absurd (not_before old)
        | inr approval ↦ ([], requests, request, refl, approval)
      ]
      by_now (inr not_now) later =
          let (before, after, r, is, approval) = later not_now in
          (request ∷ before, after, r, ap (λ l. request ∷ l) is, approval)
