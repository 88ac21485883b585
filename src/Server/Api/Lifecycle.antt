-- ===== src/Server/Api/Lifecycle.antt =====
-- The life of a proposal, as a diagram that every request follows.
use broker_ai.Base.{
  ℕ, ◌≡◌, ◌≢◌, inl, inr, refl, sym, subst, arith, Bool, false, ◌==◌, ==_iff, if◌then◌else◌, Option,
  none, some, List, [], ◌∷◌, ◌++◌, any_of, Bool-cases, ◌||◌, not, text_beq,
}
use broker_ai.Base.Result.{Result, ok, err, then_do-keeps}
use broker_ai.Decimal.{Amount}
use broker_ai.Server.Schemas.{ProposalCreate, BotCreate, Decision}
use broker_ai.Server.Database.{
  Database, User, Bot, Proposal, ProposalStatus, AuditLog, find_bot, first_where, update_where,
  find_proposal, insert_proposal, insert_bot, review_proposal, audit,
}
use broker_ai.Server.Api.Proposals.{
  Draw, create_bot, propose, propose_for, proposal_of, proposal_status, decide, decide_if, decided,
  reviewable, write_decision, worth, bot_of,
}

abbrev pub status_in : Option Proposal → Option ProposalStatus
status_in none = none
status_in (some p) = some p.status

-- The status of a proposal, if there is one under this ID.
abbrev pub status_of : ℕ → Database → Option ProposalStatus
status_of id db = status_in (find_proposal id db)

-- The diagram: a proposal is born rejected, approved by the rules of its bot, or waiting, and only a
-- waiting one is decided, once.
pub data Step : Option ProposalStatus → Option ProposalStatus → Type 0 where
  stay : {s : Option ProposalStatus} → Step s s
  create : (s : ProposalStatus) → s ≢ ProposalStatus.approved → Step none (some s)
  review : (d : Decision) → Step (some ProposalStatus.pending_approval) (some (decided d))

abbrev pub Moves : Database → Database → Type 0
Moves before after = (id : ℕ) → Step (status_of id before) (status_of id after)

pub first_where-append :
    {A : Type 0} (p : A → Bool) (xs : List A) (x : A)
    → any_of p xs ≡ false
    → first_where p (xs ++ (x ∷ [])) ≡ (if p x then some x else none)
first_where-append p [] x h = refl
first_where-append p (y ∷ xs) x h = ground (arith, first_where-append p xs x)

-- A new row is found under its own ID, and hides nothing.
pub find_appended :
    (id : ℕ) (ps : List Proposal) (p : Proposal)
    → any_of (λ (q : Proposal). q.id == p.id) ps ≡ false
    → status_in (first_where (λ (q : Proposal). q.id == id) (ps ++ (p ∷ []))) ≡ (
        if p.id == id
        then some p.status
        else status_in (first_where (λ (q : Proposal). q.id == id) ps))
find_appended id [] p h = ground arith
find_appended id (q ∷ ps) p h =
    ground (arith, find_appended id ps p, ==_iff q.id id, ==_iff p.id id, ==_iff q.id p.id)

pub find_fresh :
    (id : ℕ) (ps : List Proposal)
    → any_of (λ (q : Proposal). q.id == id) ps ≡ false
    → status_in (first_where (λ (q : Proposal). q.id == id) ps) ≡ none
find_fresh id [] h = refl
find_fresh id (q ∷ ps) h = ground (arith, find_fresh id ps)

abbrev pub if_found : Option ProposalStatus → ProposalStatus → Option ProposalStatus
if_found none s = none
if_found (some _) s = some s

-- The update changes the status of its own row alone.
pub find_updated :
    (id at : ℕ) (s : ProposalStatus) (reviewed_at : Option ℕ) (ps : List Proposal)
    → status_in (
        first_where
          (λ (q : Proposal). q.id == id)
          (update_where
            (λ (q : Proposal). q.id == at)
            (λ (q : Proposal). record q { status = s; reviewed_at = reviewed_at })
            ps))
      ≡ (let old = status_in (first_where (λ (q : Proposal). q.id == id) ps) in
          if at == id then if_found old s else old)
find_updated id at s r [] = ground arith
find_updated id at s r (q ∷ ps) =
    ground (arith, find_updated id at s r ps, ==_iff q.id id, ==_iff at id, ==_iff q.id at)

-- The audit does not touch the proposals.
pub audit-proposals :
    (entry : AuditLog) (db : Database) → (audit entry db).1.order_proposals ≡ db.order_proposals
unfolding audit
audit-proposals entry db = ground arith

insert_proposal-Moves :
    (p : Proposal) (db : Database)
    → p.status ≢ ProposalStatus.approved
    → Moves db (insert_proposal p db).1
unfolding insert_proposal
insert_proposal-Moves p db h id =
    elim (Bool-cases (
      any_of (λ (q : Proposal). q.id == p.id) db.order_proposals
      || not (any_of (λ (b : Bot). b.id == p.bot_id) db.bots))) [
        | inl broken ↦ rw broken stay
        | inr free ↦ rw free (appended (ground (arith, free)))
      ]
  where
    appended :
        any_of (λ (q : Proposal). q.id == p.id) db.order_proposals ≡ false
        → Step (status_of id db) (
            status_in (first_where (λ (q : Proposal). q.id == id) (db.order_proposals ++ (p ∷ []))))
    appended fresh = elim (Bool-cases (p.id == id)) [
      | inl same ↦
          let e = (==_iff p.id id).0 same in
          let absent =
            subst
              (λ k. status_in (first_where (λ (q : Proposal). q.id == k) db.order_proposals) ≡ none)
              e (find_fresh p.id db.order_proposals fresh) in
          rw (find_appended id db.order_proposals p fresh, same, absent) (create p.status h)
      | inr other ↦ rw (find_appended id db.order_proposals p fresh, other) stay
    ]

audit-Moves :
    (before : Database) (entry : AuditLog) (db : Database)
    → Moves before db
    → Moves before (audit entry db).1
audit-Moves before entry db m id =
    subst
      (λ ps. Step (status_of id before) (status_in (first_where (λ (q : Proposal). q.id == id) ps)))
      (sym (audit-proposals entry db)) (m id)

pub proposal_status_new : (bot : Bot) (w : Amount) → proposal_status bot w ≢ ProposalStatus.approved
unfolding proposal_status
proposal_status_new bot w = ground arith

pub propose-Moves :
    (payload : ProposalCreate) (user : User) (draw : Draw) (db : Database)
    → Moves db (propose payload user draw db).1
unfolding propose
propose-Moves payload user draw db = go (find_bot payload.bot_id db)
  where
    go : (bot : Option Bot) → Moves db (propose_for bot payload user draw db).1
    go none = λ id. stay
    go (some bot) =
        let row = proposal_of payload (proposal_status bot (worth payload)) draw in
        then_do-keeps (Moves db) (insert_proposal row db) _
          (insert_proposal-Moves row db (proposal_status_new bot (worth payload)))
          (λ _ s m. then_do-keeps (Moves db) (audit _ s) _ (audit-Moves db _ s m) (λ _ t k. k))

insert_bot-Moves : (bot : Bot) (db : Database) → Moves db (insert_bot bot db).1
unfolding insert_bot
insert_bot-Moves bot db id =
    elim (Bool-cases (any_of (λ (b : Bot). b.id == bot.id || text_beq b.name bot.name) db.bots)) [
      | inl taken ↦ rw taken stay
      | inr free ↦ rw free stay
    ]

pub create_bot-Moves :
    (payload : BotCreate) (user : User) (draw : Draw) (db : Database)
    → Moves db (create_bot payload user draw db).1
unfolding create_bot
create_bot-Moves payload user draw db =
    then_do-keeps (Moves db) (insert_bot (bot_of payload draw) db) _
      (insert_bot-Moves (bot_of payload draw) db)
      (λ _ s m. then_do-keeps (Moves db) (audit _ s) _ (audit-Moves db _ s m) (λ _ t k. k))

review_proposal-Moves :
    (at : ℕ) (d : Decision) (reviewed_at : ℕ) (db : Database)
    → status_of at db ≡ some ProposalStatus.pending_approval
    → Moves db (review_proposal at (decided d) reviewed_at db)
unfolding review_proposal
review_proposal-Moves at d reviewed_at db pending id = elim (Bool-cases (at == id)) [
  | inl same ↦
      let e = (==_iff at id).0 same in
      let pending_here =
        subst (λ k. status_of k db ≡ some ProposalStatus.pending_approval) e pending in
      rw (find_updated id at (decided d) (some reviewed_at) db.order_proposals, same, pending_here)
        (review d)
  | inr other ↦
      rw (find_updated id at (decided d) (some reviewed_at) db.order_proposals, other) stay
]

reviewable_pending :
    (p : Option Proposal)
    → reviewable p ≡ ok tt
    → status_in p ≡ some ProposalStatus.pending_approval
reviewable_pending none h = cc
reviewable_pending (some p) h = ground arith

pub decide-Moves :
    (at : ℕ) (d : Decision) (user : User) (draw : Draw) (db : Database)
    → Moves db (decide at d user draw db).1
unfolding decide write_decision
decide-Moves at d user draw db = go (reviewable (find_proposal at db)) refl
  where
    go :
        (r : Result (Unit {0}))
        → reviewable (find_proposal at db) ≡ r
        → Moves db (decide_if r at d user draw db).1
    go (err e) h = λ id. stay
    go (ok u) h =
        then_do-keeps (Moves db) (audit _ _) _
          (audit-Moves db _ _
            (review_proposal-Moves at d draw.now db (reviewable_pending (find_proposal at db) h)))
          (λ _ t k. k)
