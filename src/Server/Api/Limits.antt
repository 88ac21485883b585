-- ===== src/Server/Api/Limits.antt =====
-- The orders that a bot may have approved without an admin.
use broker_ai.Base.{
  ℕ, ◌≡◌, inl, inr, refl, sym, subst, arith, Bool, true, false, not, ◌&&◌, ◌||◌, ◌==◌,
  if◌then◌else◌, Option, none, some, List, [], ◌∷◌, ◌++◌, any_of, Bool-cases, text_beq, Text, All,
  All-append,
}
use broker_ai.Base.Int.{leb_ℤ}
use broker_ai.Base.Result.{Result, ok, err, then_do-keeps}
use broker_ai.Decimal.{mul}
use broker_ai.Server.Schemas.{ProposalCreate, BotCreate, Decision}
use broker_ai.Server.Database.{
  Database, User, Bot, Proposal, ProposalStatus, AuditLog, first_where, update_where, find_bot,
  find_proposal, insert_proposal, insert_bot, review_proposal, audit,
}
use broker_ai.Server.Api.Proposals.{
  Draw, create_bot, propose, propose_for, proposal_of, proposal_status, decide, decide_if, decided,
  reviewable, worth, bot_of, write_decision, is_active, is_automatic,
}
use broker_ai.Server.Api.Access.{Api, Request, Endpoint, observe}
use broker_ai.Server.Api.Routes.{effect, observe-Allowed}

abbrev pub is_auto_approved : ProposalStatus → Bool
is_auto_approved ProposalStatus.auto_approved = true
is_auto_approved _ = false

-- The bot allows an order of this worth by itself.
abbrev pub permits : Proposal → Bot → Bool
permits p b =
    b.id == p.bot_id
    && is_active b.status
    && is_automatic b.approval_mode
    && leb_ℤ (mul p.quantity p.price) b.max_auto_order_value

-- A proposal is not approved without an admin, or one of these bots permits it.
abbrev pub IsPermitted : List Bot → Proposal → Type 0
IsPermitted bots p = is_auto_approved p.status ≡ true → any_of (permits p) bots ≡ true

-- Every proposal that was approved without an admin belongs to an active bot that approves by
-- itself, and is worth no more than the limit of that bot.
abbrev pub IsLimited : Database → Type 0
IsLimited db = All (IsPermitted db.bots) db.order_proposals

any_of-append :
    {A : Type 0} (p : A → Bool) (xs ys : List A) → any_of p xs ≡ true → any_of p (xs ++ ys) ≡ true
any_of-append p [] ys h = ground arith
any_of-append p (x ∷ xs) ys h = ground (arith, any_of-append p xs ys)

more_bots :
    (bots more : List Bot) (ps : List Proposal)
    → All (IsPermitted bots) ps
    → All (IsPermitted (bots ++ more)) ps
more_bots bots more [] a = tt
more_bots bots more (p ∷ ps) (h, a) =
    (λ auto. any_of-append (permits p) bots more (h auto), more_bots bots more ps a)

found_holds :
    {A : Type 0} (p : A → Bool) (xs : List A) (x : A) → first_where p xs ≡ some x → p x ≡ true
found_holds p [] x h = cc
found_holds p (y ∷ ys) x h = ground (arith, found_holds p ys x)

found_any :
    {A : Type 0} (p q : A → Bool) (xs : List A) (x : A)
    → first_where p xs ≡ some x
    → q x ≡ true
    → any_of q xs ≡ true
found_any p q [] x h k = cc
found_any p q (y ∷ ys) x h k = ground (arith, found_any p q ys x)

proposal-IsPermitted :
    (payload : ProposalCreate) (draw : Draw) (bots : List Bot) (bot : Bot)
    → first_where (λ (b : Bot). b.id == payload.bot_id) bots ≡ some bot
    → IsPermitted bots (proposal_of payload (proposal_status bot (worth payload)) draw)
unfolding proposal_status
proposal-IsPermitted payload draw bots bot found auto =
    let same = found_holds (λ (b : Bot). b.id == payload.bot_id) bots bot found in
    found_any (λ (b : Bot). b.id == payload.bot_id)
      (permits (proposal_of payload (proposal_status bot (worth payload)) draw)) bots bot found
      (ground (arith, same, auto))

-- A review leaves no proposal that was approved without an admin but those that were before.
reviewed-IsPermitted :
    (bots : List Bot) (at : ℕ) (d : Decision) (reviewed_at : ℕ) (ps : List Proposal)
    → All (IsPermitted bots) ps
    → All (IsPermitted bots) (
        update_where
          (λ (q : Proposal). q.id == at)
          (λ (q : Proposal). record q { status = decided d; reviewed_at = some reviewed_at })
          ps)
reviewed-IsPermitted bots at d r [] a = tt
reviewed-IsPermitted bots at d r (p ∷ ps) (h, a) = (here d, reviewed-IsPermitted bots at d r ps a)
  where
    here :
        (d : Decision)
        → IsPermitted bots
            (if p.id == at then record p { status = decided d; reviewed_at = some r } else p)
    here Decision.approve = elim (Bool-cases (p.id == at)) [
      | inl same ↦ rw same (λ auto. cc)
      | inr other ↦ rw other h
    ]
    here Decision.reject = elim (Bool-cases (p.id == at)) [
      | inl same ↦ rw same (λ auto. cc)
      | inr other ↦ rw other h
    ]

audit-IsLimited : (entry : AuditLog) (db : Database) → IsLimited db → IsLimited (audit entry db).1
unfolding audit
audit-IsLimited entry db h =
    elim (Bool-cases (any_of (λ (a : AuditLog). a.id == entry.id) db.audit_logs)) [
      | inl taken ↦ rw taken h
      | inr free ↦ rw free h
    ]

insert_proposal-IsLimited :
    (p : Proposal) (db : Database)
    → IsPermitted db.bots p
    → IsLimited db
    → IsLimited (insert_proposal p db).1
unfolding insert_proposal
insert_proposal-IsLimited p db permitted h =
    elim (Bool-cases (
      any_of (λ (q : Proposal). q.id == p.id) db.order_proposals
      || not (any_of (λ (b : Bot). b.id == p.bot_id) db.bots))) [
        | inl broken ↦ rw broken h
        | inr free ↦
            rw free (All-append (IsPermitted db.bots) db.order_proposals (p ∷ []) h (permitted, tt))
      ]

propose-IsLimited :
    (payload : ProposalCreate) (user : User) (draw : Draw) (db : Database)
    → IsLimited db
    → IsLimited (propose payload user draw db).1
unfolding propose
propose-IsLimited payload user draw db h = go (find_bot payload.bot_id db) refl
  where
    go :
        (bot : Option Bot)
        → find_bot payload.bot_id db ≡ bot
        → IsLimited (propose_for bot payload user draw db).1
    go none found = h
    go (some bot) found =
        let row = proposal_of payload (proposal_status bot (worth payload)) draw in
        then_do-keeps IsLimited (insert_proposal row db) _
          (insert_proposal-IsLimited row db (proposal-IsPermitted payload draw db.bots bot found) h)
          (λ _ s m. then_do-keeps IsLimited (audit _ s) _ (audit-IsLimited _ s m) (λ _ t k. k))

insert_bot-IsLimited : (bot : Bot) (db : Database) → IsLimited db → IsLimited (insert_bot bot db).1
unfolding insert_bot
insert_bot-IsLimited bot db h =
    elim (Bool-cases (any_of (λ (b : Bot). b.id == bot.id || text_beq b.name bot.name) db.bots)) [
      | inl taken ↦ rw taken h
      | inr free ↦ rw free (more_bots db.bots (bot ∷ []) db.order_proposals h)
    ]

create_bot-IsLimited :
    (payload : BotCreate) (user : User) (draw : Draw) (db : Database)
    → IsLimited db
    → IsLimited (create_bot payload user draw db).1
unfolding create_bot
create_bot-IsLimited payload user draw db h =
    then_do-keeps IsLimited (insert_bot (bot_of payload draw) db) _
      (insert_bot-IsLimited (bot_of payload draw) db h)
      (λ _ s m. then_do-keeps IsLimited (audit _ s) _ (audit-IsLimited _ s m) (λ _ t k. k))

decide-IsLimited :
    (at : ℕ) (d : Decision) (user : User) (draw : Draw) (db : Database)
    → IsLimited db
    → IsLimited (decide at d user draw db).1
unfolding decide write_decision review_proposal
decide-IsLimited at d user draw db h = go (reviewable (find_proposal at db))
  where
    go : (r : Result (Unit {0})) → IsLimited (decide_if r at d user draw db).1
    go (err e) = h
    go (ok u) =
        then_do-keeps IsLimited (audit _ _) _
          (audit-IsLimited _ _ (reviewed-IsPermitted db.bots at d draw.now db.order_proposals h))
          (λ _ t k. k)

effect-IsLimited :
    (e : Endpoint) (user : User) (draw : Draw) (db : Database)
    → IsLimited db
    → IsLimited (effect e user draw db)
effect-IsLimited (Endpoint.post_bot payload) user draw db =
    create_bot-IsLimited payload user draw db
effect-IsLimited (Endpoint.post_proposal payload) user draw db =
    propose-IsLimited payload user draw db
effect-IsLimited (Endpoint.post_decision id d) user draw db = decide-IsLimited id d user draw db
effect-IsLimited _ user draw db = λ h. h

-- If every proposal with the status `auto_approved` belongs to a bot of the table that is active, has
-- the mode `automatic_limited` and a limit of at least quantity times price, then this holds after
-- any request too, however it ends.
pub observe-IsLimited :
    (sha256 : Text → Text) (request : Request) (api : Api)
    → IsLimited api.database
    → IsLimited (observe sha256 request api).1.database
observe-IsLimited sha256 request api h = elim (observe-Allowed sha256 request api) [
  | inl same ↦ subst IsLimited (sym same) h
  | inr (user, _, _, made) ↦
      subst IsLimited (sym made)
        (effect-IsLimited request.endpoint user request.draw api.database h)
]
