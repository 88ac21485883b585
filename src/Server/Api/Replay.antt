-- ===== src/Server/Api/Replay.antt =====
-- The audit log tells the whole story of every proposal.
use broker_ai.Base.{
  ℕ, ◌≡◌, ◌⊎◌, inl, inr, refl, sym, ap, ◌∙◌, subst, arith, Bool, true, false, not, ◌||◌, ◌==◌,
  if◌then◌else◌, Option, none, some, List, [], ◌∷◌, ◌++◌, any_of, Bool-cases, text_beq, Text,
}
use broker_ai.Base.Result.{Result, Error, ok, err, then_do}
use broker_ai.Server.Schemas.{ProposalCreate, BotCreate, Decision}
use broker_ai.Server.Database.{
  Database, User, Bot, Proposal, ProposalStatus, AuditLog, AuditEvent, find_bot, find_proposal,
  insert_proposal, insert_bot, review_proposal, audit,
}
use broker_ai.Server.Api.Proposals.{
  Draw, create_bot, propose, propose_for, proposal_of, proposal_status, decide, decide_if, decided,
  reviewable, write_decision, worth, decision_event, bot_of,
}
use broker_ai.Server.Api.Access.{Api, Request, Endpoint, observe}
use broker_ai.Server.Api.Routes.{effect, observe-Allowed}
use broker_ai.Server.Api.Lifecycle.{status_of, find_appended, find_updated, if_found}

-- The effect of an event on the status of the proposal that it is about.
abbrev pub after_event : AuditEvent → Option ProposalStatus → Option ProposalStatus
after_event (AuditEvent.proposal_created status worth bot_id) old = some status
after_event AuditEvent.proposal_approved old = if_found old ProposalStatus.approved
after_event AuditEvent.proposal_rejected old = if_found old ProposalStatus.rejected
after_event _ old = old

-- What an entry of the log says about the proposal under an ID.
abbrev pub told : ℕ → AuditLog → Option ProposalStatus → Option ProposalStatus
told id entry old = if entry.entity_id == id then after_event entry.event_type old else old

-- The status that the log gives to a proposal, from its first entry to its last.
abbrev pub replay : ℕ → List AuditLog → Option ProposalStatus → Option ProposalStatus
replay id [] old = old
replay id (entry ∷ logs) old = replay id logs (told id entry old)

-- The table agrees with the log.
abbrev pub IsTold : Database → Type 0
IsTold db = (id : ℕ) → status_of id db ≡ replay id db.audit_logs none

replay-append :
    (id : ℕ) (logs : List AuditLog) (entry : AuditLog) (old : Option ProposalStatus)
    → replay id (logs ++ (entry ∷ [])) old ≡ told id entry (replay id logs old)
replay-append id [] entry old = refl
replay-append id (e ∷ logs) entry old = replay-append id logs entry (told id e old)

-- An audit under a fresh ID, of tables that are ahead of the log by just the entry's event, makes
-- the log agree again.
audit-IsTold :
    (entry : AuditLog) (db : Database)
    → any_of (λ (a : AuditLog). a.id == entry.id) db.audit_logs ≡ false
    → ((id : ℕ) → status_of id db ≡ told id entry (replay id db.audit_logs none))
    → IsTold (audit entry db).1
unfolding audit
audit-IsTold entry db fresh ahead =
    rw fresh λ id. ahead id ∙ sym (replay-append id db.audit_logs entry none)

-- The ID of the audit row of a call is new.
abbrev pub IsFresh : Draw → Database → Type 0
IsFresh draw db = any_of (λ (a : AuditLog). a.id == draw.audit_id) db.audit_logs ≡ false

insert_proposal-IsTold :
    (p : Proposal) (db : Database)
    → IsTold db
    → ((insert_proposal p db) ≡ (err Error.integrity_failed, db))
      ⊎ ((row : Database) × (insert_proposal p db ≡ (ok tt, row))
          × (row.audit_logs ≡ db.audit_logs)
          × ((id : ℕ)
              → status_of id row
                ≡ (if p.id == id then some p.status else replay id db.audit_logs none)))
unfolding insert_proposal
insert_proposal-IsTold p db told_all =
    elim (Bool-cases (
      any_of (λ (q : Proposal). q.id == p.id) db.order_proposals
      || not (any_of (λ (b : Bot). b.id == p.bot_id) db.bots))) [
        | inl broken ↦ inl (rw broken)
        | inr free ↦ inr (
          record db { order_proposals = db.order_proposals ++ (p ∷ []) },
          rw free,
          refl,
          λ id.
              find_appended id db.order_proposals p (ground (arith, free))
              ∙ ap (λ (s : Option ProposalStatus). if p.id == id then some p.status else s)
                  (told_all id),
        )
      ]

same_either {ℓ} : {A : Type ℓ} (b : Bool) (x : A) → (if b then x else x) ≡ x
same_either true x = refl
same_either false x = refl

-- The end of every operation: the audit, then the row that is returned.
audited-IsTold :
    {A : Type 0} (entry : AuditLog) (db : Database) (f : Unit {0} → Database → Result A × Database)
    → any_of (λ (a : AuditLog). a.id == entry.id) db.audit_logs ≡ false
    → ((id : ℕ) → status_of id db ≡ told id entry (replay id db.audit_logs none))
    → ((u : Unit {0}) (s : Database) → (f u s).1 ≡ s)
    → IsTold (then_do (audit entry db) f).1
audited-IsTold {A} entry db f fresh ahead keeps =
    go (audit entry db) (audit-IsTold entry db fresh ahead)
  where
    go : (x : Result (Unit {0}) × Database) → IsTold x.1 → IsTold (then_do x f).1
    go (ok u, s) h = subst IsTold (sym (keeps u s)) h
    go (err e, s) h = h

propose-IsTold :
    (payload : ProposalCreate) (user : User) (draw : Draw) (db : Database)
    → IsFresh draw db
    → IsTold db
    → IsTold (propose payload user draw db).1
unfolding propose
propose-IsTold payload user draw db fresh told_all = go (find_bot payload.bot_id db)
  where
    go : (bot : Option Bot) → IsTold (propose_for bot payload user draw db).1
    go none = told_all
    go (some bot) =
        let status = proposal_status bot (worth payload) in
        elim (insert_proposal-IsTold (proposal_of payload status draw) db told_all) [
          | inl failed ↦ rw failed told_all
          | inr (row, done, logs, ahead) ↦ rw done (
              audited-IsTold _ row _
                (subst
                  (λ (l : List AuditLog).
                    any_of (λ (a : AuditLog). a.id == draw.audit_id) l ≡ false)
                  (sym logs) fresh)
                (λ id.
                  ahead id
                  ∙ ap
                      (λ (l : List AuditLog).
                        if draw.id == id then some status else replay id l none)
                      (sym logs))
                (λ u s. refl))
        ]

create_bot-IsTold :
    (payload : BotCreate) (user : User) (draw : Draw) (db : Database)
    → IsFresh draw db
    → IsTold db
    → IsTold (create_bot payload user draw db).1
unfolding create_bot insert_bot
create_bot-IsTold payload user draw db fresh told_all =
    elim (Bool-cases
      (any_of (λ (b : Bot). b.id == draw.id || text_beq b.name payload.name) db.bots)) [
        | inl taken ↦ rw taken told_all
        | inr free ↦ rw free (
            audited-IsTold _ (record db { bots = db.bots ++ (bot_of payload draw ∷ []) }) _ fresh
              (λ id. told_all id ∙ sym (same_either (draw.id == id) _)) (λ u s. refl))
      ]

decided_event :
    (d : Decision) (old : Option ProposalStatus)
    → after_event (decision_event d) old ≡ if_found old (decided d)
decided_event Decision.approve old = refl
decided_event Decision.reject old = refl

decide-IsTold :
    (at : ℕ) (d : Decision) (user : User) (draw : Draw) (db : Database)
    → IsFresh draw db
    → IsTold db
    → IsTold (decide at d user draw db).1
unfolding decide write_decision review_proposal
decide-IsTold at d user draw db fresh told_all = go (reviewable (find_proposal at db))
  where
    go : (r : Result (Unit {0})) → IsTold (decide_if r at d user draw db).1
    go (err e) = told_all
    go (ok u) =
        audited-IsTold _ _ _ fresh
          (λ id.
            find_updated id at (decided d) (some draw.now) db.order_proposals
            ∙ ap (λ (s : Option ProposalStatus). if at == id then if_found s (decided d) else s)
                (told_all id)
            ∙ ap
                (λ (s : Option ProposalStatus).
                  if at == id then s else replay id db.audit_logs none)
                (sym (decided_event d (replay id db.audit_logs none))))
          (λ u s. refl)

effect-IsTold :
    (e : Endpoint) (user : User) (draw : Draw) (db : Database)
    → IsFresh draw db
    → IsTold db
    → IsTold (effect e user draw db)
effect-IsTold (Endpoint.post_bot payload) user draw db = create_bot-IsTold payload user draw db
effect-IsTold (Endpoint.post_proposal payload) user draw db = propose-IsTold payload user draw db
effect-IsTold (Endpoint.post_decision id d) user draw db = decide-IsTold id d user draw db
effect-IsTold _ user draw db = λ fresh h. h

-- If the log gives every proposal the status that the table gives it, and the ID of a request's audit
-- row is new, then the log does so after the request too, however it ends.
pub observe-IsTold :
    (sha256 : Text → Text) (request : Request) (api : Api)
    → IsFresh request.draw api.database
    → IsTold api.database
    → IsTold (observe sha256 request api).1.database
observe-IsTold sha256 request api fresh told_all = elim (observe-Allowed sha256 request api) [
  | inl same ↦ subst IsTold (sym same) told_all
  | inr (user, _, _, made) ↦
      subst IsTold (sym made)
        (effect-IsTold request.endpoint user request.draw api.database fresh told_all)
]
