-- ===== src/Server/Api/Decisions.antt =====
-- A decision: that it is made, that no later one is, and what two at once do.
use broker_ai.Base.{ℕ, ◌≡◌, refl, ap, arith, ◌==◌, some, List, [], ◌∷◌, ◌++◌}
use broker_ai.Base.Result.{Result, Error, ok, err}
use broker_ai.Server.Schemas.{Decision}
use broker_ai.Server.Database.{
  Database, User, Proposal, ProposalStatus, first_where, update_where, find_proposal,
  review_proposal, audit,
}
use broker_ai.Server.Api.Proposals.{
  Draw, decide, decide_if, decided, reviewable, write_decision, entry_of, decision_event,
}
use broker_ai.Server.Api.Replay.{IsFresh}

-- The row as a decision leaves it.
abbrev pub reviewed : Decision → ℕ → Proposal → Proposal
reviewed d now p = record p { status = decided d; reviewed_at = some now }

review_found :
    (at : ℕ) (d : Decision) (now : ℕ) (ps : List Proposal) (p : Proposal)
    → first_where (λ (q : Proposal). q.id == at) ps ≡ some p
    → first_where
        (λ (q : Proposal). q.id == at)
        (update_where (λ (q : Proposal). q.id == at) (reviewed d now) ps)
      ≡ some (reviewed d now p)
review_found at d now [] p found = cc
review_found at d now (q ∷ ps) p found = ground (arith, review_found at d now ps p)

-- The tables after a decision.
abbrev pub after_decision : ℕ → Decision → User → Draw → Database → Database
after_decision at d user draw db = record (review_proposal at (decided d) draw.now db) {
  audit_logs = db.audit_logs ++ (entry_of draw (decision_event d) user.id at ∷ []);
}

write_decision-writes :
    (at : ℕ) (d : Decision) (user : User) (draw : Draw) (db : Database) (p : Proposal)
    → find_proposal at db ≡ some p
    → IsFresh draw db
    → write_decision at d user draw db
      ≡ (ok (some (reviewed d draw.now p)), after_decision at d user draw db)
unfolding write_decision review_proposal audit
write_decision-writes at d user draw db p found fresh =
    rw (fresh, review_found at d draw.now db.order_proposals p found) refl

-- A pending proposal is decided by a call whose audit ID is new: the call returns the row with
-- the status decided for and the time of the decision, and a call for either decision after it
-- raises `already_decided` and changes nothing.
pub decide-decides :
    (at : ℕ) (d : Decision) (user : User) (draw : Draw) (db : Database) (p : Proposal)
    → find_proposal at db ≡ some p
    → p.status ≡ ProposalStatus.pending_approval
    → IsFresh draw db
    → (decide at d user draw db
        ≡ (ok (some (reviewed d draw.now p)), after_decision at d user draw db))
      × ((e : Decision) (other : User) (late : Draw)
          → decide at e other late (after_decision at d user draw db)
            ≡ (err Error.already_decided, after_decision at d user draw db))
unfolding decide review_proposal
decide-decides at d user draw db p found pending fresh = (
  rw (found, pending) (write_decision-writes at d user draw db p found fresh),
  λ e other late. rw (review_found at d draw.now db.order_proposals p found) (
      ap (λ (r : Result (Unit {0})). decide_if r at e other late (after_decision at d user draw db))
        (settled d)),
)
  where
    settled : (d : Decision) → reviewable (some (reviewed d draw.now p)) ≡ err Error.already_decided
    settled Decision.approve = refl
    settled Decision.reject = refl

-- `decide` reads and writes in two connections. When two calls have both read the proposal while it
-- was pending, and their audit IDs are new and differ, then both return the row as decided: the
-- second overwrites the decision of the first, and the log keeps the events of both.
pub write_decision-race :
    (at : ℕ) (d e : Decision) (one two : User) (first second : Draw) (db : Database) (p : Proposal)
    → find_proposal at db ≡ some p
    → p.status ≡ ProposalStatus.pending_approval
    → IsFresh first db
    → IsFresh second (after_decision at d one first db)
    → (reviewable (find_proposal at db) ≡ ok tt)
      × (write_decision at d one first db
          ≡ (ok (some (reviewed d first.now p)), after_decision at d one first db))
      × (write_decision at e two second (after_decision at d one first db) ≡ (
        ok (some (reviewed e second.now p)),
        after_decision at e two second (after_decision at d one first db),
      ))
unfolding review_proposal
write_decision-race at d e one two first second db p found pending fresh fresh_too = (
  rw (found, pending) refl,
  write_decision-writes at d one first db p found fresh,
  write_decision-writes at e two second (after_decision at d one first db) (reviewed d first.now p)
      (review_found at d first.now db.order_proposals p found) fresh_too,
)
