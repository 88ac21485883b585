-- ===== src/Brokers/Sync/Positions.antt =====
-- The rows of the positions.
use broker_ai.Base.{
  Bool, not, ℕ, ◌≡◌, inl, inr, refl, sym, ap, ◌∙◌, arith, if◌then◌else◌, List, [], ◌∷◌, ◌++◌, map,
  any_of, Bool-cases, text_beq, ◌&&◌, append_nil, append_step,
}
use broker_ai.Base.Result.{Result, ok, err, Gives}
use broker_ai.Brokers.Models.{PositionSnapshot}
use broker_ai.Server.Database.{BrokerPositionRow}
use broker_ai.Brokers.Sync.Defs.{
  alpaca, paper, others, is_paper, position_row, insert_positions, same_key,
}

pub insert_positions-all :
    (ps rows : List BrokerPositionRow)
    → Gives (λ after. after ≡ rows ++ ps) (insert_positions ps rows)
unfolding insert_positions
insert_positions-all [] rows = sym (append_nil rows)
insert_positions-all (p ∷ ps) rows = elim (Bool-cases (any_of (same_key p) rows)) [
  | inl taken ↦ rw taken tt
  | inr free ↦
      rw free (
        moved (insert_positions ps (rows ++ (p ∷ []))) (insert_positions-all ps (rows ++ (p ∷ []))))
]
  where
    moved :
        (r : Result (List BrokerPositionRow))
        → Gives (λ after. after ≡ (rows ++ (p ∷ [])) ++ ps) r
        → Gives (λ after. after ≡ rows ++ (p ∷ ps)) r
    moved (err e) g = tt
    moved (ok after) g = g ∙ append_step rows p ps

-- A row of Alpaca Paper.
abbrev pub is_own : BrokerPositionRow → Bool
is_own r = text_beq r.broker alpaca && text_beq r.environment paper

-- The row of a position as the account shows it.
pub record IsShown (at : ℕ) (p : PositionSnapshot) (r : BrokerPositionRow) : Type 0 where
  pub at_broker : r.broker ≡ alpaca
  pub in_environment : r.environment ≡ paper
  pub same_symbol : r.symbol ≡ p.symbol
  pub same_quantity : r.quantity ≡ p.quantity
  pub same_average : r.average_price ≡ p.average_price
  pub now : r.synced_at ≡ at

-- A row for each position, in their order, and no other.
abbrev pub Shown : ℕ → List PositionSnapshot → List BrokerPositionRow → Type 0
Shown at [] [] = Unit {0}
Shown at (p ∷ ps) (r ∷ rs) = IsShown at p r × Shown at ps rs
Shown at [] (r ∷ rs) = ⊥
Shown at (p ∷ ps) [] = ⊥

pub positions-Shown : (at : ℕ) (ps : List PositionSnapshot) → Shown at ps (map (position_row at) ps)
positions-Shown at [] = tt
positions-Shown at (p ∷ ps) = (
  record {
    at_broker = refl;
    in_environment = refl;
    same_symbol = refl;
    same_quantity = refl;
    same_average = refl;
    now = refl;
  },
  positions-Shown at ps,
)

-- The rows that satisfy a test.
abbrev pub rows_with : (BrokerPositionRow → Bool) → List BrokerPositionRow → List BrokerPositionRow
rows_with p [] = []
rows_with p (x ∷ xs) = if p x then x ∷ rows_with p xs else rows_with p xs

pub rows_with-append :
    (p : BrokerPositionRow → Bool) (xs ys : List BrokerPositionRow)
    → rows_with p (xs ++ ys) ≡ rows_with p xs ++ rows_with p ys
rows_with-append p [] ys = refl
rows_with-append p (x ∷ xs) ys = ground (arith, rows_with-append p xs ys)

pub own_of_others : (rows : List BrokerPositionRow) → rows_with is_paper (others rows) ≡ []
unfolding others
own_of_others [] = refl
own_of_others (x ∷ xs) = ground (arith, own_of_others xs)

pub others_of_others :
    (rows : List BrokerPositionRow)
    → rows_with (λ r. not (is_paper r)) (others rows) ≡ rows_with (λ r. not (is_paper r)) rows
unfolding others
others_of_others [] = refl
others_of_others (x ∷ xs) = ground (arith, others_of_others xs)

pub own_of_new :
    (at : ℕ) (ps : List PositionSnapshot)
    → rows_with is_paper (map (position_row at) ps) ≡ map (position_row at) ps
own_of_new at [] = refl
own_of_new at (p ∷ ps) = ap (λ l. position_row at p ∷ l) (own_of_new at ps)

pub others_of_new :
    (at : ℕ) (ps : List PositionSnapshot)
    → rows_with (λ r. not (is_paper r)) (map (position_row at) ps) ≡ []
others_of_new at [] = refl
others_of_new at (p ∷ ps) = others_of_new at ps
