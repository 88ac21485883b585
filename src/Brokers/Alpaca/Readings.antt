-- ===== src/Brokers/Alpaca/Readings.antt =====
-- What an answer says of an order: the numbers, the ID and the time that are read from its fields.
use native.Mathlib.Nat.{div-add-mod}
use broker_ai.Base.{
  ℕ, ◌+◌, ◌*◌, ◌%◌, ◌/◌, ◌==◌, ==_iff, ◌≡◌, refl, ap, ◌∙◌, arith, Bool, true, false, not, ◌||◌,
  if◌then◌else◌, Option, none, some, Text,
}
use broker_ai.Base.Int.{pos, negsuc, leb_ℤ}
use broker_ai.Base.Result.{Result, Error, ok, err, ◌>>=◌, bound_ok, ok_inj, Gives}
use broker_ai.Decimal.{Amount, Decimal, finite, non_finite, unit, nought}
use broker_ai.Brokers.Alpaca.Json.{Json, get, subscript}
use broker_ai.Brokers.Alpaca.Answers.{
  Parsers, translated, finite_only, whole, text_of, uuid, decimal, whole_number,
}

-- Whole units of an amount.
abbrev pub units_of : ℕ → Amount
units_of n = pos (n * unit)

module _ (parsers : Parsers) where
  -- A field of the answer, whose text the constructor of decimals takes for a finite amount.
  abbrev pub HasAmount : Text → Json → Amount → Type 0
  HasAmount key payload a =
      (j : Json) × (get key Json.null payload ≡ ok j)
      × (parsers.decimal_of (text_of parsers j) ≡ some (finite a))

  -- A field of the answer, whose text the constructor of IDs takes for an ID.
  abbrev pub HasId : Text → Json → ℕ → Type 0
  HasId key payload id =
      (j : Json) × (subscript key payload ≡ ok j) × (parsers.uuid_of (text_of parsers j) ≡ some id)

  pub finite_only-inv :
      (d : Option Decimal) {a : Amount} → finite_only d ≡ ok a → d ≡ some (finite a)
  finite_only-inv none e = cc
  finite_only-inv (some non_finite) e = cc
  finite_only-inv (some (finite b)) e = ap (λ x. some (finite x)) (ok_inj e)

  pub decimal-HasAmount :
      (key : Text) (payload : Json) {a : Amount}
      → (get key Json.null payload >>= decimal parsers) ≡ ok a
      → HasAmount key payload a
  decimal-HasAmount key payload read =
      let (j, found, number) = bound_ok (get key Json.null payload) (decimal parsers) read in
      (j, found, finite_only-inv (parsers.decimal_of (text_of parsers j)) number)

  quotient :
      (m q r n : ℕ) (b c : Bool)
      → (b ≡ true → r ≡ 0)
      → unit * q + r ≡ m
      → (if not b || c then err Error.broker_failed else ok q) ≡ ok n
      → pos m ≡ units_of n
  quotient m q r n true false z d e =
      ap pos (omega (arith, d, z refl) ∙ ap (λ x. x * unit) (ok_inj e))
  quotient m q r n true true z d e = cc
  quotient m q r n false c z d e = cc

  whole_units : (a : Amount) {n : ℕ} → whole a ≡ ok n → a ≡ units_of n
  whole_units (pos m) {n} e =
      quotient m (m / unit) (m % unit) n ((m % unit) == 0) (leb_ℤ (pos m) nought)
        (==_iff (m % unit) 0).0 (div-add-mod m unit) e
  whole_units (negsuc m) e = ground arith

  pub whole_number-HasAmount :
      (key : Text) (payload : Json) {n : ℕ}
      → (get key Json.null payload >>= whole_number parsers) ≡ ok n
      → HasAmount key payload (units_of n)
  whole_number-HasAmount key payload read =
      let (j, found, number) = bound_ok (get key Json.null payload) (whole_number parsers) read in
      let (a, amount, count) = bound_ok (decimal parsers j) whole number in
      (
        j,
        found,
        finite_only-inv (parsers.decimal_of (text_of parsers j)) amount
            ∙ ap (λ x. some (finite x)) (whole_units a count),
      )

  uuid-inv :
      (j : Json) {id : ℕ} → uuid parsers j ≡ ok id → parsers.uuid_of (text_of parsers j) ≡ some id
  uuid-inv j e = go (parsers.uuid_of (text_of parsers j)) e
    where
      go :
          (o : Option ℕ) {id : ℕ}
          → (elim o [ none ↦ err Error.value_error | some i ↦ ok i ]) ≡ ok id
          → o ≡ some id
      go none e = cc
      go (some i) e = ap some (ok_inj e)

  pub uuid-HasId :
      (key : Text) (payload : Json) {id : ℕ}
      → (subscript key payload >>= uuid parsers) ≡ ok id
      → HasId key payload id
  uuid-HasId key payload read =
      let (j, found, named) = bound_ok (subscript key payload) (uuid parsers) read in
      (j, found, uuid-inv j named)

-- A translation of exceptions gives nothing else.
pub translated-Gives :
    {A : Type 0} (P : A → Type 0) (r : Result A) → Gives P r → Gives P (translated r)
translated-Gives P (ok a) h = h
translated-Gives P (err Error.key_error) h = tt
translated-Gives P (err Error.type_error) h = tt
translated-Gives P (err Error.value_error) h = tt
translated-Gives P (err _) h = tt
