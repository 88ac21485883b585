-- ===== src/Base/Result.antt =====
-- Calls that may raise: a value or the exception, and, for methods of an object, the object too,
-- since what was written before a raise stays written.
use mathlib.Core.Path.{◌≡◌, refl}
use mathlib.Core.Bool.{Bool}
use mathlib.Core.Logic.{◌⊎◌, inl, inr}
use broker_ai.Base.Tests.{if◌then◌else◌}

-- One constructor for each exception that the modelled code raises; the text of a message is
-- not modelled.
pub data Error : Type 0 where
  empty_symbol invalid_symbol empty_name : Error
  not_finite not_positive negative_amount : Error
  quantity_not_positive unsupported_currency : Error
  insufficient_cash insufficient_shares no_position other_instrument currency_mismatch : Error
  proceeds_not_positive duplicate_transaction naive_time : Error
  missing_price wrong_quote rate_above_one equity_mismatch empty_price_symbol : Error
  duplicate_assessment foreign_context risk_rejected rule_failed : Error
  window_not_positive window_order : Error
  high_too_low low_too_high too_few_bars unsorted_bars duplicate_bar slippage_too_high
        too_many_requests :
      Error
  unavailable timeout transient order_not_found order_state idempotency_conflict broker_failed
        no_result missing_execution unexpected_execution update_before_submission cash_negative
        attempts_not_positive timeout_not_positive delay_negative not_found name_taken
        already_decided integrity_failed no_credentials invalid_token not_admin invalid_payload
        interval_too_short key_error type_error value_error attribute_error http_failed
        credentials_missing not_paper binding_failed positions_open unreadable_file wrong_columns
        invalid_row empty_curve division_by_zero unknown_mode unknown_level short_token invalid_flag
        overflow :
      Error

pub data Result {κ} (A : Type κ) : Type κ where
  err : Error → Result A
  ok : A → Result A

-- `if test: raise e`
abbrev pub raise_if : Bool → Error → Result (Unit {0})
raise_if c e = if c then err e else ok tt

infixl 5 ◌>>=◌ ◌>>◌
-- The rest of a method runs on the value, or not at all after a raise.
abbrev pub ◌>>=◌ {κ ℓ} : {A : Type κ} {B : Type ℓ} → Result A → (A → Result B) → Result B
err e >>= rest = err e
ok value >>= rest = rest value

-- A call for its checks alone.
abbrev pub ◌>>◌ {κ} : {B : Type κ} → Result (Unit {0}) → Result B → Result B
checks >> rest = checks >>= λ _. rest

-- A method: the outcome of the call and the object after it.
abbrev pub Action : Type 0 → Type 0 → Type 0
Action S A = S → Result A × S

-- Sequencing of methods on the same object.
abbrev pub then_do : {S A B : Type 0} → Result A × S → (A → Action S B) → Result B × S
then_do (ok a, s) f = f a s
then_do (err e, s) f = (err e, s)

-- What the first method gives and the second keeps holds when the sequence ends, however it ends.
pub then_do-keeps {κ} :
    {S A B : Type 0} (P : S → Type κ) (x : Result A × S) (f : A → Action S B)
    → P x.1
    → ((a : A) (s : S) → P s → P (f a s).1)
    → P (then_do x f).1
then_do-keeps P (ok a, s) f h k = k a s h
then_do-keeps P (err e, s) f h k = h

-- A check that does not touch the object, before a method body.
abbrev pub check : {S A B : Type 0} → Result A → (A → Action S B) → Action S B
check (ok a) f s = f a s
check (err e) f s = (err e, s)

-- `m; f(result)` on the same object.
abbrev pub seq : {S A B : Type 0} → Action S A → (A → Action S B) → Action S B
seq m f s = then_do (m s) f

abbrev pub give : {S A : Type 0} → A → Action S A
give a s = (ok a, s)

-- To split on the outcome of a call and keep the equation.
pub Result-cases {ℓ} :
    {A : Type ℓ} (r : Result A) → ((e : Error) × (r ≡ err e)) ⊎ ((a : A) × (r ≡ ok a))
Result-cases (ok a) = inr (a, refl)
Result-cases (err e) = inl (e, refl)

-- Inversion of a successful chain.
pub bound_ok :
    {A B : Type 0} (first : Result A) (rest : A → Result B) {y : B}
    → (first >>= rest) ≡ ok y
    → (x : A) × (first ≡ ok x) × (rest x ≡ ok y)
bound_ok (ok x) rest done = (x, refl, done)
bound_ok (err e) rest done = cc

pub ok_inj {κ} : {A : Type κ} {x y : A} → ok x ≡ ok y → x ≡ y
ok_inj e = cc

-- A call does not raise.
abbrev pub Returns {κ} : {A : Type κ} → Result A → Type κ
Returns {A = A} r = (a : A) × (r ≡ ok a)

-- What a call returns, if it returns, satisfies a predicate.
abbrev pub Gives {κ ℓ} : {A : Type κ} → (A → Type ℓ) → Result A → Type ℓ
Gives P (err e) = Unit
Gives P (ok a) = P a

-- A chain gives what its last call gives.
pub bind-Gives {κ ℓ μ} :
    {A : Type κ} {B : Type ℓ} (P : B → Type μ) (first : Result A) (rest : A → Result B)
    → ((x : A) → first ≡ ok x → Gives P (rest x))
    → Gives P (first >>= rest)
bind-Gives P (err e) rest h = tt
bind-Gives P (ok x) rest h = h x refl
