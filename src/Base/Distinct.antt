-- ===== src/Base/Distinct.antt =====
-- Lists in which no key occurs twice, and what appending an unseen key does.
use Prim.Native.Nat.{ℕ}
use mathlib.Core.Path.{◌≡◌, refl}
use mathlib.Core.Bool.{Bool, false, ◌||◌}
use mathlib.Core.List.{List, [], ◌∷◌, ◌++◌}
use native.Mathlib.Omega.{arith}
use broker_ai.Base.Tests.{◌==◌}
use broker_ai.Base.Lists.{any_of}

module _ {A : Type 0} (key : A → ℕ) where
  -- `any(item.key == k for item in items)`
  abbrev pub has_key : ℕ → List A → Bool
  has_key k = any_of (λ x. key x == k)

  abbrev pub Distinct : List A → Type 0
  Distinct [] = Unit
  Distinct (x ∷ xs) = (has_key (key x) xs ≡ false) × Distinct xs

  has_key-append :
      (k : ℕ) (xs : List A) (z : A) → has_key k (xs ++ (z ∷ [])) ≡ (has_key k xs || key z == k)
  has_key-append k [] z = ground arith
  has_key-append k (x ∷ xs) z = ground (arith, has_key-append k xs z)

  pub Distinct-append :
      (xs : List A) (z : A) → Distinct xs → has_key (key z) xs ≡ false → Distinct (xs ++ (z ∷ []))
  Distinct-append [] z d fresh = (refl, tt)
  Distinct-append (x ∷ xs) z d fresh =
      ground (arith, has_key-append (key x) xs z, Distinct-append xs z d.1)
