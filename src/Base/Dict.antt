-- ===== src/Base/Dict.antt =====
-- A Python dict in insertion order, keyed by any type with a decided equality.
use mathlib.Core.Path.{◌≡◌, refl}
use mathlib.Core.Logic.{◌≢◌}
use mathlib.Core.Option.{Option, none, some}
use mathlib.Core.List.{List, [], ◌∷◌}
use native.Mathlib.Omega.{arith}
use broker_ai.Base.Tests.{if◌then◌else◌}
use broker_ai.Base.Classes.{Eq}

abbrev pub Dict : Type 0 → Type 0 → Type 0
Dict K V = List (K × V)

module _ {K V : Type 0} ⦃e : Eq K⦄ where
  -- `d.get(k)`
  abbrev pub lookup : K → Dict K V → Option V
  lookup k [] = none
  lookup k ((j, v) ∷ d) = if e.beq k j then some v else lookup k d

  -- `d[k] = v`
  abbrev pub insert : K → V → Dict K V → Dict K V
  insert k v [] = (k, v) ∷ []
  insert k v ((j, w) ∷ d) = if e.beq k j then (j, v) ∷ d else (j, w) ∷ insert k v d

  -- `del d[k]`
  abbrev pub erase : K → Dict K V → Dict K V
  erase k [] = []
  erase k ((j, w) ∷ d) = if e.beq k j then d else (j, w) ∷ erase k d

  -- Every entry satisfies a predicate, and no key stands twice.
  abbrev pub Entries : (K → V → Type 0) → Dict K V → Type 0
  Entries P [] = Unit
  Entries P ((k, v) ∷ d) = P k v × (lookup k d ≡ none) × Entries P d

  pub lookup-insert_self : (k : K) (v : V) (d : Dict K V) → lookup k (insert k v d) ≡ some v
  lookup-insert_self k v [] = ground (arith, e.beq_iff k k)
  lookup-insert_self k v ((j, w) ∷ d) = ground (arith, lookup-insert_self k v d)

  pub lookup-insert_ne :
      (j k : K) (v : V) (d : Dict K V) → j ≢ k → lookup j (insert k v d) ≡ lookup j d
  lookup-insert_ne j k v [] h = ground (arith, e.beq_iff j k)
  lookup-insert_ne j k v ((i, w) ∷ d) h =
      ground (arith, lookup-insert_ne j k v d h, e.beq_iff k i, e.beq_iff j i)

  pub lookup-erase_ne : (j k : K) (d : Dict K V) → j ≢ k → lookup j (erase k d) ≡ lookup j d
  lookup-erase_ne j k [] h = refl
  lookup-erase_ne j k ((i, w) ∷ d) h =
      ground (arith, lookup-erase_ne j k d h, e.beq_iff k i, e.beq_iff j i)

  pub Entries-lookup :
      (P : K → V → Type 0) (k : K) (v : V) (d : Dict K V)
      → Entries P d
      → lookup k d ≡ some v
      → P k v
  Entries-lookup P k v [] h l = cc
  Entries-lookup P k v ((j, w) ∷ d) h l = ground (arith, e.beq_iff k j, Entries-lookup P k v d h.2)

  pub Entries-insert :
      (P : K → V → Type 0) (k : K) (v : V) (d : Dict K V)
      → Entries P d
      → P k v
      → Entries P (insert k v d)
  Entries-insert P k v [] h p = (p, refl, tt)
  Entries-insert P k v ((j, w) ∷ d) h p =
      ground (arith, e.beq_iff k j, Entries-insert P k v d h.2 p, lookup-insert_ne j k v d)

  pub Entries-erase :
      (P : K → V → Type 0) (k : K) (d : Dict K V) → Entries P d → Entries P (erase k d)
  Entries-erase P k [] h = tt
  Entries-erase P k ((j, w) ∷ d) h =
      ground (arith, e.beq_iff k j, Entries-erase P k d h.2, lookup-erase_ne j k d)

  pub lookup-erase_self :
      (P : K → V → Type 0) (k : K) (d : Dict K V) → Entries P d → lookup k (erase k d) ≡ none
  lookup-erase_self P k [] h = refl
  lookup-erase_self P k ((j, w) ∷ d) h = ground (arith, e.beq_iff k j, lookup-erase_self P k d h.2)

  -- Writing back what is stored changes nothing.
  pub insert-found : (k : K) (v : V) (d : Dict K V) → lookup k d ≡ some v → insert k v d ≡ d
  insert-found k v [] found = cc
  insert-found k v ((j, w) ∷ d) found = ground (arith, insert-found k v d)
