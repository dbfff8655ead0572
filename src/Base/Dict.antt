-- ===== src/Base/Dict.antt =====
-- Go maps as association lists: one entry for a key, in some order (Go leaves the order open).
use sync_space.Base.{HasEquals, ◌==◌, if◌then◌else◌, Bool-cases}
use mathlib.Core.Path.{◌≡◌, refl, subst₂}
use mathlib.Core.Logic.{inl, inr}
use mathlib.Core.Bool.{Bool, true, false}
use mathlib.Core.Option.{Option, none, some}
use mathlib.Core.List.{List, [], ◌∷◌}
use native.Mathlib.Omega.{arith}

abbrev pub Dict {ℓ κ} : Type ℓ → Type κ → Type (ℓ ⊔ κ)
Dict K V = List (K × V)

module _ {ℓ κ} {K : Type ℓ} {V : Type κ} ⦃e : HasEquals K⦄ where
  unfoldable pub lookup : K → Dict K V → Option V
  lookup k [] = none
  lookup k ((j, v) ∷ d) = if j == k then some v else lookup k d

  -- `m[k] = v`
  unfoldable pub insert : K → V → Dict K V → Dict K V
  insert k v [] = (k, v) ∷ []
  insert k v ((j, w) ∷ d) = if j == k then (k, v) ∷ d else (j, w) ∷ insert k v d

  -- `delete(m, k)`
  unfoldable pub erase : K → Dict K V → Dict K V
  erase k [] = []
  erase k ((j, w) ∷ d) = let rest = erase k d in if j == k then rest else (j, w) ∷ rest

  pub lookup-insert :
      (k j : K) (v : V) (d : Dict K V)
      → lookup j (insert k v d) ≡ (if k == j then some v else lookup j d)
  unfolding lookup insert
  lookup-insert k j v [] = refl
  lookup-insert k j v ((i, w) ∷ d) =
      ground (arith, e.equals_iff k j, e.equals_iff i k, e.equals_iff i j, lookup-insert k j v d)

  pub lookup-erase :
      (k j : K) (d : Dict K V) → lookup j (erase k d) ≡ (if k == j then none else lookup j d)
  unfolding lookup erase
  lookup-erase k j [] = ground arith
  lookup-erase k j ((i, w) ∷ d) =
      ground (arith, e.equals_iff k j, e.equals_iff i k, e.equals_iff i j, lookup-erase k j d)

  pub lookup-insert_self : (k : K) (v : V) (d : Dict K V) → lookup k (insert k v d) ≡ some v
  lookup-insert_self k v d = ground (arith, lookup-insert k k v d, e.equals_iff k k)

  pub lookup-erase_self : (k : K) (d : Dict K V) → lookup k (erase k d) ≡ none
  lookup-erase_self k d = ground (arith, lookup-erase k k d, e.equals_iff k k)

  -- No key has two entries.
  abbrev pub Distinct : Dict K V → Type κ
  Distinct [] = Unit
  Distinct ((k, v) ∷ d) = (lookup k d ≡ none) × Distinct d

  pub insert-Distinct : (k : K) (v : V) (d : Dict K V) → Distinct d → Distinct (insert k v d)
  unfolding lookup insert
  insert-Distinct k v [] h = (refl, tt)
  insert-Distinct k v ((j, w) ∷ d) h =
      ground (
        arith,
        e.equals_iff j k,
        e.equals_iff k j,
        insert-Distinct k v d h.1,
        lookup-insert k j v d,
      )

  pub erase-Distinct : (k : K) (d : Dict K V) → Distinct d → Distinct (erase k d)
  unfolding erase
  erase-Distinct k [] h = tt
  erase-Distinct k ((j, w) ∷ d) h =
      ground (arith, e.equals_iff j k, e.equals_iff k j, erase-Distinct k d h.1, lookup-erase k j d)

-- A property of every entry.
module _ {ℓ κ μ} {K : Type ℓ} {V : Type κ} ⦃e : HasEquals K⦄ (P : K → V → Type μ) where
  abbrev pub Every : Dict K V → Type μ
  Every [] = Unit
  Every ((k, v) ∷ d) = P k v × Every d

  pub Every-lookup : (k : K) (d : Dict K V) {v : V} → Every d → lookup k d ≡ some v → P k v
  unfolding lookup
  Every-lookup k [] h p = cc
  Every-lookup k ((j, w) ∷ d) {v} h p = elim (Bool-cases (j == k)) [
    | inl hit ↦ let found : w ≡ v = ground arith in subst₂ P ((e.equals_iff j k).0 hit) found h.0
    | inr miss ↦ Every-lookup k d h.1 (rw miss at p)
  ]

  pub Every-insert : (k : K) (v : V) (d : Dict K V) → P k v → Every d → Every (insert k v d)
  unfolding insert
  Every-insert k v [] p h = (p, tt)
  Every-insert k v ((j, w) ∷ d) p h = ground (arith, Every-insert k v d p h.1)

  pub Every-erase : (k : K) (d : Dict K V) → Every d → Every (erase k d)
  unfolding erase
  Every-erase k [] h = tt
  Every-erase k ((j, w) ∷ d) h = ground (arith, Every-erase k d h.1)

  pub Every-if : (t : Bool) (c d : Dict K V) → Every c → Every d → Every (if t then c else d)
  Every-if true c d hc hd = hc
  Every-if false c d hc hd = hd
