-- ===== src/Network/Preferred.antt =====
-- What the chosen interface is (backend/internal/discovery/network.go).
use sync_space.Base.{
  ◌≤◌, String, true, false, some, List, [], ◌∷◌, ◌≡◌, refl, ap, arith, if◌then◌else◌, nat_eq,
  equal_nat_iff, Bool-cases, inl, inr, ◌⊎◌, All,
}
use mathlib.Core.Path.{subst, sym}
use sync_space.Network.{
  InterfaceAddress, is_eligible, score_interface, eligible_of, is_preferred, first_of,
  select_preferred_interface,
}

List-cases {ℓ} :
    {A : Type ℓ} (xs : List A) → (xs ≡ []) ⊎ ((x : A) × (rest : List A) × (xs ≡ x ∷ rest))
List-cases [] = inl refl
List-cases (x ∷ rest) = inr (x, rest, refl)

module _ (to_lower : String → String) where
  abbrev pub IsMember : InterfaceAddress → List InterfaceAddress → Type 0
  IsMember a [] = ⊥
  IsMember a (b ∷ rest) = (a ≡ b) ⊎ IsMember a rest

  -- An entry whose score is at most another's.
  abbrev pub IsBelow : InterfaceAddress → InterfaceAddress → Type 0
  IsBelow best a = score_interface to_lower a ≤ score_interface to_lower best

  preferred-le :
      (a b : InterfaceAddress)
      → is_preferred to_lower b a ≡ true
      → score_interface to_lower a ≤ score_interface to_lower b
  preferred-le a b h =
      ground (arith, h, equal_nat_iff (score_interface to_lower b) (score_interface to_lower a))

  unpreferred-le :
      (a b : InterfaceAddress)
      → is_preferred to_lower b a ≡ false
      → score_interface to_lower b ≤ score_interface to_lower a
  unpreferred-le a b h =
      ground (arith, h, equal_nat_iff (score_interface to_lower b) (score_interface to_lower a))

  first_of-better :
      (a b : InterfaceAddress) (rest : List InterfaceAddress)
      → is_preferred to_lower b a ≡ true
      → first_of to_lower a (b ∷ rest) ≡ first_of to_lower b rest
  unfolding first_of
  first_of-better a b rest h = ap (λ t. first_of to_lower (if t then b else a) rest) h

  first_of-worse :
      (a b : InterfaceAddress) (rest : List InterfaceAddress)
      → is_preferred to_lower b a ≡ false
      → first_of to_lower a (b ∷ rest) ≡ first_of to_lower a rest
  unfolding first_of
  first_of-worse a b rest h = ap (λ t. first_of to_lower (if t then b else a) rest) h

  first_of-All :
      (a : InterfaceAddress) (rest : List InterfaceAddress)
      → All (IsBelow (first_of to_lower a rest)) (a ∷ rest)
  unfolding first_of
  first_of-All a [] = (omega arith, tt)
  first_of-All a (b ∷ rest) = elim (Bool-cases (is_preferred to_lower b a)) [
    | inl better ↦
        let (first, others) = first_of-All b rest in
        subst (λ x. All (IsBelow x) (a ∷ b ∷ rest)) (sym (first_of-better a b rest better))
          (omega (arith, first, preferred-le a b better), (first, others))
    | inr worse ↦
        let (first, others) = first_of-All a rest in
        subst (λ x. All (IsBelow x) (a ∷ b ∷ rest)) (sym (first_of-worse a b rest worse))
          (first, (omega (arith, first, unpreferred-le a b worse), others))
  ]

  skip :
      (x a b : InterfaceAddress) (rest : List InterfaceAddress)
      → IsMember x (a ∷ rest)
      → IsMember x (a ∷ b ∷ rest)
  skip x a b rest (inl same) = inl same
  skip x a b rest (inr later) = inr (inr later)

  first_of-IsMember :
      (a : InterfaceAddress) (rest : List InterfaceAddress)
      → IsMember (first_of to_lower a rest) (a ∷ rest)
  unfolding first_of
  first_of-IsMember a [] = inl refl
  first_of-IsMember a (b ∷ rest) = elim (Bool-cases (is_preferred to_lower b a)) [
    | inl better ↦
        subst (λ x. IsMember x (a ∷ b ∷ rest)) (sym (first_of-better a b rest better))
          (inr (first_of-IsMember b rest))
    | inr worse ↦
        subst (λ x. IsMember x (a ∷ b ∷ rest)) (sym (first_of-worse a b rest worse))
          (skip (first_of to_lower a rest) a b rest (first_of-IsMember a rest))
  ]

  eligible_of-IsMember :
      (a : InterfaceAddress) (candidates : List InterfaceAddress)
      → IsMember a (eligible_of to_lower candidates)
      → IsMember a candidates × (is_eligible to_lower a ≡ true)
  unfolding eligible_of
  eligible_of-IsMember a [] h = absurd h
  eligible_of-IsMember a (b ∷ rest) h = elim (Bool-cases (is_eligible to_lower b)) [
    | inl good ↦
        let listed : IsMember a (b ∷ eligible_of to_lower rest) = rw good at h in
        elim listed [
          | inl same ↦ (inl same, subst (λ x. is_eligible to_lower x ≡ true) (sym same) good)
          | inr later ↦ let (member, fit) = eligible_of-IsMember a rest later in (inr member, fit)
        ]
    | inr bad ↦ let (member, fit) = eligible_of-IsMember a rest (rw bad at h) in (inr member, fit)
  ]

  -- The interface that is chosen is one of the candidates, is up, no loopback, not obviously virtual and
  -- has a usable address, and no candidate of which that holds has a higher score.
  pub select_preferred_interface_lem :
      (candidates : List InterfaceAddress) (a : InterfaceAddress)
      → select_preferred_interface to_lower candidates ≡ some a
      → IsMember a candidates
        × (is_eligible to_lower a ≡ true)
        × All (IsBelow a) (eligible_of to_lower candidates)
  unfolding select_preferred_interface
  select_preferred_interface_lem candidates a h =
      elim (List-cases (eligible_of to_lower candidates)) [
        | inl nothing ↦ ground (arith, nothing, h)
        | inr (b, rest, some_fit) ↦
            let same : first_of to_lower b rest ≡ a = ground (arith, some_fit, h) in
            let member : IsMember a (eligible_of to_lower candidates) =
              rw some_fit (subst (λ x. IsMember x (b ∷ rest)) same (first_of-IsMember b rest)) in
            let (listed, fit) = eligible_of-IsMember a candidates member in
            (
              listed,
              fit,
              rw some_fit (subst (λ x. All (IsBelow x) (b ∷ rest)) same (first_of-All b rest)),
            )
      ]
