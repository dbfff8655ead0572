-- ===== src/Broker/Numbering.antt =====
-- The numbers of the channels (backend/internal/websocket/broker.go): each is given out once.
use sync_space.Base.{
  ℕ, suc, ◌≡◌, refl, Option, none, some, List, [], ◌∷◌, ◌++◌, length, ltb, ◌≤◌, arith, nat_eq,
  equal_nat_iff, if◌then◌else◌, Option-cases, inl, inr,
}
use sync_space.Base.Dict
use sync_space.Base.Dict.{Dict}
use sync_space.Broker.{
  Broker, Call, publishes, subscribes, cancels, reads, subscriber_buffer, publish_all, publish,
  subscribe, cancel, read, step,
}

module _ {ℓ} {E : Type ℓ} where
  -- One entry for a channel, and no channel from after the last number given out.
  pub record IsNumbered (b : Broker E) : Type ℓ where
    pub distinct : Dict.Distinct b.subscribers
    pub bounded : Dict.Every (λ id queue. id ≤ b.next_id) b.subscribers

  abbrev pub taken : E → Option (List E) → Option (List E)
  taken e none = none
  taken e (some queue) =
      if ltb (length queue) subscriber_buffer then some (queue ++ e ∷ []) else none

  pub lookup-publish_all :
      (e : E) (id : ℕ) (ds : Dict ℕ (List E))
      → Dict.Distinct ds
      → Dict.lookup id (publish_all e ds).0 ≡ taken e (Dict.lookup id ds)
  unfolding publish_all Dict.lookup
  lookup-publish_all e id [] h = refl
  lookup-publish_all e id ((j, queue) ∷ ds) h =
      ground (arith, equal_nat_iff j id, h.0, lookup-publish_all e id ds h.1)

  publish_all-Distinct :
      (e : E) (ds : Dict ℕ (List E)) → Dict.Distinct ds → Dict.Distinct (publish_all e ds).0
  unfolding publish_all
  publish_all-Distinct e [] h = tt
  publish_all-Distinct e ((j, queue) ∷ ds) h =
      ground (arith, lookup-publish_all e j ds h.1, publish_all-Distinct e ds h.1)

  publish_all-bounded :
      (e : E) (n : ℕ) (ds : Dict ℕ (List E))
      → Dict.Every (λ id queue. id ≤ n) ds
      → Dict.Every (λ id queue. id ≤ n) (publish_all e ds).0
  unfolding publish_all
  publish_all-bounded e n [] h = tt
  publish_all-bounded e n ((j, queue) ∷ ds) h = ground (arith, publish_all-bounded e n ds h.1)

  bounded-weaken :
      (m n : ℕ) (ds : Dict ℕ (List E))
      → m ≤ n
      → Dict.Every (λ id queue. id ≤ m) ds
      → Dict.Every (λ id queue. id ≤ n) ds
  bounded-weaken m n [] l h = tt
  bounded-weaken m n ((j, queue) ∷ ds) l h = (omega (arith, l, h.0), bounded-weaken m n ds l h.1)

  bounded-insert :
      (n id : ℕ) (queue : List E) (ds : Dict ℕ (List E))
      → id ≤ n
      → Dict.Every (λ id queue. id ≤ n) ds
      → Dict.Every (λ id queue. id ≤ n) (Dict.insert id queue ds)
  bounded-insert n id queue ds l h = Dict.Every-insert (λ id queue. id ≤ n) id queue ds l h

  IsNumbered-by :
      (b : Broker E) (n : ℕ) (ds : Dict ℕ (List E))
      → b.subscribers ≡ ds
      → b.next_id ≡ n
      → Dict.Distinct ds
      → Dict.Every (λ id queue. id ≤ n) ds
      → IsNumbered b
  IsNumbered-by b n ds es en d h = record { distinct = rw es d; bounded = rw (es, en) h }

  read-IsNumbered : (b : Broker E) (id : ℕ) → IsNumbered b → IsNumbered (read b id).1
  unfolding read
  read-IsNumbered b id w = elim (Option-cases (Dict.lookup id b.subscribers)) [
    | inl missing ↦
        IsNumbered-by (read b id).1 b.next_id b.subscribers (ground (arith, missing))
          (ground (arith, missing)) w.distinct w.bounded
    | inr ([], found) ↦
        IsNumbered-by (read b id).1 b.next_id b.subscribers (ground (arith, found))
          (ground (arith, found)) w.distinct w.bounded
    | inr (e ∷ queue, found) ↦
        let l =
          Dict.Every-lookup (λ id (queue : List E). id ≤ b.next_id) id b.subscribers w.bounded
            found in
        IsNumbered-by (read b id).1 b.next_id (Dict.insert id queue b.subscribers)
          (ground (arith, found)) (ground (arith, found))
          (Dict.insert-Distinct id queue b.subscribers w.distinct)
          (bounded-insert b.next_id id queue b.subscribers l w.bounded)
  ]

  pub step-IsNumbered : (b : Broker E) (c : Call E) → IsNumbered b → IsNumbered (step b c)
  unfolding step publish subscribe cancel
  step-IsNumbered b (publishes e) w = record {
    distinct = publish_all-Distinct e b.subscribers w.distinct;
    bounded = publish_all-bounded e b.next_id b.subscribers w.bounded;
  }
  step-IsNumbered b subscribes w = record {
    distinct = Dict.insert-Distinct (suc b.next_id) [] b.subscribers w.distinct;
    bounded =
        bounded-insert (suc b.next_id) (suc b.next_id) [] b.subscribers (omega arith)
          (bounded-weaken b.next_id (suc b.next_id) b.subscribers (omega arith) w.bounded);
  }
  step-IsNumbered b (cancels id) w = elim (Option-cases (Dict.lookup id b.subscribers)) [
    | inl missing ↦
        IsNumbered-by (cancel b id) b.next_id b.subscribers (ground (arith, missing))
          (ground (arith, missing)) w.distinct w.bounded
    | inr (queue, found) ↦
        IsNumbered-by (cancel b id) b.next_id (Dict.erase id b.subscribers) (ground (arith, found))
          (ground (arith, found)) (Dict.erase-Distinct id b.subscribers w.distinct)
          (Dict.Every-erase (λ id (queue : List E). id ≤ b.next_id) id b.subscribers w.bounded)
  ]
  step-IsNumbered b (reads id) w = read-IsNumbered b id w

  pub step-next_id : (b : Broker E) (c : Call E) → b.next_id ≤ (step b c).next_id
  unfolding step publish subscribe cancel read
  step-next_id b (publishes e) = omega arith
  step-next_id b subscribes = omega arith
  step-next_id b (cancels id) = ground arith
  step-next_id b (reads id) = ground arith
