-- ===== src/Broker/Delivery.antt =====
-- A client that keeps up with its queue gets every event once and in order
-- (backend/internal/websocket/broker.go).
use sync_space.Base.{
  ℕ, suc, ◌≡◌, refl, sym, ◌∙◌, ap, Option, none, some, List, [], ◌∷◌, ◌++◌, ◌≤◌, arith, nat_eq,
  equal_nat_iff, ◌==◌, if◌then◌else◌, Option-cases, inl, inr,
}
use sync_space.Base.Dict
use sync_space.Base.Dict.{Dict}
use sync_space.Broker.{
  Broker, Call, publishes, subscribes, cancels, reads, publish, subscribe, cancel, read, step, run,
}
use sync_space.Broker.Numbering.{IsNumbered, lookup-publish_all, step-IsNumbered, step-next_id}

module _ {ℓ} {E : Type ℓ} where
  -- The events that a history publishes.
  unfoldable pub published : List (Call E) → List E
  published [] = []
  published (publishes e ∷ cs) = e ∷ published cs
  published (c ∷ cs) = published cs

  abbrev cons_some : Option E → List E → List E
  cons_some none es = es
  cons_some (some e) es = e ∷ es

  abbrev got : Broker E → ℕ → Call E → Option E
  got b id (reads other) = if other == id then (read b other).0 else none
  got b id c = none

  -- The events that the client of a channel reads in a history.
  pub received : Broker E → ℕ → List (Call E) → List E
  received b id [] = []
  received b id (c ∷ cs) = cons_some (got b id c) (received (step b c) id cs)

  append_nil : (es : List E) → es ++ [] ≡ es
  append_nil [] = refl
  append_nil (e ∷ es) = ap (λ t. e ∷ t) (append_nil es)

  append_assoc : (as' bs cs : List E) → (as' ++ bs) ++ cs ≡ as' ++ (bs ++ cs)
  append_assoc [] bs cs = refl
  append_assoc (a ∷ as') bs cs = ap (λ t. a ∷ t) (append_assoc as' bs cs)

  -- What one call leaves of an open channel, with what its client reads by it.
  step-queue :
      (b : Broker E) (c : Call E) (id : ℕ) (queue left : List E)
      → IsNumbered b
      → Dict.lookup id b.subscribers ≡ some queue
      → Dict.lookup id (step b c).subscribers ≡ some left
      → queue ++ published (c ∷ []) ≡ cons_some (got b id c) left
  unfolding step publish subscribe cancel read published
  step-queue b (publishes e) id queue left w before after =
      ground (arith, lookup-publish_all e id b.subscribers w.distinct)
  step-queue b subscribes id queue left w before after =
      let l =
        Dict.Every-lookup (λ id (queue : List E). id ≤ b.next_id) id b.subscribers w.bounded
          before in
      let same = Dict.lookup-insert {V = List E} (suc b.next_id) id [] b.subscribers in
      ground (arith, same, l, append_nil queue, equal_nat_iff (suc b.next_id) id)
  step-queue b (cancels other) id queue left w before after =
      ground (arith, Dict.lookup-erase other id b.subscribers, append_nil queue)
  step-queue b (reads other) id queue left w before after =
      elim (Option-cases (Dict.lookup other b.subscribers)) [
        | inl missing ↦ ground (arith, missing, append_nil queue, equal_nat_iff other id)
        | inr ([], found) ↦ ground (arith, found, append_nil queue, equal_nat_iff other id)
        | inr (e ∷ rest, found) ↦ ground (
          arith,
          found,
          append_nil queue,
          equal_nat_iff other id,
          Dict.lookup-insert other id rest b.subscribers,
        )
      ]

  -- A channel that is closed is never opened again.
  step-closed :
      (b : Broker E) (c : Call E) (id : ℕ)
      → IsNumbered b
      → id ≤ b.next_id
      → Dict.lookup id b.subscribers ≡ none
      → Dict.lookup id (step b c).subscribers ≡ none
  unfolding step publish subscribe cancel read
  step-closed b (publishes e) id w l h =
      ground (arith, lookup-publish_all e id b.subscribers w.distinct)
  step-closed b subscribes id w l h = ground (
    arith,
    Dict.lookup-insert {V = List E} (suc b.next_id) id [] b.subscribers,
    equal_nat_iff (suc b.next_id) id,
  )
  step-closed b (cancels other) id w l h = ground (arith, Dict.lookup-erase other id b.subscribers)
  step-closed b (reads other) id w l h = elim (Option-cases (Dict.lookup other b.subscribers)) [
    | inl missing ↦ ground (arith, missing)
    | inr ([], found) ↦ ground (arith, found)
    | inr (e ∷ rest, found) ↦
        ground
          (arith, found, equal_nat_iff other id, Dict.lookup-insert other id rest b.subscribers)
  ]

  run-closed :
      (b : Broker E) (cs : List (Call E)) (id : ℕ)
      → IsNumbered b
      → id ≤ b.next_id
      → Dict.lookup id b.subscribers ≡ none
      → Dict.lookup id (run b cs).subscribers ≡ none
  unfolding run
  run-closed b [] id w l h = h
  run-closed b (c ∷ cs) id w l h =
      run-closed (step b c) cs id (step-IsNumbered b c w) (omega (arith, l, step-next_id b c))
        (step-closed b c id w l h)

  published-cons :
      (c : Call E) (cs : List (Call E)) → published (c ∷ cs) ≡ published (c ∷ []) ++ published cs
  unfolding published
  published-cons (publishes e) cs = refl
  published-cons subscribes cs = refl
  published-cons (cancels id) cs = refl
  published-cons (reads id) cs = refl

  cons_some-append : (o : Option E) (es fs : List E) → cons_some o es ++ fs ≡ cons_some o (es ++ fs)
  cons_some-append none es fs = refl
  cons_some-append (some e) es fs = refl

  -- If a channel is open before and after a history of a broker that numbers its channels, then what
  -- it held and what the history publishes are, in order, what its client read and what it holds.
  pub run-received :
      (b : Broker E) (cs : List (Call E)) (id : ℕ) (queue left : List E)
      → IsNumbered b
      → Dict.lookup id b.subscribers ≡ some queue
      → Dict.lookup id (run b cs).subscribers ≡ some left
      → queue ++ published cs ≡ received b id cs ++ left
  unfolding run published received
  run-received b [] id queue left w before after = ground (arith, append_nil queue, before, after)
  run-received b (c ∷ cs) id queue left w before after =
      let l =
        Dict.Every-lookup (λ id (queue : List E). id ≤ b.next_id) id b.subscribers w.bounded
          before in
      let w' = step-IsNumbered b c w in
      elim (Option-cases (Dict.lookup id (step b c).subscribers)) [
        | inl shut ↦
            let gone = run-closed (step b c) cs id w' (omega (arith, l, step-next_id b c)) shut in
            ground (arith, gone, after)
        | inr (next, found) ↦
            let here = step-queue b c id queue next w before found in
            let rest = run-received (step b c) cs id next left w' found after in
            ap (λ t. queue ++ t) (published-cons c cs)
            ∙ sym (append_assoc queue (published (c ∷ [])) (published cs))
            ∙ ap (λ t. t ++ published cs) here
            ∙ cons_some-append (got b id c) next (published cs)
            ∙ ap (cons_some (got b id c)) rest
            ∙ sym (cons_some-append (got b id c) (received (step b c) id cs) left)
      ]
