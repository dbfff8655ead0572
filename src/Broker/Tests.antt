-- ===== src/Broker/Tests.antt =====
-- The delivery to a concrete client (backend/internal/websocket/broker.go).
use sync_space.Base.{ℕ, List, [], ◌∷◌, ◌++◌, ◌≡◌, refl, some, arith, nat_eq}
use sync_space.Base.Dict
use sync_space.Broker.{
  Broker, Call, publishes, subscribes, cancels, reads, run, step, publish, publish_all, subscribe,
  cancel, read,
}
use sync_space.Broker.Numbering.{IsNumbered}
use sync_space.Broker.Delivery.{published, received, run-received}

abbrev subscribed : Broker ℕ
subscribed = record { subscribers = (1, []) ∷ []; closed = []; next_id = 1 }

subscribed-IsNumbered : IsNumbered subscribed
unfolding Dict.lookup
subscribed-IsNumbered = record { distinct = (refl, tt); bounded = (omega arith, tt) }

abbrev traffic : List (Call ℕ)
traffic = publishes 7 ∷ subscribes ∷ publishes 8 ∷ reads 1 ∷ cancels 2 ∷ publishes 9 ∷ []

left_over : Dict.lookup 1 (run subscribed traffic).subscribers ≡ some (8 ∷ 9 ∷ [])
unfolding run step publish publish_all subscribe cancel read Dict.lookup Dict.insert Dict.erase
left_over = refl

run-received_example : 7 ∷ 8 ∷ 9 ∷ [] ≡ received subscribed 1 traffic ++ 8 ∷ 9 ∷ []
unfolding published Dict.lookup
run-received_example =
    run-received subscribed traffic 1 [] (8 ∷ 9 ∷ []) subscribed-IsNumbered refl left_over
