-- ===== src/Broker.antt =====
-- backend/internal/websocket/broker.go: the queues of the connected clients. `E` is the type of the
-- events; `TransferBroker` and `PairingBroker` repeat the same code for theirs. `subscribers` are the
-- open channels, by their contents, and `closed` the closed ones, whose readers may still drain them.
-- The lock makes each operation one step; a client's reads are steps of their own.
pub mod Numbering
pub mod Delivery
mod Tests
use sync_space.Base.{
  ℕ, suc, Option, none, some, List, [], ◌∷◌, ◌++◌, length, ltb, if◌then◌else◌, nat_eq,
}
use sync_space.Base.Dict
use sync_space.Base.Dict.{Dict}

abbrev pub subscriber_buffer : ℕ
subscriber_buffer = 64

module _ {ℓ} (E : Type ℓ) where
  pub record Broker : Type ℓ where
    pub subscribers : Dict ℕ (List E)
    pub closed : Dict ℕ (List E)
    pub next_id : ℕ

  abbrev pub new_broker : Broker
  new_broker = record { subscribers = []; closed = []; next_id = 0 }

  pub data Call : Type ℓ where
    publishes : E → Call
    subscribes : Call
    cancels : ℕ → Call
    reads : ℕ → Call

module _ {ℓ} {E : Type ℓ} where
  -- The loop of `Publish`: the channels that take the event, and those that it closes.
  pub publish_all : E → Dict ℕ (List E) → Dict ℕ (List E) × Dict ℕ (List E)
  publish_all e [] = ([], [])
  publish_all e ((id, queue) ∷ rest) =
      let (kept, shut) = publish_all e rest in
      if ltb (length queue) subscriber_buffer
      then ((id, queue ++ e ∷ []) ∷ kept, shut)
      else (kept, (id, queue) ∷ shut)

  pub publish : Broker E → E → Broker E
  unfolding publish_all
  publish b e =
      let (kept, shut) = publish_all e b.subscribers in
      record b { subscribers = kept; closed = shut ++ b.closed }

  -- The new channel is the one of the new `next_id`.
  pub subscribe : Broker E → Broker E
  subscribe b =
      let id = suc b.next_id in
      record b { subscribers = Dict.insert id [] b.subscribers; next_id = id }

  -- The function that `Subscribe` returns; a second call finds nothing to close.
  pub cancel : Broker E → ℕ → Broker E
  cancel b id = elim (Dict.lookup id b.subscribers) [
    | none ↦ b
    | some queue ↦ record b {
      subscribers = Dict.erase id b.subscribers;
      closed = Dict.insert id queue b.closed;
    }
  ]

  -- A client's read of its channel; none where it would wait or finds the channel closed and empty.
  pub read : Broker E → ℕ → Option E × Broker E
  read b id = elim (Dict.lookup id b.subscribers) [
    | some [] ↦ (none, b)
    | some (e ∷ queue) ↦ (some e, record b { subscribers = Dict.insert id queue b.subscribers })
    | none ↦ elim (Dict.lookup id b.closed) [
      | some (e ∷ queue) ↦ (some e, record b { closed = Dict.insert id queue b.closed })
      | _ ↦ (none, b)
    ]
  ]

  pub step : Broker E → Call E → Broker E
  step b (publishes e) = publish b e
  step b subscribes = subscribe b
  step b (cancels id) = cancel b id
  step b (reads id) = (read b id).1

  pub run : Broker E → List (Call E) → Broker E
  run b [] = b
  run b (c ∷ cs) = run (step b c) cs
