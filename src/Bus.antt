-- ===== src/Bus.antt =====
-- core/internal/bus/bus.go: the event bus. A channel is its buffer with its capacity; the events are of
-- any type. What the rest of a closed channel holds is not modelled.
pub mod Delivery
use dankmail.Base.{
  ℕ, suc, Bool, List, [], ◌∷◌, ◌++◌, Option, none, some, ltb, if◌then◌else◌, length, lookup, insert,
  remove, nat_eq,
}

pub record Subscription (E : Type 0) : Type 0 where
  pub capacity : ℕ
  pub buffer : List E

pub record Bus (E : Type 0) : Type 0 where
  pub subs : List (ℕ × Subscription E)
  pub next : ℕ

abbrev pub capacity_of : ℕ → ℕ
capacity_of buffer = if ltb buffer 1 then 16 else buffer

-- What the users of a bus do.
pub data Action (E : Type 0) : Type 0 where
  publishes : E → Action E
  subscribes unsubscribes receives : ℕ → Action E

module _ {E : Type 0} where
  abbrev pub new_bus : Bus E
  new_bus = record { subs = []; next = 0 }

  -- The `select` with a default: a full buffer misses the event.
  unfoldable pub offer : E → Subscription E → Subscription E
  offer ev s =
      if ltb (length s.buffer) s.capacity then record s { buffer = s.buffer ++ (ev ∷ []) } else s

  unfoldable pub offer_all : E → List (ℕ × Subscription E) → List (ℕ × Subscription E)
  unfolding offer
  offer_all ev [] = []
  offer_all ev (entry ∷ rest) = (entry.0, offer ev entry.1) ∷ offer_all ev rest

  unfoldable pub publish_event : E → Bus E → Bus E
  unfolding offer_all
  publish_event ev b = record b { subs = offer_all ev b.subs }

  -- The id of the subscription, and the bus.
  unfoldable pub subscribe : ℕ → Bus E → ℕ × Bus E
  subscribe buffer b = (
    b.next,
    record {
      subs = insert b.next (record { capacity = capacity_of buffer; buffer = [] }) b.subs;
      next = suc b.next;
    },
  )

  unfoldable pub unsubscribe : ℕ → Bus E → Bus E
  unsubscribe id b = record b { subs = remove id b.subs }

  -- A receive from the channel of a subscription, where there is an event.
  unfoldable pub receive : ℕ → Bus E → Option E × Bus E
  receive id b = elim (lookup id b.subs) [
    | none ↦ (none, b)
    | some s ↦ elim s.buffer [
      | [] ↦ (none, b)
      | ev ∷ later ↦ (some ev, record b { subs = insert id (record s { buffer = later }) b.subs })
    ]
  ]

  unfoldable pub act : Action E → Bus E → Bus E
  unfolding publish_event subscribe unsubscribe receive
  act (publishes ev) b = publish_event ev b
  act (subscribes buffer) b = (subscribe buffer b).1
  act (unsubscribes id) b = unsubscribe id b
  act (receives id) b = (receive id b).1

  unfoldable pub act_all : List (Action E) → Bus E → Bus E
  unfolding act
  act_all [] b = b
  act_all (a ∷ more) b = act_all more (act a b)
