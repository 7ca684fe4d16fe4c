-- ===== src/Events.antt =====
-- The event hub of server/data/store/app/events.py: the queues of the clients, and the steps of the hub and of its
-- clients. An asyncio.Queue is the list of what it holds, and a maximal size of 0 is none.
pub mod Served
pub mod Delivery
mod Tests
use trader_joe.Base.{
  ℕ, zero, suc, ◌+◌, Bool, true, false, not, ◌&&◌, Option, none, some, List, [], ◌∷◌, ◌++◌, map,
  length, leb, ◌==◌, if◌then◌else◌,
}

-- What a queue holds: an event, or the sentinel that ends it.
pub data Item {ℓ} (A : Type ℓ) : Type ℓ where
  event : A → Item A
  dropped_item : Item A

-- A client's queue, whether it was dropped, and whether the hub holds it. The id is the object's identity.
pub record Subscription {ℓ} (A : Type ℓ) : Type ℓ where
  pub id : ℕ
  pub queue : List (Item A)
  pub dropped : Bool
  pub subscribed : Bool

-- `subscriptions` has those that have left the hub too, as their clients still hold them.
pub record EventHub {ℓ} (A : Type ℓ) : Type ℓ where
  pub queue_size : ℕ
  pub subscriptions : List (Subscription A)
  pub next_id : ℕ

module _ {ℓ} {A : Type ℓ} where
  abbrev pub event_hub : ℕ → EventHub A
  event_hub queue_size = record { queue_size = queue_size; subscriptions = []; next_id = 0 }

  -- `Queue.full`
  abbrev pub is_full : ℕ → List (Item A) → Bool
  is_full size queue = not (size == 0) && leb size (length queue)

  -- `_offer`
  unfoldable pub offer : ℕ → A → Subscription A → Subscription A
  offer size e s =
      if s.dropped
      then s
      else if is_full size s.queue
      then record s { dropped = true; queue = dropped_item ∷ [] }
      else record s { queue = s.queue ++ (event e ∷ []) }

  abbrev pub discard_if_dropped : Subscription A → Subscription A
  discard_if_dropped s = if s.dropped then record s { subscribed = false } else s

  -- What `publish` does with one subscriber.
  unfoldable pub publish_to : ℕ → A → Subscription A → Subscription A
  unfolding offer
  publish_to size e s = if s.subscribed then discard_if_dropped (offer size e s) else s

  unfoldable pub publish : A → EventHub A → EventHub A
  unfolding publish_to
  publish e hub = record hub { subscriptions = map (publish_to hub.queue_size e) hub.subscriptions }

  abbrev pub subscription : ℕ → Subscription A
  subscription id = record { id = id; queue = []; dropped = false; subscribed = true }

  unfoldable pub subscribe : EventHub A → EventHub A × ℕ
  subscribe hub = (
    record hub {
      subscriptions = subscription hub.next_id ∷ hub.subscriptions;
      next_id = hub.next_id + 1;
    },
    hub.next_id,
  )

  abbrev pub leave : ℕ → Subscription A → Subscription A
  leave id s = if s.id == id then record s { subscribed = false } else s

  unfoldable pub unsubscribe : ℕ → EventHub A → EventHub A
  unsubscribe id hub = record hub { subscriptions = map (leave id) hub.subscriptions }

  -- `get` on a queue that holds something takes its first item.
  abbrev pub without_first : List (Item A) → List (Item A)
  without_first [] = []
  without_first (i ∷ is) = is

  abbrev pub take_first : ℕ → Subscription A → Subscription A
  take_first id s = if s.id == id then record s { queue = without_first s.queue } else s

  abbrev pub find : ℕ → List (Subscription A) → Option (Subscription A)
  find id [] = none
  find id (s ∷ ss) = let rest = find id ss in if s.id == id then some s else rest

  -- What `get` returns: none for the sentinel. On an empty queue it waits, and the step is none.
  abbrev pub first_item : List (Item A) → Option (Option A)
  first_item [] = none
  first_item (event e ∷ is) = some (some e)
  first_item (dropped_item ∷ is) = some none

  abbrev pub got_from : Option (Subscription A) → Option (Option A)
  got_from none = none
  got_from (some s) = first_item s.queue

  unfoldable pub get : ℕ → EventHub A → EventHub A × Option (Option A)
  get id hub = (
    record hub { subscriptions = map (take_first id) hub.subscriptions },
    got_from (find id hub.subscriptions),
  )

  -- `subscriber_count`
  abbrev pub count_subscribed : List (Subscription A) → ℕ
  count_subscribed [] = 0
  count_subscribed (s ∷ ss) =
      let rest = count_subscribed ss in if s.subscribed then suc rest else rest

  unfoldable pub subscriber_count : EventHub A → ℕ
  subscriber_count hub = count_subscribed hub.subscriptions
