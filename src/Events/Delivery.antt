-- ===== src/Events/Delivery.antt =====
-- What a client of the hub gets of what was published, over any sequence of steps.
use trader_joe.Base.{
  ℕ, ◌+◌, ◌<◌, ◌≡◌, inl, inr, refl, subst, Bool, true, false, Option, none, some, List, [], ◌∷◌,
  map, arith, ◌==◌, if◌then◌else◌, Bool-cases,
}
use trader_joe.Events.{
  Item, Subscription, EventHub, is_full, offer, publish_to, publish, subscription, subscribe, leave,
  unsubscribe, take_first, find, get,
}
use trader_joe.Events.Served.{
  Step, publishes, subscribes, unsubscribes, gets, step, sent_after, seen_after, Run, start,
  stepped, IsServed, publish_to-IsServed, take-IsServed, leave-IsServed,
}

same_id : (x i id : ℕ) (b : Bool) → (x == id) ≡ true → (i == id) ≡ b → (x == i) ≡ b
same_id x i id true h k = ground (arith, h, k)
same_id x i id false h k = ground (arith, h, k)

module _ {ℓ} {A : Type ℓ} where
  abbrev KeepsId : (Subscription A → Subscription A) → Type ℓ
  KeepsId f = (s : Subscription A) → (f s).id ≡ s.id

  abbrev on_some :
      (Subscription A → Subscription A) → Option (Subscription A) → Option (Subscription A)
  on_some f none = none
  on_some f (some s) = some (f s)

  find-map :
      (id : ℕ) (f : Subscription A → Subscription A) (keeps : KeepsId f)
      (ss : List (Subscription A))
      → find id (map f ss) ≡ on_some f (find id ss)
  find-map id f keeps [] = refl
  find-map id f keeps (s ∷ ss) = elim (Bool-cases (s.id == id)) [
    | inl h ↦ rw (h, same_test h) refl
    | inr h ↦ rw (h, same_test h, find-map id f keeps ss) refl
  ]
    where
      same_test : {b : Bool} → (s.id == id) ≡ b → ((f s).id == id) ≡ b
      same_test h = rw (keeps s) h

  find-id :
      (id : ℕ) (ss : List (Subscription A)) (s : Subscription A)
      → find id ss ≡ some s
      → (s.id == id) ≡ true
  find-id id [] s h = absurd (cc)
  find-id id (t ∷ ts) s h = elim (Bool-cases (t.id == id)) [
    | inl k ↦
        let same : some t ≡ some s = rw k at h in
        subst (λ (x : Option (Subscription A)). (id_or id x == id) ≡ true) same k
    | inr k ↦ find-id id ts s (rw k at h)
  ]
    where
      id_or : ℕ → Option (Subscription A) → ℕ
      id_or i none = i
      id_or i (some x) = x.id

  -- What is known of the client of an id, before it is issued and after.
  abbrev Serves : ℕ → ℕ → ℕ → Option (Subscription A) → List A → List A → Type ℓ
  Serves size id next none sent seen = (sent ≡ []) × (seen ≡ [])
  Serves size id next (some s) sent seen =
      IsServed size s sent seen × (id < next) × ((s.id == id) ≡ true)

  publish_to-id : (size : ℕ) (e : A) → KeepsId (publish_to size e)
  unfolding publish_to offer
  publish_to-id size e s = kept s.id s.queue s.dropped s.subscribed
    where
      kept :
          (id : ℕ) (queue : List (Item A)) (dropped subscribed : Bool)
          → (publish_to size e
              (record { id = id; queue = queue; dropped = dropped; subscribed = subscribed })).id
            ≡ id
      kept id queue dropped false = refl
      kept id queue true true = refl
      kept id queue false true = elim (Bool-cases (is_full size queue)) [
        | inl h ↦ rw h refl
        | inr h ↦ rw h refl
      ]

  publish-Serves :
      (size id next : ℕ) (e : A) (found : Option (Subscription A)) (sent seen : List A)
      → Serves size id next found sent seen
      → Serves size id next
          (on_some (publish_to size e) found)
          (sent_after (publishes e) found sent)
          seen
  publish-Serves size id next e none sent seen h = h
  publish-Serves size id next e (some s) sent seen (served, issued, is) = (
    publish_to-IsServed size e s.id s.queue s.dropped s.subscribed sent seen served,
    issued,
    rw (publish_to-id size e s) is,
  )

  subscribe-Serves :
      (size id next : ℕ) (found : Option (Subscription A)) (sent seen : List A)
      → Serves size id next found sent seen
      → Serves size id (next + 1) (if next == id then some (subscription next) else found) sent seen
  subscribe-Serves size id next none sent seen (s, g) = elim (Bool-cases (next == id)) [
    | inl h ↦ rw h (inl (refl, ([], refl, rw (s, g) refl, ground arith)), ground (arith, h), h)
    | inr h ↦ rw h (s, g)
  ]
  subscribe-Serves size id next (some s) sent seen (served, issued, is) =
      let other : (next == id) ≡ false = ground (arith, issued) in
      rw other (served, omega (arith, issued), is)

  leave-id : (i : ℕ) → KeepsId (leave i)
  leave-id i s = elim (Bool-cases (s.id == i)) [ inl h ↦ rw h refl | inr h ↦ rw h refl ]

  leave-Serves :
      (size id next i : ℕ) (found : Option (Subscription A)) (sent seen : List A)
      → Serves size id next found sent seen
      → Serves size id next (on_some (leave i) found) sent seen
  leave-Serves size id next i none sent seen h = h
  leave-Serves size id next i (some s) sent seen (served, issued, is) =
      elim (Bool-cases (s.id == i)) [
        | inl h ↦
            rw h
              (leave-IsServed size s.id s.queue s.dropped s.subscribed sent seen served, issued, is)
        | inr h ↦ rw h (served, issued, is)
      ]

  take_first-id : (i : ℕ) → KeepsId (take_first i)
  take_first-id i s = elim (Bool-cases (s.id == i)) [ inl h ↦ rw h refl | inr h ↦ rw h refl ]

  get-Serves :
      (size id next i : ℕ) (found : Option (Subscription A)) (sent seen : List A)
      → Serves size id next found sent seen
      → Serves size id next (on_some (take_first i) found) sent (seen_after id (gets i) found seen)
  get-Serves size id next i none sent seen (s, g) = elim (Bool-cases (i == id)) [
    | inl h ↦ rw h (s, g)
    | inr h ↦ rw h (s, g)
  ]
  get-Serves size id next i (some s) sent seen (served, issued, is) = elim (Bool-cases (i == id)) [
    | inl h ↦
        rw (h, same_id s.id i id true is h)
          (take-IsServed size s.id s.queue s.dropped s.subscribed sent seen served, issued, is)
    | inr h ↦ rw (h, same_id s.id i id false is h) (served, issued, is)
  ]

  step-Serves :
      (size id : ℕ) (hub : EventHub A) (s : Step A) (sent seen : List A)
      → (hub.queue_size ≡ size) × Serves size id hub.next_id (find id hub.subscriptions) sent seen
      → let found = find id hub.subscriptions in
        ((step s hub).queue_size ≡ size)
        × Serves size id
            (step s hub).next_id
            (find id (step s hub).subscriptions)
            (sent_after s found sent)
            (seen_after id s found seen)
  unfolding step publish subscribe unsubscribe get
  step-Serves size id hub (publishes e) sent seen (q, h) = (
    q,
    rw (q, find-map id (publish_to size e) (publish_to-id size e) hub.subscriptions)
        (publish-Serves size id hub.next_id e (find id hub.subscriptions) sent seen h),
  )
  step-Serves size id hub subscribes sent seen (q, h) =
      (q, subscribe-Serves size id hub.next_id (find id hub.subscriptions) sent seen h)
  step-Serves size id hub (unsubscribes i) sent seen (q, h) = (
    q,
    rw (find-map id (leave i) (leave-id i) hub.subscriptions)
        (leave-Serves size id hub.next_id i (find id hub.subscriptions) sent seen h),
  )
  step-Serves size id hub (gets i) sent seen (q, h) = (
    q,
    rw (find-map id (take_first i) (take_first-id i) hub.subscriptions)
        (get-Serves size id hub.next_id i (find id hub.subscriptions) sent seen h),
  )

  run-Serves :
      (size id : ℕ) (hub : EventHub A) (sent seen : List A)
      → Run size id hub sent seen
      → (hub.queue_size ≡ size) × Serves size id hub.next_id (find id hub.subscriptions) sent seen
  run-Serves size id _ _ _ start = (refl, (refl, refl))
  run-Serves size id _ _ _ (stepped hub sent seen s h) =
      step-Serves size id hub s sent seen (run-Serves size id hub sent seen h)

  -- After any steps of publishing, subscribing, leaving and reading, in any order, a client that was not dropped got
  -- exactly what was published while the hub held it, in order, but for what still waits in its queue, which holds no
  -- more than its size if that is not 0. One that was dropped has left the hub, has nothing to read but the sentinel, and
  -- got a beginning of it.
  pub run-IsServed :
      (size id : ℕ) (hub : EventHub A) (sent seen : List A) (s : Subscription A)
      → Run size id hub sent seen
      → find id hub.subscriptions ≡ some s
      → IsServed size s sent seen
  run-IsServed size id hub sent seen s h found =
      let (q, serves) = run-Serves size id hub sent seen h in
      (subst (λ (x : Option (Subscription A)). Serves size id hub.next_id x sent seen) found
        serves).0
