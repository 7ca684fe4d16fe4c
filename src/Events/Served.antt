-- ===== src/Events/Served.antt =====
-- The steps of the hub, and what each does to the queue of one client.
use trader_joe.Base.{
  ℕ, suc, ◌≤◌, ◌≡◌, ◌⊎◌, inl, inr, refl, ap, sym, subst, ◌∙◌, Bool, true, false, Option, some, List,
  [], ◌∷◌, ◌++◌, map, length, length-append, arith, ◌==◌, if◌then◌else◌, Bool-cases,
}
use trader_joe.Events.{
  Item, event, dropped_item, Subscription, EventHub, event_hub, is_full, offer, publish_to, publish,
  subscribe, unsubscribe, without_first, find, got_from, first_item, get,
}

pub data Step {ℓ} (A : Type ℓ) : Type ℓ where
  publishes : A → Step A
  subscribes : Step A
  unsubscribes gets : (id : ℕ) → Step A

module _ {ℓ} {A : Type ℓ} where
  unfoldable pub step : Step A → EventHub A → EventHub A
  unfolding publish subscribe unsubscribe get
  step (publishes e) hub = publish e hub
  step subscribes hub = (subscribe hub).0
  step (unsubscribes id) hub = unsubscribe id hub
  step (gets id) hub = (get id hub).0

  -- The events published to a client while the hub held it, after a step.
  abbrev pub sent_after : Step A → Option (Subscription A) → List A → List A
  sent_after (publishes e) (some s) sent = if s.subscribed then sent ++ (e ∷ []) else sent
  sent_after _ _ sent = sent

  abbrev pub add_got : Option (Option A) → List A → List A
  add_got (some (some e)) seen = seen ++ (e ∷ [])
  add_got _ seen = seen

  -- The events that it got.
  abbrev pub seen_after : ℕ → Step A → Option (Subscription A) → List A → List A
  seen_after id (gets i) found seen = if i == id then add_got (got_from found) seen else seen
  seen_after id _ found seen = seen

  -- A hub with what the client of an id was sent and got so far.
  pub data Run (size id : ℕ) : EventHub A → List A → List A → Type ℓ where
    start : Run size id (event_hub size) [] []
    stepped :
        (hub : EventHub A) (sent seen : List A) (s : Step A)
        → Run size id hub sent seen
        → Run size id
            (step s hub)
            (sent_after s (find id hub.subscriptions) sent)
            (seen_after id s (find id hub.subscriptions) seen)

  -- A client that keeps up: what it got and what waits for it are what it was sent, and no more waits than there is
  -- room for.
  abbrev pub KeepsUp : ℕ → Subscription A → List A → List A → Type ℓ
  KeepsUp size s sent seen =
      (s.dropped ≡ false)
      × ((waiting : List A) × (s.queue ≡ map event waiting)
          × (seen ++ waiting ≡ sent)
          × ((size ≡ 0) ⊎ (length s.queue ≤ size)))

  -- One that was dropped: it has left the hub, only the sentinel waits for it, and what it got is a beginning of what it
  -- was sent.
  abbrev pub WasDropped : Subscription A → List A → List A → Type ℓ
  WasDropped s sent seen =
      (s.dropped ≡ true)
      × (s.subscribed ≡ false)
      × ((s.queue ≡ dropped_item ∷ []) ⊎ (s.queue ≡ []))
      × ((missed : List A) × (seen ++ missed ≡ sent))

  abbrev pub IsServed : ℕ → Subscription A → List A → List A → Type ℓ
  IsServed size s sent seen = KeepsUp size s sent seen ⊎ WasDropped s sent seen

  append_assoc : (xs ys zs : List A) → (xs ++ ys) ++ zs ≡ xs ++ (ys ++ zs)
  append_assoc [] ys zs = refl
  append_assoc (x ∷ xs) ys zs = ap (◌∷◌ x) (append_assoc xs ys zs)

  map-append : (e : A) (xs : List A) → map event xs ++ (event e ∷ []) ≡ map event (xs ++ (e ∷ []))
  map-append e [] = refl
  map-append e (x ∷ xs) = ap (◌∷◌ (event x)) (map-append e xs)

  later_sent :
      (e : A) (sent seen rest : List A)
      → seen ++ rest ≡ sent
      → seen ++ (rest ++ (e ∷ [])) ≡ sent ++ (e ∷ [])
  later_sent e sent seen rest h =
      sym (append_assoc seen rest (e ∷ [])) ∙ ap (λ (xs : List A). xs ++ (e ∷ [])) h

  room :
      (size : ℕ) (e : A) (queue : List (Item A))
      → is_full size queue ≡ false
      → (size ≡ 0) ⊎ (length (queue ++ (event e ∷ [])) ≤ size)
  room size e queue h = let l = length-append queue (event e ∷ []) in ground (arith, h, l)

  pub publish_to-IsServed :
      (size : ℕ) (e : A) (id : ℕ) (queue : List (Item A)) (dropped subscribed : Bool)
      (sent seen : List A)
      → IsServed size
          (record { id = id; queue = queue; dropped = dropped; subscribed = subscribed })
          sent
          seen
      → IsServed size
          (publish_to size e
            (record { id = id; queue = queue; dropped = dropped; subscribed = subscribed }))
          (if subscribed then sent ++ (e ∷ []) else sent)
          seen
  unfolding publish_to offer
  publish_to-IsServed size e id queue dropped false sent seen h = h
  publish_to-IsServed size e id queue true true sent seen (inl (k, _)) = absurd (cc)
  publish_to-IsServed size e id queue true true sent seen (inr (_, k, _, _)) = absurd (cc)
  publish_to-IsServed size e id queue false true sent seen (inr (k, _, _, _)) = absurd (cc)
  publish_to-IsServed size e id queue false true sent seen (inl (_, (waiting, q, whole, fits))) =
      elim (Bool-cases (is_full size queue)) [
        | inl full ↦ rw full (
            inr (refl, refl, inl refl, (waiting ++ (e ∷ []), later_sent e sent seen waiting whole)))
        | inr free ↦ rw free (
            inl (
              refl,
              (
                waiting ++ (e ∷ []),
                ap (λ (is : List (Item A)). is ++ (event e ∷ [])) q ∙ map-append e waiting,
                later_sent e sent seen waiting whole,
                room size e queue free,
              ),
            ))
      ]

  event_in : A → List (Item A) → A
  event_in a [] = a
  event_in a (event e ∷ is) = e
  event_in a (dropped_item ∷ is) = a

  next_got :
      (e w : A) (ws sent seen : List A)
      → e ≡ w
      → seen ++ (w ∷ ws) ≡ sent
      → (seen ++ (e ∷ [])) ++ ws ≡ sent
  next_got e w ws sent seen same h =
      append_assoc seen (e ∷ []) ws ∙ subst (λ (x : A). seen ++ (x ∷ ws) ≡ sent) (sym same) h

  pub take-IsServed :
      (size id : ℕ) (queue : List (Item A)) (dropped subscribed : Bool) (sent seen : List A)
      → IsServed size
          (record { id = id; queue = queue; dropped = dropped; subscribed = subscribed })
          sent
          seen
      → IsServed size
          (record {
            id = id;
            queue = without_first queue;
            dropped = dropped;
            subscribed = subscribed;
          })
          sent
          (add_got (first_item queue) seen)
  unfolding event_in
  take-IsServed size id [] dropped subscribed sent seen h = h
  take-IsServed size id (event e ∷ is) dropped subscribed sent seen
        (inl (d, ([], q, whole, fits))) =
      absurd (cc)
  take-IsServed size id (event e ∷ is) dropped subscribed sent seen
        (inl (d, (w ∷ ws, q, whole, fits))) =
      inl (
        d,
        (ws, ap without_first q, next_got e w ws sent seen (ap (event_in e) q) whole, fewer fits),
      )
    where
      fewer : (size ≡ 0) ⊎ (suc (length is) ≤ size) → (size ≡ 0) ⊎ (length is ≤ size)
      fewer (inl k) = inl k
      fewer (inr k) = inr (omega (arith, k))
  take-IsServed size id (event e ∷ is) dropped subscribed sent seen (inr (d, left, inl q, missed)) =
      absurd (cc)
  take-IsServed size id (event e ∷ is) dropped subscribed sent seen (inr (d, left, inr q, missed)) =
      absurd (cc)
  take-IsServed size id (dropped_item ∷ is) dropped subscribed sent seen
        (inl (d, ([], q, whole, fits))) =
      absurd (cc)
  take-IsServed size id (dropped_item ∷ is) dropped subscribed sent seen
        (inl (d, (w ∷ ws, q, whole, fits))) =
      absurd (cc)
  take-IsServed size id (dropped_item ∷ is) dropped subscribed sent seen
        (inr (d, left, inl q, missed)) =
      inr (d, left, inr (ap without_first q), missed)
  take-IsServed size id (dropped_item ∷ is) dropped subscribed sent seen
        (inr (d, left, inr q, missed)) =
      absurd (cc)

  pub leave-IsServed :
      (size id : ℕ) (queue : List (Item A)) (dropped subscribed : Bool) (sent seen : List A)
      → IsServed size
          (record { id = id; queue = queue; dropped = dropped; subscribed = subscribed })
          sent
          seen
      → IsServed size
          (record { id = id; queue = queue; dropped = dropped; subscribed = false })
          sent
          seen
  leave-IsServed size id queue dropped subscribed sent seen (inl h) = inl h
  leave-IsServed size id queue dropped subscribed sent seen (inr (d, left, q, missed)) =
      inr (d, refl, q, missed)
