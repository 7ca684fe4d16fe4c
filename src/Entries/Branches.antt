-- ===== src/Entries/Branches.antt =====
-- What the branches of the writes keep of the table: the checks before a write, the statement, and the logs after it.
use trader_joe.Base.{
  ℕ, ◌≡◌, inl, inr, refl, sym, subst, Bool, true, false, Option, none, some, ◌==◌, Bool-cases,
  Option-cases, All-map,
}
use trader_joe.Market.{UpdateType, static, daily, stream}
use trader_joe.Entries.{
  StoreDatasetEntry, Store, OverrideAction, set_expiry, set_collecting, delete, Cause, Attempt,
  store_of, find, update_row,
}
use trader_joe.Entries.Writes.{owned_row, delete_found_row}
use trader_joe.Entries.Operator.{
  Ruling, own, overriding, not_allowed, logged, audited, audited_always, expiring, collecting,
  write_row, write_intent, write_collect, delete_counted, delete_and_record,
}
use trader_joe.Entries.Identity.{find-In, All-In, In, Names, Distinct-Names}
use trader_joe.Entries.Kept.{
  has_intent, IsWellFormed, KeepsIntent, update_row-IsWellFormed, untouched,
  delete_row-IsWellFormed,
}

pub owned_row-IsWellFormed {ℓ} :
    {A : Type ℓ} (s : Store) (found : Option StoreDatasetEntry) (id owner : ℕ)
    (next : StoreDatasetEntry → Attempt A)
    → IsWellFormed s
    → ((e : StoreDatasetEntry) → IsWellFormed (store_of (next e)))
    → IsWellFormed (store_of (owned_row s found id owner next))
owned_row-IsWellFormed s none id owner next w h = w
owned_row-IsWellFormed s (some e) id owner next w h = elim (Bool-cases (e.spec.owner == owner)) [
  | inl k ↦ rw k (h e)
  | inr k ↦ rw k w
]

pub delete_found_row-IsWellFormed :
    (s : Store) (found : Option StoreDatasetEntry) (id : ℕ)
    → IsWellFormed s
    → IsWellFormed (store_of (delete_found_row s found id))
delete_found_row-IsWellFormed s none id w = w
delete_found_row-IsWellFormed s (some e) id w = delete_row-IsWellFormed id s w

pub logged-IsWellFormed :
    (ruling : Ruling) (id owner : ℕ) (action : OverrideAction) (s : Store)
    → IsWellFormed s
    → IsWellFormed (logged ruling id owner action s)
logged-IsWellFormed own id owner action s w = w
logged-IsWellFormed (overriding reason) id owner action s w = record {
  distinct = w.distinct;
  issued = w.issued;
  intents = w.intents;
}
logged-IsWellFormed not_allowed id owner action s w = w

pub audited-IsWellFormed {ℓ} :
    {A : Type ℓ} (s : Store) (recording : Bool) (ruling : Ruling) (next : Attempt A)
    → IsWellFormed s
    → IsWellFormed (store_of next)
    → IsWellFormed (store_of (audited s recording ruling next))
audited-IsWellFormed s recording own next w h = h
audited-IsWellFormed s true (overriding reason) next w h = h
audited-IsWellFormed s false (overriding reason) next w h = w
audited-IsWellFormed s recording not_allowed next w h = w

pub audited_always-IsWellFormed {ℓ} :
    {A : Type ℓ} (s : Store) (recording : Bool) (ruling : Ruling) (next : Attempt A)
    → IsWellFormed s
    → IsWellFormed (store_of next)
    → IsWellFormed (store_of (audited_always s recording ruling next))
audited_always-IsWellFormed s true own next w h = h
audited_always-IsWellFormed s false own next w h = w
audited_always-IsWellFormed s true (overriding reason) next w h = h
audited_always-IsWellFormed s false (overriding reason) next w h = w
audited_always-IsWellFormed s recording not_allowed next w h = w

pub touch-IsWellFormed :
    (s : Store) (id now : ℕ)
    → IsWellFormed s
    → IsWellFormed (update_row id (λ row. record row { updated_at = now }) s)
touch-IsWellFormed s id now w =
    update_row-IsWellFormed id (λ row. record row { updated_at = now }) s
      (λ e. (refl, refl, refl, refl))
      (untouched id (λ row. record row { updated_at = now }) s (λ e. (refl, refl)) w) w

pub write_row-IsWellFormed :
    (s : Store) (found : Option StoreDatasetEntry) (id : ℕ) (expiry : Option ℕ) (now : ℕ)
    (ruling : Ruling) (owner : ℕ)
    → IsWellFormed s
    → IsWellFormed (store_of (write_row s found id (expiring expiry now) ruling owner set_expiry))
unfolding write_row
write_row-IsWellFormed s none id expiry now ruling owner w = w
write_row-IsWellFormed s (some e) id expiry now ruling owner w =
    logged-IsWellFormed ruling id owner set_expiry (update_row id (expiring expiry now) s) (
      update_row-IsWellFormed id (expiring expiry now) s (λ e. (refl, refl, refl, refl))
        (untouched id (expiring expiry now) s (λ e. (refl, refl)) w) w)

subscription :
    (u : UpdateType) (before after : Bool)
    → has_intent u (some before) ≡ true
    → has_intent u (some after) ≡ true
subscription static b a h = absurd (cc)
subscription daily b a h = refl
subscription stream b a h = refl

pub write_collect-IsWellFormed :
    (s : Store) (id : ℕ) (collect : Bool) (ruling : Ruling) (owner now : ℕ) (e : StoreDatasetEntry)
    (before : Bool)
    → In e s.entries × (e.id ≡ id)
    → e.collect ≡ some before
    → IsWellFormed s
    → IsWellFormed (update_row id (collecting collect now) s)
write_collect-IsWellFormed s id collect ruling owner now e before (there, same) was w =
    update_row-IsWellFormed id (collecting collect now) s (λ f. (refl, refl, refl, refl))
      (All-map keep s.entries (Distinct-Names e s.entries w.distinct there)) w
  where
    is_subscribed : has_intent e.spec.update_type (some collect) ≡ true
    is_subscribed = subscription e.spec.update_type before collect (
        subst (λ (c : Option Bool). has_intent e.spec.update_type c ≡ true) was
          (All-In _ e s.entries w.intents there))

    keep : (f : StoreDatasetEntry) → Names e f → KeepsIntent id (collecting collect now) f
    keep f named h =
        let is_row = named (subst (λ (x : ℕ). (f.id == x) ≡ true) (sym same) h) in
        subst (λ (x : StoreDatasetEntry). has_intent x.spec.update_type (some collect) ≡ true)
          (sym is_row) is_subscribed

pub write_collect_found-IsWellFormed :
    (s : Store) (id : ℕ) (collect : Bool) (ruling : Ruling) (owner now : ℕ) (e : StoreDatasetEntry)
    (intent : Option Bool)
    → In e s.entries × (e.id ≡ id)
    → e.collect ≡ intent
    → IsWellFormed s
    → IsWellFormed (store_of (write_intent s intent id collect ruling owner now))
write_collect_found-IsWellFormed s id collect ruling owner now e none there was w = w
write_collect_found-IsWellFormed s id collect ruling owner now e (some before) there was w =
    logged-IsWellFormed ruling id owner set_collecting (update_row id (collecting collect now) s)
      (write_collect-IsWellFormed s id collect ruling owner now e before there was w)

pub write_collect_of-IsWellFormed :
    (s : Store) (id : ℕ) (collect : Bool) (ruling : Ruling) (owner now : ℕ)
    → IsWellFormed s
    → IsWellFormed (store_of (write_collect s (find id s.entries) id collect ruling owner now))
unfolding write_collect
write_collect_of-IsWellFormed s id collect ruling owner now w =
    elim (Option-cases (find id s.entries)) [
      | inl e ↦ rw e w
      | inr (found, e) ↦ rw e (
          write_collect_found-IsWellFormed s id collect ruling owner now found found.collect
            (find-In id s.entries found e) refl w)
    ]

delete_counted-IsWellFormed :
    (s : Store) (found : Option StoreDatasetEntry) (e : StoreDatasetEntry) (bars : ℕ)
    (cause : Cause) (actor : ℕ) (ruling : Ruling)
    → IsWellFormed s
    → IsWellFormed (store_of (delete_counted s found e bars cause actor ruling))
unfolding delete_counted
delete_counted-IsWellFormed s none e bars cause actor ruling w = w
delete_counted-IsWellFormed s (some _) e bars cause actor ruling w =
    let d = delete_row-IsWellFormed e.id s w in
    logged-IsWellFormed ruling e.id e.spec.owner delete _
      (record { distinct = d.distinct; issued = d.issued; intents = d.intents })

pub delete_and_record-IsWellFormed :
    (before_delete : Store → Store)
    → ((s : Store) → IsWellFormed s → IsWellFormed (before_delete s))
    → (s : Store) (e : StoreDatasetEntry) (cause : Cause) (actor : ℕ) (ruling : Ruling)
    → IsWellFormed s
    → IsWellFormed (store_of (delete_and_record before_delete s e cause actor ruling))
unfolding delete_and_record
delete_and_record-IsWellFormed before_delete kept s e cause actor ruling w =
    delete_counted-IsWellFormed (before_delete s) (find e.id (before_delete s).entries) e
      (s.bars e.id) cause actor ruling (kept s w)
