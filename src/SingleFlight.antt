-- ===== src/SingleFlight.antt =====
-- server/data/ingest/app/brokers/single_flight.py: concurrent calls for one key share one execution. A call up to its
-- first await is one step, and the end of a leader's execution is one step; between them anything may happen.
pub mod Sharing
mod Tests
use trader_joe.Base.{
  ℕ, zero, suc, ◌+◌, ◌≡◌, ◌⊎◌, Bool, true, false, not, Option, none, some, List, [], ◌∷◌, filter,
  ◌==◌, if◌then◌else◌, mem, length,
}

-- What a future is settled with.
pub data Result : Type 0 where
  value : (v : ℕ) → Result
  exception : (e : ℕ) → Result
  cancelled : Result

abbrev pub Entries : Type 0
Entries = List (ℕ × ℕ)

-- The map from keys to futures, the leaders that are executing (each its key and its future), the futures that are
-- settled, and the name of the next future.
pub record SingleFlight : Type 0 where
  pub in_flight : Entries
  pub executing : Entries
  pub settled : List (ℕ × Result)
  pub next : ℕ

abbrev pub single_flight : SingleFlight
single_flight = record { in_flight = []; executing = []; settled = []; next = 0 }

-- `dict.get`
abbrev pub lookup : ℕ → Entries → Option ℕ
lookup key [] = none
lookup key ((k, future) ∷ es) = let rest = lookup key es in if k == key then some future else rest

-- Whether the caller attaches to a future or leads a new one.
pub data Role : Type 0 where
  follower : (future : ℕ) → Role
  leader : (future : ℕ) → Role

unfoldable pub attach_or_lead : Option ℕ → SingleFlight → ℕ → SingleFlight × Role
attach_or_lead (some future) s key = (s, follower future)
attach_or_lead none s key = (
  record {
    in_flight = (key, s.next) ∷ s.in_flight;
    executing = (key, s.next) ∷ s.executing;
    settled = s.settled;
    next = s.next + 1;
  },
  leader s.next,
)

-- `run`, up to its await.
unfoldable pub run : SingleFlight → ℕ → SingleFlight × Role
unfolding attach_or_lead
run s key = attach_or_lead (lookup key s.in_flight) s key

abbrev pub is_leader : Option ℕ → ℕ → Bool
is_leader none future = false
is_leader (some other) future = other == future

-- `__release`
unfoldable pub release : Entries → ℕ → ℕ → Entries
release es key future =
    if is_leader (lookup key es) future then filter (λ e. not (e.0 == key)) es else es

-- The end of a leader's execution, however it ends: released, then published.
unfoldable pub settle : SingleFlight → ℕ → ℕ → Result → SingleFlight
unfolding release
settle s key future result = record {
  in_flight = release s.in_flight key future;
  executing = filter (λ e. not (e.1 == future)) s.executing;
  settled = (future, result) ∷ s.settled;
  next = s.next;
}

abbrev pub Holds : ℕ → ℕ → Entries → Type 0
Holds key future [] = ⊥
Holds key future ((k, f) ∷ es) = ((k ≡ key) × (f ≡ future)) ⊎ Holds key future es

-- What calls for keys, and ends of leaders that execute, come to.
pub data Reachable : SingleFlight → Type 0 where
  begin : Reachable single_flight
  calls : (s : SingleFlight) (key : ℕ) → Reachable s → Reachable (run s key).0
  settles :
      (s : SingleFlight) (key future : ℕ) (result : Result)
      → Reachable s
      → Holds key future s.executing
      → Reachable (settle s key future result)

abbrev pub is_settled : ℕ → List (ℕ × Result) → Bool
is_settled future [] = false
is_settled future ((f, _) ∷ rs) =
    let rest = is_settled future rs in if f == future then true else rest
