-- ===== src/Completeness/Tiled.antt =====
-- The loop over the coverage buckets: where each starts and ends, and what they count together.
use trader_joe.Base.{
  ℕ, zero, suc, ◌+◌, ◌*◌, ◌≤◌, ◌<◌, ◌≡◌, refl, ap, sym, Bool, some, List, [], ◌∷◌, ◌++◌, min, arith,
  ◌==◌, if◌then◌else◌, length, length-append, filter, filter-append, get_elem?, take, drop,
}
use trader_joe.Base.Raised.{ok}
use trader_joe.Completeness.{Expected}
use trader_joe.Completeness.Buckets.{
  CoverageBucket, Layout, is_expected, holds_bar, midnight_at, last_index, members, bucket_start,
  bucket_end, bucket, bucket_loop,
}

-- Each bucket ends where the next one starts, from one end of the range to the other.
abbrev pub Tiles : ℕ → ℕ → List CoverageBucket → Type 0
Tiles from to [] = from ≡ to
Tiles from to (b ∷ bs) = (b.start ≡ from) × Tiles b.end to bs

abbrev pub total_expected : List CoverageBucket → ℕ
total_expected [] = 0
total_expected (b ∷ bs) = b.expected_sessions + total_expected bs

abbrev pub total_with_bars : List CoverageBucket → ℕ
total_with_bars [] = 0
total_with_bars (b ∷ bs) = b.sessions_with_bars + total_with_bars bs

drop-split : (i j : ℕ) (xs : List ℕ) → i ≤ j → drop i (take j xs) ++ drop j xs ≡ drop i xs
drop-split zero zero xs h = refl
drop-split zero (suc j) [] h = refl
drop-split zero (suc j) (x ∷ xs) h = ap (◌∷◌ x) (drop-split zero j xs (omega arith))
drop-split (suc i) zero xs h = absurd (omega arith)
drop-split (suc i) (suc j) [] h = refl
drop-split (suc i) (suc j) (x ∷ xs) h = drop-split i j xs (omega arith)

drop_all : (i : ℕ) (xs : List ℕ) → length xs ≤ i → drop i xs ≡ []
drop_all zero [] h = refl
drop_all zero (x ∷ xs) h = absurd (omega arith)
drop_all (suc i) [] h = refl
drop_all (suc i) (x ∷ xs) h = drop_all i xs (omega arith)

-- The first of a slice is the element where the slice begins.
first_of_slice : (i j : ℕ) (xs : List ℕ) → i < j → get_elem? (drop i (take j xs)) 0 ≡ get_elem? xs i
first_of_slice i zero xs h = absurd (omega arith)
first_of_slice zero (suc j) [] h = refl
first_of_slice zero (suc j) (x ∷ xs) h = refl
first_of_slice (suc i) (suc j) [] h = refl
first_of_slice (suc i) (suc j) (x ∷ xs) h = first_of_slice i j xs (omega arith)

get_some : (i : ℕ) (xs : List ℕ) → i < length xs → (x : ℕ) × (get_elem? xs i ≡ some x)
get_some i [] h = absurd (omega arith)
get_some zero (x ∷ xs) h = (x, refl)
get_some (suc i) (x ∷ xs) h = get_some i xs (omega arith)

-- An expected session that holds a bar is counted as both.
with_bars :
    (e : Expected) (held : List ℕ) (xs : List ℕ)
    → filter (holds_bar e held) (filter (is_expected e) xs) ≡ filter (holds_bar e held) xs
with_bars e held [] = refl
with_bars e held (x ∷ xs) = ground (arith, with_bars e held xs)

module _ (w : Layout) (positive : 1 ≤ w.size)
    (shared : length w.sessions ≡ w.groups * w.size + w.remainder)
    (fewer : w.remainder < w.groups) where
  -- Where bucket `index` begins in the list of sessions.
  abbrev IsAt : ℕ → ℕ → Type 0
  IsAt index first = first ≡ index * w.size + min index w.remainder

  step-IsAt : (index first : ℕ) → IsAt index first → IsAt (index + 1) (last_index w index first)
  unfolding last_index
  step-IsAt index first h = ground arith

  product : (i n g s : ℕ) → g ≡ i + n → g * s ≡ i * s + n * s
  product i n g s e = rw e (omega arith)

  last_below :
      (index rounds first : ℕ)
      → w.groups ≡ index + suc (suc rounds)
      → IsAt index first
      → last_index w index first < length w.sessions
  last_below index rounds first e h = omega (
    arith,
    step-IsAt index first h,
    product (index + 1) (suc rounds) w.groups w.size (omega arith),
  )

  last_all :
      (index first : ℕ)
      → w.groups ≡ index + 1
      → IsAt index first
      → last_index w index first ≡ length w.sessions
  last_all index first e h =
      omega (arith, step-IsAt index first h, product (index + 1) 0 w.groups w.size (omega arith))

  later : (index first : ℕ) → first < last_index w index first
  unfolding last_index
  later index first = omega arith

  bucket_start-eq :
      (index first : ℕ)
      → bucket_start w index first
        ≡ (if index == 0 then ok w.from else midnight_at w (get_elem? w.sessions first))
  unfolding bucket_start members
  bucket_start-eq index first =
      rw (first_of_slice first (last_index w index first) w.sessions (later index first))

  counted :
      (p : ℕ → Bool) (index first : ℕ)
      → length (filter p (drop first w.sessions))
        ≡ length (filter p (members w index first))
          + length (filter p (drop (last_index w index first) w.sessions))
  unfolding members
  counted p index first =
      let slice = members w index first in
      let after = drop (last_index w index first) w.sessions in
      rw
        (
          sym (
              drop-split first (last_index w index first) w.sessions
                (omega (arith, later index first))),
          filter-append p slice after,
        )
        (length-append (filter p slice) (filter p after))

  counted_last :
      (p : ℕ → Bool) (index first : ℕ)
      → w.groups ≡ index + 1
      → IsAt index first
      → length (filter p (drop first w.sessions)) ≡ length (filter p (members w index first))
  counted_last p index first e at =
      let none_left =
        ap (λ (xs : List ℕ). length (filter p xs))
          (drop_all (last_index w index first) w.sessions
            (omega (arith, last_all index first e at))) in
      omega (arith, counted p index first, none_left)

  bars : List ℕ → ℕ
  bars xs = length (filter (holds_bar w.expected w.held) xs)

  bucket-counts :
      (index first start end : ℕ)
      → ((bucket w index first start end).expected_sessions
          ≡ length (filter (is_expected w.expected) (members w index first)))
        × ((bucket w index first start end).sessions_with_bars
            ≡ length (filter (holds_bar w.expected w.held) (members w index first)))
  unfolding bucket
  bucket-counts index first start end =
      (refl, ap length (with_bars w.expected w.held (members w index first)))

  bucket-ends :
      (index first start end : ℕ)
      → ((bucket w index first start end).start ≡ start)
        × ((bucket w index first start end).end ≡ end)
  unfolding bucket
  bucket-ends index first start end = (refl, refl)

  loop_step :
      (rounds index first start end : ℕ) (bs : List CoverageBucket)
      → bucket_start w index first ≡ ok start
      → bucket_end w index first ≡ ok end
      → bucket_loop w rounds (index + 1) (last_index w index first) ≡ ok bs
      → bucket_loop w (suc rounds) index first ≡ ok (bucket w index first start end ∷ bs)
  unfolding bucket_loop
  loop_step rounds index first start end bs a b rest = rw (a, b, rest)

  -- What the loop builds from bucket `index` on.
  pub record IsTiled (rounds first from : ℕ) (bs : List CoverageBucket) : Type 0 where
    pub tiles : Tiles from w.to bs
    pub as_many : length bs ≡ rounds
    pub expected :
        total_expected bs ≡ length (filter (is_expected w.expected) (drop first w.sessions))
    pub with_bar :
        total_with_bars bs ≡ length (filter (holds_bar w.expected w.held) (drop first w.sessions))

  pub bucket_loop-IsTiled :
      (rounds index first from : ℕ)
      → w.groups ≡ index + suc rounds
      → IsAt index first
      → bucket_start w index first ≡ ok from
      → (bs : List CoverageBucket) × (bucket_loop w (suc rounds) index first ≡ ok bs)
        × IsTiled (suc rounds) first from bs
  bucket_loop-IsTiled zero index first from e at s =
      let b = bucket w index first from w.to in
      let ends = bucket-ends index first from w.to in
      let counts = bucket-counts index first from w.to in
      (
        b ∷ [],
        loop_step 0 index first from w.to [] s final (unfold bucket_loop in refl),
        record {
          tiles = (ends.0, ends.1);
          as_many = refl;
          expected =
              omega (arith, counts.0, counted_last (is_expected w.expected) index first e at);
          with_bar =
              omega (arith, counts.1, counted_last (holds_bar w.expected w.held) index first e at);
        },
      )
    where
      final : bucket_end w index first ≡ ok w.to
      final = unfold bucket_end in ground (arith, e)
  bucket_loop-IsTiled (suc rounds) index first from e at s =
      let last = last_index w index first in
      let (x, found) = get_some last w.sessions (last_below index rounds first e at) in
      let next = w.local_midnight x in
      let (bs, run, t) =
        bucket_loop-IsTiled rounds (index + 1) last next (omega arith) (step-IsAt index first at)
          (starts x found) in
      let b = bucket w index first from next in
      let ends = bucket-ends index first from next in
      let counts = bucket-counts index first from next in
      (
        b ∷ bs,
        loop_step (suc rounds) index first from next bs s (stops x found) run,
        record {
          tiles = (ends.0, rw ends.1 t.tiles);
          as_many = ap suc t.as_many;
          expected =
              omega (arith, counts.0, counted (is_expected w.expected) index first, t.expected);
          with_bar =
              omega
                (arith, counts.1, counted (holds_bar w.expected w.held) index first, t.with_bar);
        },
      )
    where
      starts :
          (x : ℕ)
          → get_elem? w.sessions (last_index w index first) ≡ some x
          → bucket_start w (index + 1) (last_index w index first) ≡ ok (w.local_midnight x)
      starts x found =
          rw (bucket_start-eq (index + 1) (last_index w index first), found)
            (unfold midnight_at in ground arith)

      stops :
          (x : ℕ)
          → get_elem? w.sessions (last_index w index first) ≡ some x
          → bucket_end w index first ≡ ok (w.local_midnight x)
      stops x found = unfold bucket_end in ground (arith, e, found)
