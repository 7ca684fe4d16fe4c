-- ===== src/Entries/Ranges.antt =====
-- What the range conditions mean: a column's end is a bound or none, and a range is the set of the instants in it.
use trader_joe.Base.{
  ℕ, ◌-◌, ◌≤◌, ◌<◌, ◌≡◌, ◌≢◌, ◌⊎◌, ◌↔◌, inl, inr, refl, ap, true, false, Option, none, some, max,
  arith, ◌==◌, ==→eq, Bool-cases,
}
use trader_joe.Entries.{
  epoch, to_model_type, to_schema_type, Range, same_range, overlaps, is_growth,
}

-- The instant is in the range: at or after its start, and before its end if it has one.
abbrev pub Covers : Range → ℕ → Type 0
Covers r t = (r.start ≤ t) × ((r.end ≡ epoch) ⊎ (t < r.end))

-- A declared end is after the start.
abbrev pub IsProper : Range → Type 0
IsProper r = (r.end ≡ epoch) ⊎ (r.start < r.end)

-- An end survives the way into its column and back, unless it is the very instant that stands for no end; and every
-- column value survives the way out and in.
pub to_schema_type-to_model_type :
    ((value : Option ℕ) → value ≢ some epoch → to_schema_type (to_model_type value) ≡ value)
    × ((column : ℕ) → to_model_type (to_schema_type column) ≡ column)
unfolding to_schema_type to_model_type
to_schema_type-to_model_type = (there, back)
  where
    there : (value : Option ℕ) → value ≢ some epoch → to_schema_type (to_model_type value) ≡ value
    there none h = refl
    there (some v) h = elim (Bool-cases (v == epoch)) [
      | inl e ↦ absurd (h (ap some (==→eq v epoch e)))
      | inr e ↦ rw e refl
    ]

    back : (column : ℕ) → to_model_type (to_schema_type column) ≡ column
    back c = elim (Bool-cases (c == epoch)) [
      | inl e ↦ rw e (omega (arith, ==→eq c epoch e))
      | inr e ↦ rw e refl
    ]

-- The own-overlap condition, for proper ranges: an existing row is reported exactly when some instant is in both ranges
-- and the two ranges are not the same.
pub overlaps_lem :
    (new existing : Range)
    → IsProper new
    → IsProper existing
    → (overlaps new existing ≡ true)
      ↔ (((t : ℕ) × Covers new t × Covers existing t) × (same_range existing new ≡ false))
unfolding overlaps
overlaps_lem new existing p q = (there, back)
  where
    there :
        overlaps new existing ≡ true
        → ((t : ℕ) × Covers new t × Covers existing t) × (same_range existing new ≡ false)
    there h = (
      (max new.start existing.start, ground (arith, h, p, q), ground (arith, h, p, q)),
      ground (arith, h),
    )

    back :
        ((t : ℕ) × Covers new t × Covers existing t) × (same_range existing new ≡ false)
        → overlaps new existing ≡ true
    back ((t, a, b), differ) = ground (arith, a, b, differ)

-- A range may be written over a proper one exactly when it covers every instant that the old one covers.
pub is_growth_lem :
    (old new : Range)
    → IsProper old
    → (is_growth old new ≡ true) ↔ ((t : ℕ) → Covers old t → Covers new t)
unfolding is_growth
is_growth_lem old new p = (λ h t c. ground (arith, h, c), back)
  where
    back : ((t : ℕ) → Covers old t → Covers new t) → is_growth old new ≡ true
    back f =
        let first = f old.start in
        let late = f (max old.start new.end) in
        let last = f (old.end - 1) in ground (arith, first, late, last, p)
