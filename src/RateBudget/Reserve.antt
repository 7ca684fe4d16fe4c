-- ===== src/RateBudget/Reserve.antt =====
-- Who may spend what: the wait each class has to expect, and the reserve that backfill leaves alone.
use trader_joe.Base.{
  ℕ, ◌+◌, ◌-◌, ◌*◌, ◌≤◌, ◌≡◌, ◌≢◌, ◌↔◌, ap, sym, subst, ◌∙◌, refl, inl, inr, true, some, [], ◌∷◌,
  min, arith, leb, leb→le, Bool-cases, Option-cases,
}
use trader_joe.RateBudget.{
  RequestPriority, live, interactive, backfill, RateBudget, one_token, refilled, draw, floor,
  try_acquire, deficit,
}
use trader_joe.RateBudget.Bounds.{
  IsValid, try_acquire-none, try_acquire-some, try_acquire-IsValid, Attempts, after,
}

floor_within : (b : RateBudget) (p : RequestPriority) → IsValid b → one_token + floor b p ≤ b.burst
unfolding floor
floor_within b live v = omega (arith, v.whole)
floor_within b interactive v = omega (arith, v.whole)
floor_within b backfill v = v.whole

floor-refilled :
    (b : RateBudget) (p : RequestPriority) (r now : ℕ) → floor (refilled b r now) p ≡ floor b p
unfolding floor refilled
floor-refilled b live r now = refl
floor-refilled b interactive r now = refl
floor-refilled b backfill r now = ground arith

draw_lem :
    (b : RateBudget) (p : RequestPriority)
    → ((draw b p).1 ≡ true) ↔ (one_token + floor b p ≤ b.tokens)
unfolding draw
draw_lem b p = (λ e. ground (arith, e), λ h. ground (arith, h))

refilled_tokens :
    (b : RateBudget) (r now : ℕ)
    → IsValid b
    → (refilled b r now).tokens ≡ min b.burst (b.tokens + (now - b.updated) * r)
unfolding refilled
refilled_tokens b r now v = elim (Bool-cases (leb now b.updated)) [
  | inl e ↦ rw e (omega (arith, v.within, nothing (leb→le now b.updated e)))
  | inr e ↦ rw e refl
]
  where
    nothing : now ≤ b.updated → (now - b.updated) * r ≡ 0
    nothing h =
        let none_left : now - b.updated ≡ 0 = omega (arith, h) in
        omega (arith, ap (λ (x : ℕ). x * r) none_left)

-- In a valid budget, a class gets a token exactly when the time since the last refill has earned its deficit at the
-- budget's rate.
pub try_acquire_lem :
    (b : RateBudget) (p : RequestPriority) (now r : ℕ)
    → IsValid b
    → b.rate ≡ some r
    → ((try_acquire b p now).1 ≡ true) ↔ (deficit b p ≤ (now - b.updated) * r)
unfolding deficit
try_acquire_lem b p now r v e = rw (try_acquire-some b p now r e) (forward, backward)
  where
    room : (refilled b r now).tokens ≡ min b.burst (b.tokens + (now - b.updated) * r)
    room = refilled_tokens b r now v

    same : floor (refilled b r now) p ≡ floor b p
    same = floor-refilled b p r now

    forward :
        (draw (refilled b r now) p).1 ≡ true
        → one_token + floor b p - b.tokens ≤ (now - b.updated) * r
    forward got = omega (arith, (draw_lem (refilled b r now) p).0 got, room, same)

    backward :
        one_token + floor b p - b.tokens ≤ (now - b.updated) * r
        → (draw (refilled b r now) p).1 ≡ true
    backward h =
        (draw_lem (refilled b r now) p).1 (omega (arith, h, room, same, floor_within b p v))

-- Attempts of backfill only.
unfoldable pub AreBackfill : Attempts → Type 0
AreBackfill [] = Unit
AreBackfill ((p, now) ∷ rest) = (p ≡ backfill) × AreBackfill rest

draw_keeps :
    (b : RateBudget)
    → b.reserve ≤ b.tokens
    → (draw b backfill).0.reserve ≤ (draw b backfill).0.tokens
unfolding draw floor
draw_keeps b h = ground (arith, h)

refilled_keeps :
    (b : RateBudget) (r now : ℕ)
    → IsValid b
    → b.reserve ≤ b.tokens
    → (refilled b r now).reserve ≤ (refilled b r now).tokens
unfolding refilled
refilled_keeps b r now v h = ground (arith, h)

backfill_keeps :
    (b : RateBudget) (now : ℕ)
    → IsValid b
    → b.reserve ≤ b.tokens
    → (try_acquire b backfill now).0.reserve ≤ (try_acquire b backfill now).0.tokens
backfill_keeps b now v h = elim (Option-cases b.rate) [
  | inl e ↦ rw (try_acquire-none b backfill now e) h
  | inr (r, e) ↦
      rw (try_acquire-some b backfill now r e)
        (draw_keeps (refilled b r now) (refilled_keeps b r now v h))
]

draw_reserve : (b : RateBudget) (p : RequestPriority) → (draw b p).0.reserve ≡ b.reserve
unfolding draw
draw_reserve b p = ground arith

refilled_reserve : (b : RateBudget) (r now : ℕ) → (refilled b r now).reserve ≡ b.reserve
unfolding refilled
refilled_reserve b r now = ground arith

try_acquire-reserve :
    (b : RateBudget) (p : RequestPriority) (now : ℕ) → (try_acquire b p now).0.reserve ≡ b.reserve
try_acquire-reserve b p now = elim (Option-cases b.rate) [
  | inl e ↦ rw (try_acquire-none b p now e) refl
  | inr (r, e) ↦
      rw (try_acquire-some b p now r e)
        (draw_reserve (refilled b r now) p ∙ refilled_reserve b r now)
]

after_backfill :
    (b : RateBudget) (attempts : Attempts)
    → IsValid b
    → AreBackfill attempts
    → b.reserve ≤ b.tokens
    → IsValid (after b attempts) × (b.reserve ≤ (after b attempts).tokens)
unfolding AreBackfill after
after_backfill b [] v all h = (v, h)
after_backfill b ((p, now) ∷ rest) v (e, all) h =
    let b' = (try_acquire b p now).0 in
    let kept : b'.reserve ≤ b'.tokens =
      subst
        (λ (q : RequestPriority). (try_acquire b q now).0.reserve ≤ (try_acquire b q now).0.tokens)
        (sym e) (backfill_keeps b now v h) in
    let (valid, left) = after_backfill b' rest (try_acquire-IsValid b p now v) all kept in
    (valid, subst (λ (x : ℕ). x ≤ (after b' rest).tokens) (try_acquire-reserve b p now) left)

floor_zero : (b : RateBudget) (p : RequestPriority) → p ≢ backfill → floor b p ≡ 0
unfolding floor
floor_zero b live ne = refl
floor_zero b interactive ne = refl
floor_zero b backfill ne = absurd (ne refl)

-- In a valid budget whose reserve is at least one token and is still there, no attempts of backfill, however many and
-- whenever they are made, keep a live or an interactive call from getting a token at once.
pub reserve_for_live :
    (b : RateBudget) (attempts : Attempts) (p : RequestPriority) (now : ℕ)
    → IsValid b
    → one_token ≤ b.reserve
    → b.reserve ≤ b.tokens
    → AreBackfill attempts
    → p ≢ backfill
    → (try_acquire (after b attempts) p now).1 ≡ true
unfolding deficit
reserve_for_live b attempts p now v one h all ne =
    let (valid, left) = after_backfill b attempts v all h in
    let b' = after b attempts in
    elim (Option-cases b'.rate) [
      | inl e ↦ rw (try_acquire-none b' p now e) refl
      | inr (r, e) ↦
          (try_acquire_lem b' p now r valid e).1 (omega (arith, one, left, floor_zero b' p ne))
    ]

-- A valid budget whose rate fills the whole bucket since the last refill grants every class, backfill included: the
-- reserve is not a bar that backfill never passes.
pub full_bucket_serves_all :
    (b : RateBudget) (p : RequestPriority) (now r : ℕ)
    → IsValid b
    → b.rate ≡ some r
    → b.burst ≤ (now - b.updated) * r
    → (try_acquire b p now).1 ≡ true
unfolding deficit
full_bucket_serves_all b p now r v e full =
    (try_acquire_lem b p now r v e).1 (omega (arith, full, floor_within b p v))
