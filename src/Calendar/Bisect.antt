-- ===== src/Calendar/Bisect.antt =====
-- `bisect_left` and `bisect_right` of the standard library, on an ascending list, and the slice
-- that they cut out.
use trader_joe.Base.{
  ℕ, suc, ◌≤◌, ◌<◌, ◌≡◌, refl, ap, inl, inr, true, false, ◌&&◌, List, [], ◌∷◌, arith, ltb, leb,
  if◌then◌else◌, Bool-cases, All-map, IsAscending, filter, filter_none, filter_same, take, drop,
  ltb-false→le,
}

-- How many leading elements are below `x`: on an ascending list, where `x` would go.
unfoldable pub bisect_left : List ℕ → ℕ → ℕ
bisect_left [] x = 0
bisect_left (y ∷ ys) x = let rest = bisect_left ys x in if ltb y x then suc rest else 0

unfoldable pub bisect_right : List ℕ → ℕ → ℕ
bisect_right [] x = 0
bisect_right (y ∷ ys) x = let rest = bisect_right ys x in if leb y x then suc rest else 0

pub take-bisect_right :
    (xs : List ℕ) (hi : ℕ)
    → IsAscending xs
    → take (bisect_right xs hi) xs ≡ filter (λ s. leb s hi) xs
unfolding bisect_right
take-bisect_right [] hi h = refl
take-bisect_right (x ∷ xs) hi h = elim (Bool-cases (leb x hi)) [
  | inl e ↦ rw e (ap (◌∷◌ x) (take-bisect_right xs hi h.1))
  | inr e ↦ rw (e, filter_none (λ s. leb s hi) xs (All-map (λ y lt. above x y hi e lt) xs h.0))
]
  where
    above : (a b c : ℕ) → leb a c ≡ false → a < b → leb b c ≡ false
    above a b c e lt = ground arith

abbrev pub window : List ℕ → ℕ → ℕ → List ℕ
window xs lo hi = drop (bisect_left xs lo) (take (bisect_right xs hi) xs)

-- The slice between the two positions holds exactly the elements from `lo` to `hi`.
pub window-eq-filter :
    (xs : List ℕ) (lo hi : ℕ)
    → IsAscending xs
    → lo ≤ hi
    → window xs lo hi ≡ filter (λ s. leb lo s && leb s hi) xs
unfolding bisect_left bisect_right
window-eq-filter [] lo hi h le = refl
window-eq-filter (x ∷ xs) lo hi h le = elim (Bool-cases (ltb x lo)) [
  | inl e ↦
      let e' : leb x hi ≡ true = ground arith in
      let e'' : leb lo x ≡ false = ground arith in
      rw (e, e', e'') (window-eq-filter xs lo hi h.1 le)
  | inr e ↦ rw e (
      unfold bisect_right in
      rw (take-bisect_right (x ∷ xs) hi h) (
        filter_same (λ s. leb s hi) (λ s. leb lo s && leb s hi) (x ∷ xs)
          (here x (ltb-false→le x lo e), All-map (λ y lt. here y (above x y lo e lt)) xs h.0)))
]
  where
    above : (a b c : ℕ) → ltb a c ≡ false → a < b → c ≤ b
    above a b c e lt = ground arith

    here : (y : ℕ) → lo ≤ y → leb y hi ≡ leb lo y && leb y hi
    here y below = ground arith
