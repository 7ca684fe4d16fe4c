-- ===== src/Catalog/Order.antt =====
-- The order of the keys, and what sorting by them gives.
use trader_joe.Base.{
  ◌≡◌, ◌≢◌, inl, inr, refl, ap, sym, subst, Bool, true, false, List, [], ◌∷◌, arith, ltb,
  Bool-cases, filter, All, All-map, All-filter,
}
use trader_joe.Base.Delta.{ℤ, pos, negsuc}
use trader_joe.Catalog.{
  CatalogRow, Part, int, str, lex_lt, int_lt, part_lt, Key, key_lt, insert, sorted,
}

-- A strict total order.
pub record IsOrder {ℓ} {A : Type ℓ} (lt : A → A → Bool) : Type ℓ where
  pub irrefl : (a : A) → lt a a ≡ false
  pub trans : (a b c : A) → lt a b ≡ true → lt b c ≡ true → lt a c ≡ true
  pub total : (a b : A) → lt a b ≡ false → lt b a ≡ false → a ≡ b

ltb-IsOrder : IsOrder ltb
ltb-IsOrder = record {
  irrefl = λ a. ground arith;
  trans = λ a b c h k. ground (arith, h, k);
  total = λ a b h k. ground (arith, h, k);
}

module _ {ℓ} {A : Type ℓ} (lt : A → A → Bool) (o : IsOrder lt) where
  lex_irrefl : (xs : List A) → lex_lt lt xs xs ≡ false
  lex_irrefl [] = refl
  lex_irrefl (x ∷ xs) = rw (o.irrefl x) (lex_irrefl xs)

  lex_total : (xs ys : List A) → lex_lt lt xs ys ≡ false → lex_lt lt ys xs ≡ false → xs ≡ ys
  lex_total [] [] h k = refl
  lex_total [] (y ∷ ys) h k = absurd (cc)
  lex_total (x ∷ xs) [] h k = absurd (cc)
  lex_total (x ∷ xs) (y ∷ ys) h k = elim (Bool-cases (lt x y)) [
    | inl a ↦ absurd (cc (rw a at h))
    | inr a ↦ elim (Bool-cases (lt y x)) [
      | inl b ↦ absurd (cc (rw b at k))
      | inr b ↦
          let same : x ≡ y = o.total x y a b in
          let rest : xs ≡ ys = lex_total xs ys (rw (a, b) at h) (rw (b, a) at k) in cc
    ]
  ]

  lex_trans :
      (xs ys zs : List A) → lex_lt lt xs ys ≡ true → lex_lt lt ys zs ≡ true → lex_lt lt xs zs ≡ true
  lex_trans [] [] zs h k = absurd (cc)
  lex_trans [] (y ∷ ys) [] h k = absurd (cc)
  lex_trans [] (y ∷ ys) (z ∷ zs) h k = refl
  lex_trans (x ∷ xs) [] zs h k = absurd (cc)
  lex_trans (x ∷ xs) (y ∷ ys) [] h k = absurd (cc)
  lex_trans (x ∷ xs) (y ∷ ys) (z ∷ zs) h k = elim (Bool-cases (lt x y)) [
    | inl a ↦ elim (Bool-cases (lt y z)) [
      | inl b ↦ rw (o.trans x y z a b) refl
      | inr b ↦ elim (Bool-cases (lt z y)) [
        | inl c ↦ absurd (cc (rw (b, c) at k))
        | inr c ↦ rw (subst (λ (w : A). lt x w ≡ true) (o.total y z b c) a) refl
      ]
    ]
    | inr a ↦ elim (Bool-cases (lt y x)) [
      | inl b ↦ absurd (cc (rw (a, b) at h))
      | inr b ↦ elim (Bool-cases (lt x z)) [
        | inl c ↦ rw c refl
        | inr c ↦ elim (Bool-cases (lt z x)) [
          | inl d ↦ absurd (
              cc (
                rw (c, d) at
                  (subst (λ (w : A). lex_lt lt (w ∷ ys) (z ∷ zs) ≡ true) (sym (o.total x y a b))
                    k)))
          | inr d ↦
              let first : lex_lt lt xs ys ≡ true = rw (a, b) at h in
              let second : lex_lt lt ys zs ≡ true =
                rw (c, d) at
                  (subst (λ (w : A). lex_lt lt (w ∷ ys) (z ∷ zs) ≡ true) (sym (o.total x y a b))
                    k) in
              rw (c, d) (lex_trans xs ys zs first second)
        ]
      ]
    ]
  ]

  lex_lt-IsOrder : IsOrder (lex_lt lt)
  lex_lt-IsOrder = record { irrefl = lex_irrefl; trans = lex_trans; total = lex_total }

int_total : (a b : ℤ) → int_lt a b ≡ false → int_lt b a ≡ false → a ≡ b
int_total (pos m) (pos n) h k = ap pos (ground (arith, h, k))
int_total (pos m) (negsuc n) h k = absurd (cc)
int_total (negsuc m) (pos n) h k = absurd (cc)
int_total (negsuc m) (negsuc n) h k = ap negsuc (ground (arith, h, k))

int_trans : (a b c : ℤ) → int_lt a b ≡ true → int_lt b c ≡ true → int_lt a c ≡ true
int_trans (pos m) (pos n) (pos o) h k = ground (arith, h, k)
int_trans (pos m) (pos n) (negsuc o) h k = absurd (cc)
int_trans (pos m) (negsuc n) c h k = absurd (cc)
int_trans (negsuc m) (pos n) (pos o) h k = refl
int_trans (negsuc m) (pos n) (negsuc o) h k = absurd (cc)
int_trans (negsuc m) (negsuc n) (pos o) h k = refl
int_trans (negsuc m) (negsuc n) (negsuc o) h k = ground (arith, h, k)

int_irrefl : (a : ℤ) → int_lt a a ≡ false
int_irrefl (pos n) = ground arith
int_irrefl (negsuc n) = ground arith

text-IsOrder : IsOrder (lex_lt ltb)
text-IsOrder = lex_lt-IsOrder ltb ltb-IsOrder

part_irrefl : (a : Part) → part_lt a a ≡ false
part_irrefl (int n) = int_irrefl n
part_irrefl (str t) = text-IsOrder.irrefl t

part_trans : (a b c : Part) → part_lt a b ≡ true → part_lt b c ≡ true → part_lt a c ≡ true
part_trans (int a) (int b) (int c) h k = int_trans a b c h k
part_trans (int a) (int b) (str c) h k = refl
part_trans (int a) (str b) (int c) h k = absurd (cc)
part_trans (int a) (str b) (str c) h k = refl
part_trans (str a) (int b) c h k = absurd (cc)
part_trans (str a) (str b) (int c) h k = absurd (cc)
part_trans (str a) (str b) (str c) h k = text-IsOrder.trans a b c h k

part_total : (a b : Part) → part_lt a b ≡ false → part_lt b a ≡ false → a ≡ b
part_total (int a) (int b) h k = ap int (int_total a b h k)
part_total (int a) (str b) h k = absurd (cc)
part_total (str a) (int b) h k = absurd (cc)
part_total (str a) (str b) h k = ap str (text-IsOrder.total a b h k)

-- The keys are ordered by their first difference, and two keys without one are the same.
pub key_lt-IsOrder : IsOrder key_lt
key_lt-IsOrder =
    lex_lt-IsOrder part_lt (record { irrefl = part_irrefl; trans = part_trans; total = part_total })

-- Rows in the strict order of their keys.
unfoldable pub IsSorted : (CatalogRow → Key) → List CatalogRow → Type 0
IsSorted key [] = Unit
IsSorted key (r ∷ rs) = All (λ s. key_lt (key r) (key s) ≡ true) rs × IsSorted key rs

-- Rows with a key each.
unfoldable pub HasKeys : (CatalogRow → Key) → List CatalogRow → Type 0
HasKeys key [] = Unit
HasKeys key (r ∷ rs) = All (λ s. key r ≢ key s) rs × HasKeys key rs

insert-All :
    (P : CatalogRow → Type 0) (key : CatalogRow → Key) (row : CatalogRow) (rs : List CatalogRow)
    → P row
    → All P rs
    → All P (insert key row rs)
insert-All P key row [] p ps = (p, tt)
insert-All P key row (r ∷ rs) p (h, hs) = elim (Bool-cases (key_lt (key r) (key row))) [
  | inl e ↦ rw e (h, insert-All P key row rs p hs)
  | inr e ↦ rw e (p, (h, hs))
]

pub sorted-All :
    (P : CatalogRow → Type 0) (key : CatalogRow → Key) (rs : List CatalogRow)
    → All P rs
    → All P (sorted key rs)
sorted-All P key [] h = tt
sorted-All P key (r ∷ rs) (h, hs) = insert-All P key r (sorted key rs) h (sorted-All P key rs hs)

insert-IsSorted :
    (key : CatalogRow → Key) (row : CatalogRow) (rs : List CatalogRow)
    → All (λ s. key row ≢ key s) rs
    → IsSorted key rs
    → IsSorted key (insert key row rs)
unfolding IsSorted
insert-IsSorted key row [] differ s = (tt, tt)
insert-IsSorted key row (r ∷ rs) (differs, differ) (first, s) =
    elim (Bool-cases (key_lt (key r) (key row))) [
      | inl e ↦ rw e (
        insert-All (λ t. key_lt (key r) (key t) ≡ true) key row rs e first,
        insert-IsSorted key row rs differ s,
      )
      | inr e ↦ rw e ((before e, All-map (later (before e)) rs first), (first, s))
    ]
  where
    before : key_lt (key r) (key row) ≡ false → key_lt (key row) (key r) ≡ true
    before e = elim (Bool-cases (key_lt (key row) (key r))) [
      | inl f ↦ f
      | inr f ↦ absurd (differs (key_lt-IsOrder.total (key row) (key r) f e))
    ]

    later :
        key_lt (key row) (key r) ≡ true
        → (t : CatalogRow) → key_lt (key r) (key t) ≡ true
        → key_lt (key row) (key t) ≡ true
    later f t g = key_lt-IsOrder.trans (key row) (key r) (key t) f g

pub sorted-IsSorted :
    (key : CatalogRow → Key) (rs : List CatalogRow) → HasKeys key rs → IsSorted key (sorted key rs)
unfolding IsSorted HasKeys
sorted-IsSorted key [] h = tt
sorted-IsSorted key (r ∷ rs) (differ, h) =
    insert-IsSorted key r (sorted key rs) (sorted-All (λ s. key r ≢ key s) key rs differ)
      (sorted-IsSorted key rs h)

pub filter-IsSorted :
    (key : CatalogRow → Key) (p : CatalogRow → Bool) (rs : List CatalogRow)
    → IsSorted key rs
    → IsSorted key (filter p rs)
unfolding IsSorted
filter-IsSorted key p [] s = tt
filter-IsSorted key p (r ∷ rs) (first, s) = elim (Bool-cases (p r)) [
  | inl e ↦
      rw e (All-filter (λ t. key_lt (key r) (key t) ≡ true) p rs first, filter-IsSorted key p rs s)
  | inr e ↦ rw e (filter-IsSorted key p rs s)
]

pub filter-HasKeys :
    (key : CatalogRow → Key) (p : CatalogRow → Bool) (rs : List CatalogRow)
    → HasKeys key rs
    → HasKeys key (filter p rs)
unfolding HasKeys
filter-HasKeys key p [] s = tt
filter-HasKeys key p (r ∷ rs) (first, s) = elim (Bool-cases (p r)) [
  | inl e ↦ rw e (All-filter (λ t. key r ≢ key t) p rs first, filter-HasKeys key p rs s)
  | inr e ↦ rw e (filter-HasKeys key p rs s)
]
