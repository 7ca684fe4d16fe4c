-- ===== src/Catalog/Walk.antt =====
-- Every row of the catalogue is on one page, and the pages end.
use trader_joe.Base.{
  ℕ, zero, suc, ◌+◌, ◌≤◌, ◌<◌, ◌≡◌, ◌∙◌, inl, inr, refl, ap, sym, subst, Bool, true, false, Option,
  none, some, List, [], ◌∷◌, ◌++◌, length, take, drop, length-take, length-drop, take-append-drop,
  take_all, filter, arith, ltb, Bool-cases, All, All-filter,
}
use trader_joe.Catalog.{Text, CatalogRow, Key, key_lt, sort_key, Cursor, cursor_for}
use trader_joe.Catalog.Listing.{
  CatalogQuery, Answers, keep_expiring, keep_usage, keep_running, matches, views_of, after_key,
  last_of, page_after, list_page,
}
use trader_joe.Catalog.Order.{IsSorted, filter-IsSorted, sorted-All}
use trader_joe.Catalog.Pages.{
  cursor_key, HasIds, views_of-IsSorted, after_last, after_after, All-last,
}

abbrev prepend : List CatalogRow → Option (List CatalogRow) → Option (List CatalogRow)
prepend rows none = none
prepend rows (some rest) = some (rows ++ rest)

-- The rows of a page and of those that follow it, up to a number of them. None is a refusal or an end that is not reached.
abbrev pub follow :
    (Text → Bool)
    → CatalogQuery
    → Answers
    → ℕ
    → Option (List CatalogRow × Option Cursor)
    → Option (List CatalogRow)
follow is_uuid q a n none = none
follow is_uuid q a n (some (page, none)) = some page
follow is_uuid q a zero (some (page, some cursor)) = none
follow is_uuid q a (suc n) (some (page, some cursor)) =
    prepend page (follow is_uuid q a n (list_page is_uuid q a (some cursor)))

filter-holds :
    (p : CatalogRow → Bool) (rs : List CatalogRow) → All (λ row. p row ≡ true) (filter p rs)
filter-holds p [] = tt
filter-holds p (r ∷ rs) = elim (Bool-cases (p r)) [
  | inl h ↦ rw h (h, filter-holds p rs)
  | inr h ↦ rw h (filter-holds p rs)
]

page_rows : (n : ℕ) (rs : List CatalogRow) → take n (take (suc n) rs) ≡ take n rs
page_rows zero rs = refl
page_rows (suc n) [] = refl
page_rows (suc n) (r ∷ rs) = ap (◌∷◌ r) (page_rows n rs)

some_last :
    (n : ℕ) (rs : List CatalogRow)
    → 1 ≤ n
    → 1 ≤ length rs
    → (p : CatalogRow) × (last_of (take n rs) ≡ some p)
some_last zero rs h k = absurd (omega (arith, h))
some_last (suc n) [] h k = absurd (omega (arith, k))
some_last (suc zero) (r ∷ rs) h k = (r, refl)
some_last (suc (suc n)) (r ∷ []) h k = (r, refl)
some_last (suc (suc n)) (r ∷ s ∷ rs) h k = some_last (suc n) (s ∷ rs) (omega arith) (omega arith)

module _ (is_uuid : Text → Bool) (q : CatalogQuery) (a : Answers) (ids : HasIds a.rows)
    (uuids : All (λ row. is_uuid row.id ≡ true) a.rows) where
  views-uuids : All (λ row. is_uuid row.id ≡ true) (views_of q a)
  unfolding views_of
  views-uuids =
      let P : CatalogRow → Type 0 = λ row. is_uuid row.id ≡ true in
      All-filter P (matches q a) _ (
        All-filter P (keep_running q.running a) _ (
          sorted-All P (sort_key q.sort a.last_read_of) _ (
            All-filter P (keep_usage q.usage q.stale_days a) _
              (All-filter P (keep_expiring q.expires_before a) a.rows uuids))))

  -- The rows after a key, if there is one.
  remaining : Option Key → List CatalogRow
  remaining after = after_key (sort_key q.sort a.last_read_of) after (views_of q a)

  remaining-IsSorted :
      (after : Option Key) → IsSorted (sort_key q.sort a.last_read_of) (remaining after)
  unfolding remaining
  remaining-IsSorted none = views_of-IsSorted q a ids
  remaining-IsSorted (some k) =
      filter-IsSorted (sort_key q.sort a.last_read_of) _ (views_of q a) (views_of-IsSorted q a ids)

  remaining-uuids : (after : Option Key) → All (λ row. is_uuid row.id ≡ true) (remaining after)
  unfolding remaining
  remaining-uuids none = views-uuids
  remaining-uuids (some k) = All-filter (λ row. is_uuid row.id ≡ true) _ (views_of q a) views-uuids

  -- After the last row of a page: the rest.
  remaining_after :
      (after : Option Key) (n : ℕ) (p : CatalogRow)
      → last_of (take n (remaining after)) ≡ some p
      → remaining (some (sort_key q.sort a.last_read_of p)) ≡ drop n (remaining after)
  unfolding remaining
  remaining_after none n p e =
      after_last (sort_key q.sort a.last_read_of) n (views_of q a) p (views_of-IsSorted q a ids) e
  remaining_after (some k) n p e =
      let key = sort_key q.sort a.last_read_of in
      let rows = after_key key (some k) (views_of q a) in
      let beyond =
        All-last key (λ row. key_lt k (key row) ≡ true) n rows p (filter-holds _ (views_of q a))
          e in
      sym (after_after key k p (views_of q a) beyond)
      ∙ after_last key n rows p (remaining-IsSorted (some k)) e

  window_rows :
      (after : Option Key)
      → take q.limit (take (q.limit + 1) (remaining after)) ≡ take q.limit (remaining after)
  window_rows after =
      let next : q.limit + 1 ≡ suc q.limit = omega arith in
      subst (λ (n : ℕ). take q.limit (take n (remaining after)) ≡ take q.limit (remaining after))
        (sym next) (page_rows q.limit (remaining after))

  -- The last page, which has all that remains, and one that is not the last, with the cursor of its last row.
  last_page :
      (after : Option Key)
      → length (remaining after) ≤ q.limit
      → page_after q a after ≡ (remaining after, none)
  unfolding page_after remaining
  last_page after all =
      let l = length-take (q.limit + 1) (remaining after) in
      let over : ltb q.limit (length (take (q.limit + 1) (remaining after))) ≡ false =
        ground (arith, l, all) in
      rw (over, window_rows after, take_all q.limit (remaining after) all) refl

  full_page :
      (after : Option Key) (p : CatalogRow)
      → q.limit < length (remaining after)
      → last_of (take q.limit (remaining after)) ≡ some p
      → page_after q a after
        ≡ (take q.limit (remaining after), some (cursor_for q.sort a.last_read_of p))
  unfolding page_after remaining
  full_page after p some_left e =
      let l = length-take (q.limit + 1) (remaining after) in
      let over : ltb q.limit (length (take (q.limit + 1) (remaining after))) ≡ true =
        ground (arith, l, some_left) in
      rw (over, window_rows after, e) refl

  list_page-cursor :
      (p : CatalogRow)
      → is_uuid p.id ≡ true
      → list_page is_uuid q a (some (cursor_for q.sort a.last_read_of p))
        ≡ some (page_after q a (some (sort_key q.sort a.last_read_of p)))
  unfolding list_page
  list_page-cursor p h = rw (cursor_key is_uuid q.sort a.last_read_of p h) refl

  shorter :
      (n : ℕ) (rs : List CatalogRow)
      → 1 ≤ q.limit
      → length rs ≤ suc n
      → length (drop q.limit rs) ≤ n
  shorter n rs h k = let l = length-drop q.limit rs in omega (arith, l, h, k)

  Follows : ℕ → Option Key → List CatalogRow × Option Cursor → Type 0
  Follows n after page = follow is_uuid q a n (some page) ≡ some (remaining after)

  -- The pages from one on, when at least as many may be followed as rows remain.
  follow-page :
      (n : ℕ) (after : Option Key)
      → 1 ≤ q.limit
      → length (remaining after) ≤ n
      → Follows n after (page_after q a after)
  unfolding Follows
  follow-page zero after roomy enough =
      subst (Follows zero after) (sym (last_page after (omega (arith, enough)))) refl
  follow-page (suc m) after roomy enough =
      elim (Bool-cases (ltb q.limit (length (remaining after)))) [
        | inr last ↦
            subst (Follows (suc m) after) (sym (last_page after (ground (arith, last)))) refl
        | inl more ↦
            let left : q.limit < length (remaining after) = ground (arith, more) in
            let key = sort_key q.sort a.last_read_of in
            let (p, e) = some_last q.limit (remaining after) roomy (omega (arith, left)) in
            let is =
              All-last key (λ row. is_uuid row.id ≡ true) q.limit (remaining after) p
                (remaining-uuids after) e in
            let rest = remaining_after after q.limit p e in
            let next = follow-page m (some (key p)) roomy (
              subst (λ (rs : List CatalogRow). length rs ≤ m) (sym rest)
                (shorter m (remaining after) roomy enough)) in
            subst (Follows (suc m) after) (sym (full_page after p left e)) (
              rw (list_page-cursor p is, next, rest)
                (ap some (take-append-drop q.limit (remaining after))))
      ]

-- While the datasets do not change and each has an id of its own, which reads as a UUID, following the cursors from the
-- first page to the last gives every row that the query selects exactly once, in the query's order, if a page has room
-- for one row. As many cursors as there are rows are enough, and no cursor is refused.
pub list_page-views_of :
    (is_uuid : Text → Bool) (q : CatalogQuery) (a : Answers)
    → HasIds a.rows
    → All (λ row. is_uuid row.id ≡ true) a.rows
    → 1 ≤ q.limit
    → (follow is_uuid q a (length (views_of q a)) (list_page is_uuid q a none)
        ≡ some (views_of q a))
      × IsSorted (sort_key q.sort a.last_read_of) (views_of q a)
unfolding list_page Follows remaining
list_page-views_of is_uuid q a ids uuids roomy = (
  follow-page is_uuid q a ids uuids (length (views_of q a)) none roomy (omega arith),
  views_of-IsSorted q a ids,
)
