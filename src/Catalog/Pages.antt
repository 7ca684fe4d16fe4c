-- ===== src/Catalog/Pages.antt =====
-- Following the cursors from the first page.
use trader_joe.Base.{
  ℕ, zero, suc, ◌≡◌, ◌≢◌, ◌∙◌, inl, inr, refl, ap, sym, subst, Bool, true, false, Option, none,
  some, List, [], ◌∷◌, map, take, drop, Bool-cases, All, All-map,
}
use trader_joe.Catalog.{
  Text, DatasetSort, symbol, expires, last_read, CatalogRow, Key, key_lt, Usage, tail_of,
  last_read_key, expires_key, sort_key, json_of, key_of_shape, cursor_for, key_from_cursor, str,
}
use trader_joe.Catalog.Listing.{
  CatalogQuery, Answers, keep_expiring, keep_usage, keep_running, matches, views_of, after_key,
  last_of,
}
use trader_joe.Catalog.Order.{
  key_lt-IsOrder, IsSorted, HasKeys, sorted-IsSorted, filter-IsSorted, filter-HasKeys,
}

-- The cursor of a row gives its key back.
pub cursor_key :
    (is_uuid : Text → Bool) (sort : DatasetSort) (usage : Usage) (row : CatalogRow)
    → is_uuid row.id ≡ true
    → key_from_cursor is_uuid (cursor_for sort usage row) sort ≡ some (sort_key sort usage row)
unfolding key_from_cursor cursor_for sort_key
cursor_key is_uuid symbol usage row h = rw h refl
cursor_key is_uuid expires usage row h = dated row.expiry
  where
    dated :
        (e : Option ℕ)
        → key_of_shape is_uuid expires (map json_of (expires_key e (tail_of row)))
          ≡ some (expires_key e (tail_of row))
    dated none = rw h refl
    dated (some t) = rw h refl
cursor_key is_uuid last_read usage row h = dated (usage row.id)
  where
    dated :
        (t : Option ℕ)
        → key_of_shape is_uuid last_read (map json_of (last_read_key t (tail_of row)))
          ≡ some (last_read_key t (tail_of row))
    dated none = rw h refl
    dated (some t) = rw h refl

abbrev id_part : Key → Text
id_part (_ ∷ str id ∷ []) = id
id_part (_ ∷ _ ∷ _ ∷ str id ∷ []) = id
id_part _ = []

id_part-sort_key :
    (sort : DatasetSort) (usage : Usage) (row : CatalogRow)
    → id_part (sort_key sort usage row) ≡ row.id
unfolding sort_key
id_part-sort_key symbol usage row = refl
id_part-sort_key expires usage row = dated row.expiry
  where
    dated : (e : Option ℕ) → id_part (expires_key e (tail_of row)) ≡ row.id
    dated none = refl
    dated (some t) = refl
id_part-sort_key last_read usage row = dated (usage row.id)
  where
    dated : (t : Option ℕ) → id_part (last_read_key t (tail_of row)) ≡ row.id
    dated none = refl
    dated (some t) = refl

-- Rows with an id each.
abbrev pub HasIds : List CatalogRow → Type 0
HasIds rows = HasKeys (λ row. str row.id ∷ []) rows

ids-HasKeys :
    (sort : DatasetSort) (usage : Usage) (rs : List CatalogRow)
    → HasIds rs
    → HasKeys (sort_key sort usage) rs
unfolding HasKeys
ids-HasKeys sort usage [] h = tt
ids-HasKeys sort usage (r ∷ rs) (differ, h) = (All-map apart rs differ, ids-HasKeys sort usage rs h)
  where
    apart :
        (s : CatalogRow)
        → (str r.id ∷ []) ≢ (str s.id ∷ [])
        → sort_key sort usage r ≢ sort_key sort usage s
    apart s differs same = differs (
        ap (λ (id : Text). str id ∷ [])
          (sym (id_part-sort_key sort usage r) ∙ ap id_part same ∙ id_part-sort_key sort usage s))

pub views_of-IsSorted :
    (q : CatalogQuery) (a : Answers)
    → HasIds a.rows
    → IsSorted (sort_key q.sort a.last_read_of) (views_of q a)
unfolding views_of
views_of-IsSorted q a h =
    let key = sort_key q.sort a.last_read_of in
    filter-IsSorted key (matches q a) _ (
      filter-IsSorted key (keep_running q.running a) _ (
        sorted-IsSorted key _ (
          filter-HasKeys key (keep_usage q.usage q.stale_days a) _ (
            filter-HasKeys key (keep_expiring q.expires_before a) a.rows
              (ids-HasKeys q.sort a.last_read_of a.rows h)))))

row_or : CatalogRow → Option CatalogRow → CatalogRow
row_or r none = r
row_or r (some s) = s

some_inj : (r s : CatalogRow) → some r ≡ some s → r ≡ s
unfolding row_or
some_inj r s h = ap (row_or r) h

module _ (key : CatalogRow → Key) where
  pub All-last :
      (P : CatalogRow → Type 0) (n : ℕ) (rs : List CatalogRow) (p : CatalogRow)
      → All P rs
      → last_of (take n rs) ≡ some p
      → P p
  All-last P zero rs p h e = absurd (cc)
  All-last P (suc n) [] p h e = absurd (cc)
  All-last P (suc zero) (r ∷ rs) p (h, hs) e = subst P (some_inj r p e) h
  All-last P (suc (suc n)) (r ∷ []) p (h, hs) e = subst P (some_inj r p e) h
  All-last P (suc (suc n)) (r ∷ s ∷ rs) p (h, hs) e = All-last P (suc n) (s ∷ rs) p hs e

  all_after :
      (k : Key) (rs : List CatalogRow)
      → All (λ s. key_lt k (key s) ≡ true) rs
      → after_key key (some k) rs ≡ rs
  all_after k [] h = refl
  all_after k (r ∷ rs) (h, hs) = rw (h, all_after k rs hs) refl

  -- After the last row of a page come the rest of the rows.
  pub after_last :
      (n : ℕ) (rs : List CatalogRow) (p : CatalogRow)
      → IsSorted key rs
      → last_of (take n rs) ≡ some p
      → after_key key (some (key p)) rs ≡ drop n rs
  unfolding IsSorted
  after_last zero rs p s e = absurd (cc)
  after_last (suc n) [] p s e = absurd (cc)
  after_last (suc zero) (r ∷ rs) p (first, s) e =
      subst (λ (x : CatalogRow). after_key key (some (key x)) (r ∷ rs) ≡ rs) (some_inj r p e)
        (rw (key_lt-IsOrder.irrefl (key r)) (all_after (key r) rs first))
  after_last (suc (suc n)) (r ∷ []) p (first, s) e =
      subst (λ (x : CatalogRow). after_key key (some (key x)) (r ∷ []) ≡ []) (some_inj r p e)
        (rw (key_lt-IsOrder.irrefl (key r)) refl)
  after_last (suc (suc n)) (r ∷ t ∷ rs) p (first, s) e =
      rw passed (after_last (suc n) (t ∷ rs) p s e)
    where
      ahead : key_lt (key r) (key p) ≡ true
      ahead = All-last (λ x. key_lt (key r) (key x) ≡ true) (suc n) (t ∷ rs) p first e

      passed : key_lt (key p) (key r) ≡ false
      passed = elim (Bool-cases (key_lt (key p) (key r))) [
        | inr f ↦ f
        | inl f ↦
            let loop = key_lt-IsOrder.trans (key r) (key p) (key r) ahead f in
            let still = key_lt-IsOrder.irrefl (key r) in absurd (cc)
      ]

  -- What comes after a row that comes after a key.
  pub after_after :
      (k : Key) (p : CatalogRow) (rs : List CatalogRow)
      → key_lt k (key p) ≡ true
      → after_key key (some (key p)) (after_key key (some k) rs) ≡ after_key key (some (key p)) rs
  after_after k p [] h = refl
  after_after k p (r ∷ rs) h = elim (Bool-cases (key_lt (key p) (key r))) [
    | inl e ↦
        rw (e, key_lt-IsOrder.trans k (key p) (key r) h e, e) (ap (◌∷◌ r) (after_after k p rs h))
    | inr e ↦ elim (Bool-cases (key_lt k (key r))) [
      | inl f ↦ rw (e, f, e) (after_after k p rs h)
      | inr f ↦ rw (e, f) (after_after k p rs h)
    ]
  ]
