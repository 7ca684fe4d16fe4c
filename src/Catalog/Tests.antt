-- ===== src/Catalog/Tests.antt =====
-- Three datasets by expiry, two on a page.
use trader_joe.Base.{ℕ, ◌≡◌, refl, arith, Bool, true, false, Option, none, some, [], ◌∷◌, length}
use trader_joe.Catalog.{
  Text, symbol, expires, StatusGroup, CatalogRow, sort_key, cursor_for, key_from_cursor,
}
use trader_joe.Catalog.Listing.{CatalogQuery, Answers, views_of, page_after, list_page}
use trader_joe.Catalog.Order.{IsSorted, HasKeys}
use trader_joe.Catalog.Pages.{HasIds}
use trader_joe.Catalog.Walk.{follow, list_page-views_of}

program : Unit {0}
unfolding sort_key cursor_for key_from_cursor views_of page_after list_page HasKeys
program = tt

abbrev row : ℕ → Option ℕ → CatalogRow
row id expiry = record { id = id ∷ []; asset_symbol = 65 ∷ []; expiry = expiry }

abbrev no_group : CatalogRow → Option StatusGroup
no_group r = none

abbrev answers : Answers
answers = record {
  rows = row 1 none ∷ row 2 (some 70) ∷ row 3 (some 50) ∷ [];
  last_read_of = λ id. none;
  pending = λ id. false;
  in_flight = λ id. false;
  group_of = no_group;
  now = 60;
}

abbrev query : CatalogQuery
query = record {
  sort = expires;
  limit = 2;
  usage = none;
  stale_days = 90;
  running = false;
  status = none;
  needs_attention = false;
  expires_before = none;
}

abbrev is_uuid : Text → Bool
is_uuid id = true

first_page :
    list_page is_uuid query answers none
    ≡ some (
      row 3 (some 50) ∷ row 2 (some 70) ∷ [],
      some (cursor_for expires answers.last_read_of (row 2 (some 70))),
    )
unfolding program
first_page = refl

-- A cursor of another order is refused.
other_sort :
    list_page is_uuid query answers
      (some (cursor_for symbol answers.last_read_of (row 2 (some 70))))
    ≡ none
unfolding program
other_sort = refl

ids : HasIds answers.rows
unfolding program
ids = (((λ h. absurd (cc)), ((λ h. absurd (cc)), tt)), (((λ h. absurd (cc)), tt), (tt, tt)))

list_page-views_of_example :
    (follow is_uuid query answers
        (length (views_of query answers))
        (list_page is_uuid query answers none)
      ≡ some (views_of query answers))
    × IsSorted (sort_key expires answers.last_read_of) (views_of query answers)
list_page-views_of_example =
    list_page-views_of is_uuid query answers ids (refl, (refl, (refl, tt))) (omega arith)
