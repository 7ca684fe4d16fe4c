-- ===== src/Entries/Upsert.antt =====
-- What an upsert answers and leaves: the identity of the request, its repeat, and the owner's other ranges.
use trader_joe.Base.{
  ℕ, ◌≡◌, ◌≢◌, ◌∙◌, inl, inr, refl, ap, sym, subst, Bool, true, false, ◌&&◌, Option, none, some,
  List, [], ◌∷◌, map, filter, arith, ◌==◌, ==_refl, if◌then◌else◌, Bool-cases, Option-cases,
}
use trader_joe.Market.{UpdateType, static, daily, stream}
use trader_joe.Entries.{
  Spec, same_update_type, same_spec, Range, same_range, StoreDatasetEntry, same_identity, Store,
  own_overlap_conflict, Attempt, committed, refused, ids_of, overlaps, find_own_overlap,
  find_identity, update_row,
}
use trader_joe.Entries.Writes.{
  AssetDatasetStoreCreate, requested, check_own_overlap, resolved_collect, new_row, repeated,
  insert_row, upsert_row, upsert_entry_in_transaction, upsert_entry,
}
use trader_joe.Entries.Identity.{KeepsKey}
use trader_joe.Entries.Kept.{repeated-KeepsKey}

same_update_type_refl : (u : UpdateType) → same_update_type u u ≡ true
same_update_type_refl static = refl
same_update_type_refl daily = refl
same_update_type_refl stream = refl

same_spec_refl : (a : Spec) → same_spec a a ≡ true
unfolding same_spec
same_spec_refl a =
    rw
      (
        ==_refl a.asset_symbol,
        ==_refl a.source,
        ==_refl a.granularity,
        ==_refl a.asset_type,
        ==_refl a.data_type,
        ==_refl a.owner,
        ==_refl a.expiry_type,
        same_update_type_refl a.update_type,
      )
      refl

same_range_refl : (r : Range) → same_range r r ≡ true
same_range_refl r = rw (==_refl r.start, ==_refl r.end) refl

-- A range is not reported as overlapping itself.
overlaps_self : (r : Range) → overlaps r r ≡ false
unfolding overlaps
overlaps_self r = ground (arith, same_range_refl r)

-- The change of one row of the table.
abbrev one_row : ℕ → (StoreDatasetEntry → StoreDatasetEntry) → StoreDatasetEntry → StoreDatasetEntry
one_row id f e = if e.id == id then f e else e

one_row-KeepsKey :
    (id : ℕ) (f : StoreDatasetEntry → StoreDatasetEntry) → KeepsKey f → KeepsKey (one_row id f)
one_row-KeepsKey id f keeps e = elim (Bool-cases (e.id == id)) [
  | inl h ↦ rw h (keeps e)
  | inr h ↦ rw h (refl, refl, refl, refl)
]

ids_of-map :
    (g : StoreDatasetEntry → StoreDatasetEntry)
    → KeepsKey g
    → (es : List StoreDatasetEntry) → ids_of (map g es) ≡ ids_of es
ids_of-map g keeps [] = refl
ids_of-map g keeps (e ∷ es) = rw ((keeps e).0, ids_of-map g keeps es) refl

find_own-map :
    (g : StoreDatasetEntry → StoreDatasetEntry) (keeps : KeepsKey g) (spec : Spec) (range : Range)
    (es : List StoreDatasetEntry)
    → ids_of (filter (λ e. same_spec e.spec spec && overlaps range e.range) (map g es))
      ≡ ids_of (filter (λ e. same_spec e.spec spec && overlaps range e.range) es)
find_own-map g keeps spec range [] = refl
find_own-map g keeps spec range (e ∷ es) =
    let (i, p, _, r) = keeps e in
    elim (Bool-cases (same_spec e.spec spec && overlaps range e.range)) [
      | inl h ↦ rw (p, r, h, i, find_own-map g keeps spec range es) refl
      | inr h ↦ rw (p, r, h, find_own-map g keeps spec range es) refl
    ]

abbrev apply_to :
    (StoreDatasetEntry → StoreDatasetEntry) → Option StoreDatasetEntry → Option StoreDatasetEntry
apply_to g none = none
apply_to g (some e) = some (g e)

find_identity-map :
    (g : StoreDatasetEntry → StoreDatasetEntry) (keeps : KeepsKey g) (spec : Spec) (feed : ℕ)
    (range : Range) (es : List StoreDatasetEntry)
    → find_identity (map g es) spec feed range ≡ apply_to g (find_identity es spec feed range)
find_identity-map g keeps spec feed range [] = refl
find_identity-map g keeps spec feed range (e ∷ es) =
    elim (Bool-cases (same_identity e spec feed range)) [
      | inl h ↦ rw (h, same_key h) refl
      | inr h ↦ rw (h, same_key h, find_identity-map g keeps spec feed range es) refl
    ]
  where
    same_key :
        {b : Bool} → same_identity e spec feed range ≡ b → same_identity (g e) spec feed range ≡ b
    same_key h = let (i, p, t, r) = keeps e in rw (p, t, r) h

-- What an upsert within a transaction leaves and answers.
record IsUpserted (s t : Store) (entry : AssetDatasetStoreCreate) (id : ℕ) : Type 0 where
  stored :
      (row : StoreDatasetEntry) × (find_identity t.entries entry.spec entry.feed (requested entry)
        ≡ some row)
      × (row.id ≡ id)
  same_overlap :
      find_own_overlap t entry.spec (requested entry)
      ≡ find_own_overlap s entry.spec (requested entry)

new_row-same_identity :
    (s : Store) (entry : AssetDatasetStoreCreate) (collect : Option Bool) (now : ℕ)
    → same_identity (new_row s entry collect now) entry.spec entry.feed (requested entry) ≡ true
new_row-same_identity s entry collect now =
    rw (same_spec_refl entry.spec, ==_refl entry.feed, same_range_refl (requested entry)) refl

insert_row-IsUpserted :
    (s : Store) (entry : AssetDatasetStoreCreate) (collect : Option Bool) (now : ℕ)
    → IsUpserted s (insert_row s entry collect now).0 entry s.next_id
unfolding find_own_overlap
insert_row-IsUpserted s entry collect now = record {
  stored = (new_row s entry collect now, rw (new_row-same_identity s entry collect now) refl, refl);
  same_overlap = rw (same_spec_refl entry.spec, overlaps_self (requested entry)) refl;
}

update_row-IsUpserted :
    (s : Store) (entry : AssetDatasetStoreCreate) (f : StoreDatasetEntry → StoreDatasetEntry)
    (keeps : KeepsKey f) (e : StoreDatasetEntry)
    → find_identity s.entries entry.spec entry.feed (requested entry) ≡ some e
    → IsUpserted s (update_row e.id f s) entry e.id
unfolding find_own_overlap
update_row-IsUpserted s entry f keeps e found =
    let g = one_row e.id f in
    let kept = one_row-KeepsKey e.id f keeps in
    record {
      stored = (
        g e,
        find_identity-map g kept entry.spec entry.feed (requested entry) s.entries
            ∙ ap (apply_to g) found,
        (kept e).0,
      );
      same_overlap = find_own-map g kept entry.spec (requested entry) s.entries;
    }

upsert_entry_in_transaction-IsUpserted :
    (s : Store) (entry : AssetDatasetStoreCreate) (preserve : Bool) (collect : Option Bool)
    (now : ℕ)
    → let (t, id) = upsert_entry_in_transaction s entry preserve collect now in
      IsUpserted s t entry id
unfolding upsert_entry_in_transaction upsert_row
upsert_entry_in_transaction-IsUpserted s entry preserve collect now =
    let resolved = resolved_collect entry.spec.update_type collect in
    elim (Option-cases (find_identity s.entries entry.spec entry.feed (requested entry))) [
      | inl e ↦ rw e (insert_row-IsUpserted s entry resolved now)
      | inr (found, e) ↦ rw e (
          update_row-IsUpserted s entry (repeated preserve entry.expiry collect resolved now)
            (repeated-KeepsKey preserve entry.expiry collect resolved now) found e)
    ]

-- The same dataset, asked for again when `ids` overlap it: its id and no other row than before, or a refusal.
abbrev pub Repeats : Store → List ℕ → ℕ → Attempt ℕ → Type 0
Repeats t ids id (committed t' id') =
    (ids ≡ []) × (id' ≡ id) × (ids_of t'.entries ≡ ids_of t.entries) × (t'.next_id ≡ t.next_id)
Repeats t ids id (refused t' why) = (t' ≡ t) × (ids ≢ []) × (why ≡ own_overlap_conflict ids)

abbrev alone : Store → Store
alone s = s

-- What `upsert_entry` answers from `s`, and what the same request is answered later. `m` is the store at the insert.
abbrev pub Upserts : Store → Store → AssetDatasetStoreCreate → Option Bool → ℕ → Attempt ℕ → Type 0
Upserts s m entry again later (committed t id) =
    (find_own_overlap s entry.spec (requested entry) ≡ [])
    × (find_own_overlap t entry.spec (requested entry)
        ≡ find_own_overlap m entry.spec (requested entry))
    × ((row : StoreDatasetEntry) × (find_identity t.entries entry.spec entry.feed (requested entry)
          ≡ some row)
        × (row.id ≡ id))
    × Repeats t (find_own_overlap m entry.spec (requested entry)) id
        (upsert_entry alone t entry again later)
Upserts s m entry again later (refused t why) =
    (t ≡ s)
    × (find_own_overlap s entry.spec (requested entry) ≢ [])
    × (why ≡ own_overlap_conflict (find_own_overlap s entry.spec (requested entry)))

exact_repeat :
    (t : Store) (entry : AssetDatasetStoreCreate) (again : Option Bool) (later : ℕ)
    (row : StoreDatasetEntry) (ids : List ℕ)
    → find_own_overlap t entry.spec (requested entry) ≡ ids
    → find_identity t.entries entry.spec entry.feed (requested entry) ≡ some row
    → Repeats t ids row.id (upsert_entry alone t entry again later)
unfolding upsert_entry check_own_overlap upsert_entry_in_transaction upsert_row
exact_repeat t entry again later row [] free found =
    let change =
      repeated false entry.expiry again (resolved_collect entry.spec.update_type again) later in
    let keeps =
      one_row-KeepsKey row.id change (repeated-KeepsKey false entry.expiry again _ later) in
    rw (free, found, Repeats) (refl, refl, ids_of-map (one_row row.id change) keeps t.entries, refl)
exact_repeat t entry again later row (id ∷ ids) taken found =
    rw (taken, Repeats) (refl, (λ h. absurd (cc)), refl)

upserted :
    (s m t : Store) (entry : AssetDatasetStoreCreate) (again : Option Bool) (later id : ℕ)
    → find_own_overlap s entry.spec (requested entry) ≡ []
    → IsUpserted m t entry id
    → Upserts s m entry again later (committed t id)
upserted s m t entry again later id free is =
    let (row, found, same) = is.stored in
    (
      free,
      is.same_overlap,
      (row, found, same),
      subst
          (λ (i : ℕ).
            Repeats t (find_own_overlap m entry.spec (requested entry)) i
              (upsert_entry alone t entry again later))
          same
          (exact_repeat t entry again later row (find_own_overlap m entry.spec (requested entry))
            is.same_overlap found),
    )

-- An upsert is refused exactly with the ids of the owner's rows of the same spec whose ranges overlap the requested one
-- at the check, when there are any, and then changes nothing. Else it commits, whatever others commit between the check
-- and the insert: the identity requested is stored under the id it answers with, and the rows of the same spec that
-- overlap it are those that overlapped it at the insert, which only others can have stored since the check. If there are
-- none, the same request made again is answered with the same id and adds no row; otherwise it is refused with those
-- rows.
pub upsert_entry-Upserts :
    (meanwhile : Store → Store) (s : Store) (entry : AssetDatasetStoreCreate)
    (collect : Option Bool) (now : ℕ) (again : Option Bool) (later : ℕ)
    → Upserts s (meanwhile s) entry again later (upsert_entry meanwhile s entry collect now)
unfolding upsert_entry check_own_overlap
upsert_entry-Upserts meanwhile s entry collect now again later =
    cases (find_own_overlap s entry.spec (requested entry)) refl
  where
    cases :
        (ids : List ℕ)
        → find_own_overlap s entry.spec (requested entry) ≡ ids
        → Upserts s (meanwhile s) entry again later (upsert_entry meanwhile s entry collect now)
    cases [] free =
        let (t, id) = upsert_entry_in_transaction (meanwhile s) entry false collect now in
        let is : IsUpserted (meanwhile s) t entry id =
          upsert_entry_in_transaction-IsUpserted (meanwhile s) entry false collect now in
        rw (free, Upserts) (upserted s (meanwhile s) t entry again later id free is)
    cases (id ∷ ids) taken =
        rw (taken, Upserts) (refl, (λ h. absurd (cc)), ap own_overlap_conflict (sym taken))
