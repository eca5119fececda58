-- ===== src/Instance/Store/Table.antt =====
-- The statements on the table instances: what they keep of its keys, and what SELECT sees of them.
use slimwhats.Base.{
  ◌≡◌, refl, Bool, true, false, not, List, [], ◌∷◌, Option, none, some, Bytes, arith, str_eq,
  str_eq_iff, filter, All, Bool-cases, inl, inr, if◌then◌else◌,
}
use slimwhats.Instance.Store.{Row, select_id, select_name, update_rows}

-- No two rows share an ID or a name.
abbrev pub HasKeys : List Row → Type 0
HasKeys [] = Unit
HasKeys (r ∷ rs) = (select_id r.id rs ≡ none) × (select_name r.name rs ≡ none) × HasKeys rs

abbrev pub changed : (Row → Row) → Option Row → Option Row
changed f none = none
changed f (some r) = some (f r)

module _ (f : Row → Row) (keeps_id : (r : Row) → (f r).id ≡ r.id) where
  pub select_id-update_rows :
      (id j : Bytes) (rows : List Row)
      → select_id j (update_rows f id rows)
        ≡ (if str_eq id j then changed f (select_id j rows) else select_id j rows)
  unfolding select_id update_rows
  select_id-update_rows id j [] = ground arith
  select_id-update_rows id j (r ∷ rs) = ground (
    arith,
    select_id-update_rows id j rs,
    keeps_id r,
    str_eq_iff r.id id,
    str_eq_iff r.id j,
    str_eq_iff id j,
  )

  module _ (keeps_name : (r : Row) → (f r).name ≡ r.name) where
    select_id-none :
        (id j : Bytes) (rows : List Row)
        → select_id j rows ≡ none
        → select_id j (update_rows f id rows) ≡ none
    select_id-none id j rows h = ground (arith, select_id-update_rows id j rows)

    select_name-none :
        (id j : Bytes) (rows : List Row)
        → select_name j rows ≡ none
        → select_name j (update_rows f id rows) ≡ none
    unfolding select_name update_rows
    select_name-none id j [] h = refl
    select_name-none id j (r ∷ rs) h = ground (arith, select_name-none id j rs, keeps_name r)

    pub update_rows-HasKeys :
        (id : Bytes) (rows : List Row) → HasKeys rows → HasKeys (update_rows f id rows)
    unfolding update_rows
    update_rows-HasKeys id [] k = tt
    update_rows-HasKeys id (r ∷ rs) (a, b, k) = (
      ground (arith, select_id-none id r.id rs a, keeps_id r),
      ground (arith, select_name-none id r.name rs b, keeps_name r),
      update_rows-HasKeys id rs k,
    )

abbrev pub other_than : Bytes → Row → Bool
other_than id r = not (str_eq r.id id)

pub select_id-delete :
    (id j : Bytes) (rows : List Row)
    → select_id j (filter (other_than id) rows) ≡ (if str_eq id j then none else select_id j rows)
unfolding select_id
select_id-delete id j [] = ground arith
select_id-delete id j (r ∷ rs) =
    ground (arith, select_id-delete id j rs, str_eq_iff r.id id, str_eq_iff r.id j, str_eq_iff id j)

select_name-delete :
    (id j : Bytes) (rows : List Row)
    → select_name j rows ≡ none
    → select_name j (filter (other_than id) rows) ≡ none
unfolding select_name
select_name-delete id j [] h = refl
select_name-delete id j (r ∷ rs) h = ground (arith, select_name-delete id j rs)

if-HasKeys :
    (b : Bool) (r : Row) (rs : List Row)
    → select_id r.id rs ≡ none
    → select_name r.name rs ≡ none
    → HasKeys rs
    → HasKeys (if b then r ∷ rs else rs)
if-HasKeys true r rs a b k = (a, b, k)
if-HasKeys false r rs a b k = k

pub delete-HasKeys :
    (id : Bytes) (rows : List Row) → HasKeys rows → HasKeys (filter (other_than id) rows)
delete-HasKeys id [] k = tt
delete-HasKeys id (r ∷ rs) (a, b, k) =
    if-HasKeys (other_than id r) r (filter (other_than id) rs)
      (ground (arith, select_id-delete id r.id rs, a)) (select_name-delete id r.name rs b)
      (delete-HasKeys id rs k)

-- A row that is found has the ID.
pub id-select_id :
    (id : Bytes) (rows : List Row) (row : Row) → select_id id rows ≡ some row → row.id ≡ id
unfolding select_id
id-select_id id [] row h = cc
id-select_id id (r ∷ rs) row h = ground (arith, id-select_id id rs row, str_eq_iff r.id id)

-- What holds of all rows holds of the one that is found.
pub All-select_id :
    (P : Row → Type 0) (id : Bytes) (rows : List Row) (row : Row)
    → All P rows
    → select_id id rows ≡ some row
    → P row
unfolding select_id
All-select_id P id [] row a h = absurd (cc)
All-select_id P id (r ∷ rs) row (p, a) h = elim (Bool-cases (str_eq r.id id)) [
  | inl here ↦ let e : row ≡ r = ground (arith, here) in rw e p
  | inr later ↦ All-select_id P id rs row a (ground (arith, later))
]
