-- ===== src/Auth/Session/Table.antt =====
-- The statements on admin_sessions, seen through SELECT, and the primary key.
use slimwhats.Base.{
  ℕ, ◌≡◌, List, [], ◌∷◌, Option, none, some, Bytes, arith, str_eq, str_eq_iff, if◌then◌else◌,
}
use slimwhats.Auth.Session.{Session, select, delete_rows, update_rows}

abbrev pub touched : ℕ → ℕ → Option Session → Option Session
touched seen expires none = none
touched seen expires (some r) = some (record r { last_seen_at = seen; expires_at = expires })

pub select-delete_rows :
    (id j : Bytes) (rows : List Session)
    → select j (delete_rows id rows) ≡ (if str_eq id j then none else select j rows)
unfolding select delete_rows
select-delete_rows id j [] = ground arith
select-delete_rows id j (r ∷ rs) =
    ground
      (arith, select-delete_rows id j rs, str_eq_iff r.id id, str_eq_iff r.id j, str_eq_iff id j)

pub select-update_rows :
    (seen expires : ℕ) (id j : Bytes) (rows : List Session)
    → select j (update_rows seen expires id rows)
      ≡ (if str_eq id j then touched seen expires (select j rows) else select j rows)
unfolding select update_rows
select-update_rows seen expires id j [] = ground arith
select-update_rows seen expires id j (r ∷ rs) = ground (
  arith,
  select-update_rows seen expires id j rs,
  str_eq_iff r.id id,
  str_eq_iff r.id j,
  str_eq_iff id j,
)

-- A row that is found has the ID.
pub id-select :
    (id : Bytes) (rows : List Session) (row : Session) → select id rows ≡ some row → row.id ≡ id
unfolding select
id-select id [] row h = cc
id-select id (r ∷ rs) row h = ground (arith, id-select id rs row, str_eq_iff r.id id)
