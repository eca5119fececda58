-- ===== src/Auth/Session.antt =====
-- internal/auth/session.go: manager sessions in the table admin_sessions. The table is a list of
-- rows, and each SQL statement is a function on it. A statement may also fail and change nothing;
-- which ones fail is an argument, and so are the readings of the clock and the random ID.
pub mod Table
pub mod Lifetime
use slimwhats.Base.{
  ℕ, ◌+◌, ◌*◌, Bool, true, false, not, ◌||◌, List, [], ◌∷◌, Option, none, some, Bytes, ltb, codes,
  str_eq, is_empty, filter, if◌then◌else◌,
}
use slimwhats.Base.Clock.{hour}
use slimwhats.Base.Result.{Result, ok, err}

pub record Session : Type 0 where
  pub id : Bytes
  pub username : Bytes
  pub created_at : ℕ
  pub expires_at : ℕ
  pub last_seen_at : ℕ

-- `db` is the content of admin_sessions.
pub record SessionStore : Type 0 where
  pub db : List Session
  pub ttl : ℕ
  pub cookie_name : Bytes

abbrev pub new_session_store : List Session → SessionStore
new_session_store db = record { db = db; ttl = 12 * hour; cookie_name = codes "session" }

abbrev pub new_session_store_with_cookie_name : List Session → Bytes → SessionStore
new_session_store_with_cookie_name db name = record { db = db; ttl = 12 * hour; cookie_name = name }

pub data SessionError : Type 0 where
  mint_id insert_session scan_session invalid_session : SessionError

-- `SELECT … FROM admin_sessions WHERE id = ?`, the first row
unfoldable pub select : Bytes → List Session → Option Session
select id [] = none
select id (r ∷ rs) = if str_eq r.id id then some r else select id rs

-- `DELETE FROM admin_sessions WHERE id = ?`
unfoldable pub delete_rows : Bytes → List Session → List Session
delete_rows id = filter (λ r. not (str_eq r.id id))

-- `UPDATE admin_sessions SET last_seen_at = ?, expires_at = ? WHERE id = ?`
unfoldable pub update_rows : ℕ → ℕ → Bytes → List Session → List Session
update_rows seen expires id [] = []
update_rows seen expires id (r ∷ rs) =
    (if str_eq r.id id then record r { last_seen_at = seen; expires_at = expires } else r)
    ∷ update_rows seen expires id rs

-- Whether a row has the ID, which the primary key forbids to an INSERT.
abbrev pub taken : Option Session → Bool
taken none = false
taken (some r) = true

-- The row is written in full, and the INSERT fails on its own or on the primary key.
abbrev pub insert_session_row :
    Bool → Session → SessionStore → SessionStore × Result SessionError Session
insert_session_row fails row s =
    if fails || taken (select row.id s.db)
    then (s, err insert_session)
    else (record s { db = row ∷ s.db }, ok row)

-- `id` is what `newSessionID` gives, none where the random source fails.
unfoldable pub create :
    Option Bytes → Bool → Bytes → ℕ → SessionStore → SessionStore × Result SessionError Session
create none insert_fails username now s = (s, err mint_id)
create (some id) insert_fails username now s =
    let row : Session = record {
      id = id;
      username = username;
      created_at = now;
      expires_at = now + s.ttl;
      last_seen_at = now;
    } in
    insert_session_row insert_fails row s

unfoldable pub delete : Bool → Bytes → SessionStore → SessionStore
delete fails id s = if fails then s else record s { db = delete_rows id s.db }

-- What happens around one call of Validate: the statements that fail, and the four readings of
-- the clock, in order.
pub record Run : Type 0 where
  pub select_fails : Bool
  pub delete_fails : Bool
  pub update_fails : Bool
  pub checked : ℕ
  pub extended : ℕ
  pub stored : ℕ
  pub returned : ℕ

-- The end of Validate, on a row that has not expired.
abbrev pub refresh_session :
    Run → Bytes → Bool → SessionStore → Session → SessionStore × Result SessionError Session
refresh_session run id false s sess = (s, ok sess)
refresh_session run id true s sess =
    let expires = run.extended + s.ttl in
    (
      (if run.update_fails then s else record s { db = update_rows run.stored expires id s.db }),
      ok (record sess { last_seen_at = run.returned; expires_at = expires }),
    )

abbrev pub validate_row :
    Run → Bytes → Bool → SessionStore → Option Session → SessionStore × Result SessionError Session
validate_row run id refresh s none = (s, err invalid_session)
validate_row run id refresh s (some sess) =
    if ltb sess.expires_at run.checked
    then (delete run.delete_fails id s, err invalid_session)
    else refresh_session run id refresh s sess

unfoldable pub validate :
    Run → Bytes → Bool → SessionStore → SessionStore × Result SessionError Session
unfolding delete
validate run id refresh s =
    if is_empty id
    then (s, err invalid_session)
    else if run.select_fails
    then (s, err scan_session)
    else validate_row run id refresh s (select id s.db)
