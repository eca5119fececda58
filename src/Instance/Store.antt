-- ===== src/Instance/Store.antt =====
-- internal/instance/model.go, and SetWebhook and LoadWebhookSecret of internal/instance/qr.go. The
-- table instances is a list of rows and each SQL statement a function on it; whether a statement
-- fails is an argument, and so are the clock, the random IDs and the text of the database's errors.
pub mod Table
pub mod Pairs
pub mod ApiKey
use slimwhats.Base.{
  ℕ, ◌+◌, Bool, true, false, not, ◌&&◌, ◌||◌, List, [], ◌∷◌, ◌++◌, Option, none, some, Bytes, codes,
  ltb, ◌==◌, str_eq, is_empty, contains, length, filter, if◌then◌else◌,
}
use slimwhats.Base.Result.{Result, ok, err}

pub data Status : Type 0 where
  created pairing connected disconnected logged_out error : Status

-- A row of the table; `api_key` is NULL where no key has been set since the migration.
pub record Row : Type 0 where
  pub id : Bytes
  pub name : Bytes
  pub api_key : Option Bytes
  pub webhook_url : Option Bytes
  pub webhook_secret : Option Bytes
  pub status : Status
  pub phone : Option Bytes
  pub jid : Option Bytes
  pub lid : Option Bytes
  pub connected_at : Option ℕ
  pub last_seen_at : Option ℕ
  pub api_key_set_at : Option ℕ
  pub created_at : ℕ
  pub updated_at : ℕ

pub record Instance : Type 0 where
  pub id : Bytes
  pub name : Bytes
  pub api_key : Bytes
  pub webhook_url : Option Bytes
  pub webhook_secret : Option Bytes
  pub status : Status
  pub phone : Option Bytes
  pub jid : Option Bytes
  pub lid : Option Bytes
  pub connected_at : Option ℕ
  pub last_seen_at : Option ℕ
  pub api_set_at : Option ℕ
  pub created_at : ℕ
  pub updated_at : ℕ

pub record CreateInput : Type 0 where
  pub name : Bytes
  pub api_key : Bytes
  pub webhook_url : Bytes
  pub webhook_secret : Bytes

pub data StoreError : Type 0 where
  name_required name_too_long url_missing secret_missing no_random name_taken : StoreError
  secret_required insert_failed statement_failed no_rows scan_columns : StoreError

-- The text of a nullable column, `""` for NULL.
abbrev pub text_or_empty : Option Bytes → Bytes
text_or_empty none = []
text_or_empty (some s) = s

-- `scanInstanceRows`, on a row of all 14 columns.
unfoldable pub instance_of : Row → Instance
instance_of r = record {
  id = r.id;
  name = r.name;
  api_key = text_or_empty r.api_key;
  webhook_url = r.webhook_url;
  webhook_secret = r.webhook_secret;
  status = r.status;
  phone = r.phone;
  jid = r.jid;
  lid = r.lid;
  connected_at = r.connected_at;
  last_seen_at = r.last_seen_at;
  api_set_at = r.api_key_set_at;
  created_at = r.created_at;
  updated_at = r.updated_at;
}

-- `SELECT … WHERE id = ?` and `WHERE name = ?`, the first row
unfoldable pub select_id : Bytes → List Row → Option Row
select_id id [] = none
select_id id (r ∷ rs) = if str_eq r.id id then some r else select_id id rs

unfoldable pub select_name : Bytes → List Row → Option Row
select_name name [] = none
select_name name (r ∷ rs) = if str_eq r.name name then some r else select_name name rs

-- `UPDATE instances SET … WHERE id = ?`
unfoldable pub update_rows : (Row → Row) → Bytes → List Row → List Row
update_rows f id [] = []
update_rows f id (r ∷ rs) = (if str_eq r.id id then f r else r) ∷ update_rows f id rs

abbrev pub exec : Bool → (List Row → List Row) → List Row → List Row × Result StoreError Unit
exec true f db = (db, err statement_failed)
exec false f db = (f db, ok tt)

abbrev pub is_some : Option Row → Bool
is_some none = false
is_some (some r) = true

-- `isUniqueViolation`, on the text of the error.
unfoldable pub is_unique_violation : Bytes → Bool
is_unique_violation msg =
    contains msg (codes "UNIQUE constraint failed") || contains msg (codes "duplicate key value")

-- What the INSERT may answer: an error of its own, or the text for a key that is taken.
pub record Database : Type 0 where
  pub failure : Option Bytes
  pub conflict : Bytes

abbrev pub insert_error : Bytes → StoreError
insert_error msg = if is_unique_violation msg then name_taken else insert_failed

-- The primary key and the unique name.
abbrev pub insert_row : Database → Row → List Row → List Row × Result StoreError Row
insert_row d row db = elim d.failure [
  | some msg ↦ (db, err (insert_error msg))
  | none ↦
      if is_some (select_id row.id db) || is_some (select_name row.name db)
      then (db, err (insert_error d.conflict))
      else (row ∷ db, ok row)
]

-- Both or neither of the webhook's fields.
abbrev pub webhook_pair : Bytes → Bytes → Result StoreError (Option (Bytes × Bytes))
webhook_pair [] [] = ok none
webhook_pair [] (c ∷ secret) = err url_missing
webhook_pair (c ∷ url) [] = err secret_missing
webhook_pair (c ∷ url) (d ∷ secret) = ok (some (c ∷ url, d ∷ secret))

abbrev pub first_of : Option (Bytes × Bytes) → Option Bytes
first_of none = none
first_of (some (a, b)) = some a

abbrev pub second_of : Option (Bytes × Bytes) → Option Bytes
second_of none = none
second_of (some (a, b)) = some b

-- `generateAPIKey`; the argument is the base64 of 32 random bytes.
abbrev pub generate_api_key : Option Bytes → Option Bytes
generate_api_key none = none
generate_api_key (some encoded) = some (codes "sk_live_" ++ encoded)

-- The key of the input, or a new one where it is empty.
abbrev pub key_or_generated : Bytes → Option Bytes → Option Bytes
key_or_generated [] encoded = generate_api_key encoded
key_or_generated (c ∷ key) encoded = some (c ∷ key)

abbrev pub new_row : Bytes → Bytes → Bytes → Option (Bytes × Bytes) → ℕ → Row
new_row id name key hook now = record {
  id = id;
  name = name;
  api_key = some key;
  webhook_url = first_of hook;
  webhook_secret = second_of hook;
  status = created;
  phone = none;
  jid = none;
  lid = none;
  connected_at = none;
  last_seen_at = none;
  api_key_set_at = some now;
  created_at = now;
  updated_at = now;
}

-- The end of `Create`, on the validated webhook, the key and the ID.
abbrev pub create_with :
    Database
    → Bytes
    → ℕ
    → Option (Bytes × Bytes)
    → Option Bytes
    → Option Bytes
    → List Row
    → List Row × Result StoreError Row
create_with d name now hook none id db = (db, err no_random)
create_with d name now hook (some key) none db = (db, err no_random)
create_with d name now hook (some key) (some id) db = insert_row d (new_row id name key hook now) db

abbrev pub create_checked :
    Database
    → CreateInput
    → Option Bytes
    → Option Bytes
    → ℕ
    → Result StoreError (Option (Bytes × Bytes))
    → List Row
    → List Row × Result StoreError Row
create_checked d input encoded id now (err e) db = (db, err e)
create_checked d input encoded id now (ok hook) db =
    create_with d input.name now hook (key_or_generated input.api_key encoded) id db

-- `Create`; the instance it answers is the row, and its key the one that the row holds.
unfoldable pub create :
    Database
    → CreateInput
    → Option Bytes
    → Option Bytes
    → ℕ
    → List Row
    → List Row × Result StoreError Row
create d input encoded id now db =
    if is_empty input.name
    then (db, err name_required)
    else if ltb 64 (length input.name)
    then (db, err name_too_long)
    else create_checked d input encoded id now (webhook_pair input.webhook_url input.webhook_secret)
        db

unfoldable pub set_api_key : Bool → Bytes → Bytes → ℕ → List Row → List Row × Result StoreError Unit
set_api_key fails id key now = exec fails (
    update_rows (λ r. record r { api_key = some key; api_key_set_at = some now; updated_at = now })
      id)

-- `COALESCE(?, column)`
abbrev pub coalesce {ℓ} : {A : Type ℓ} → Option A → Option A → Option A
coalesce none old = old
coalesce (some a) old = some a

unfoldable pub set_status :
    Bool → Bytes → Status → Option ℕ → Option ℕ → ℕ → List Row → List Row × Result StoreError Unit
set_status fails id status connected_at last_seen_at now = exec fails (
    update_rows
      (λ r. record r {
        status = status;
        connected_at = coalesce connected_at r.connected_at;
        last_seen_at = coalesce last_seen_at r.last_seen_at;
        updated_at = now;
      })
      id)

-- `COALESCE(NULLIF(?, ''), column)`
abbrev pub unless_empty : Bytes → Option Bytes → Option Bytes
unless_empty [] old = old
unless_empty (c ∷ s) old = some (c ∷ s)

unfoldable pub set_identity :
    Bool → Bytes → Bytes → Bytes → Bytes → ℕ → List Row → List Row × Result StoreError Unit
set_identity fails id jid lid phone now = exec fails (
    update_rows
      (λ r. record r {
        jid = unless_empty jid r.jid;
        lid = unless_empty lid r.lid;
        phone = unless_empty phone r.phone;
        updated_at = now;
      })
      id)

unfoldable pub delete : Bool → Bytes → List Row → List Row × Result StoreError Unit
delete fails id = exec fails (filter (λ r. not (str_eq r.id id)))

unfoldable pub set_webhook :
    Bool → Bytes → Bytes → Bytes → List Row → List Row × Result StoreError Unit
set_webhook fails id url secret db =
    if is_empty url
    then exec fails (update_rows (λ r. record r { webhook_url = none; webhook_secret = none }) id)
        db
    else if is_empty secret
    then (db, err secret_required)
    else exec fails
        (update_rows (λ r. record r { webhook_url = some url; webhook_secret = some secret }) id) db

abbrev pub webhook_of : Option Row → Result StoreError (Bytes × Bytes)
webhook_of none = err no_rows
webhook_of (some r) = elim r.webhook_url [
  | none ↦ ok ([], [])
  | some url ↦ ok (url, text_or_empty r.webhook_secret)
]

unfoldable pub load_webhook_secret : Bool → Bytes → List Row → Result StoreError (Bytes × Bytes)
load_webhook_secret fails id db =
    if fails then err statement_failed else webhook_of (select_id id db)
