-- ===== src/Handlers/Instances.antt =====
-- internal/handlers/admin_instances.go: the handlers that create, list and show instances. A time
-- of the view is a number, whose text is not modelled.
use slimwhats.Base.{
  ℕ, ◌-◌, Bool, true, false, List, [], ◌∷◌, ◌++◌, Option, none, some, Bytes, codes, is_empty,
  length, ltb, leb, drop, take, if◌then◌else◌,
}
use slimwhats.Base.Int.{ℤ}
use slimwhats.Base.Result.{Result, ok, err}
use slimwhats.Handlers.Reply.{Reply, json, fail}
use slimwhats.Instance.Logs.{limit_of, offset_of}
use slimwhats.Instance.Lookup.{get_by_id, scan_all}
use slimwhats.Instance.Store.{
  Row, Instance, Status, StoreError, Database, name_taken, create, text_or_empty, statement_failed,
}

-- `ORDER BY created_at DESC LIMIT ? OFFSET ?`
unfoldable pub place : Row → List Row → List Row
place r [] = r ∷ []
place r (s ∷ ss) =
    let rest = place r ss in if leb s.created_at r.created_at then r ∷ s ∷ ss else s ∷ rest

unfoldable pub newest_first : List Row → List Row
newest_first [] = []
newest_first (r ∷ rs) = place r (newest_first rs)

-- `ListAll` of internal/instance/model.go
unfoldable pub list_all : Bool → ℕ → ℕ → List Row → Result StoreError (List Instance)
list_all fails limit offset db =
    if fails then err statement_failed else scan_all 14 (take limit (drop offset (newest_first db)))

abbrev bullets : Bytes
bullets =
    226 ∷ 128 ∷ 162 ∷ 226 ∷ 128 ∷ 162 ∷ 226 ∷ 128 ∷ 162 ∷ 226 ∷ 128 ∷ 162 ∷ 226 ∷ 128 ∷ 162 ∷ 226
    ∷ 128 ∷ 162 ∷ 226 ∷ 128 ∷ 162 ∷ 226 ∷ 128 ∷ 162 ∷ []

-- `maskAPIKey`
unfoldable pub mask_api_key : Bytes → Bytes
mask_api_key key =
    if is_empty key
    then []
    else if ltb (length key) 4
    then key
    else codes "sk_live_" ++ (bullets ++ drop (length key - 4) key)

-- The fields of `InstanceView` that JSON shows.
pub record InstanceView : Type 0 where
  pub id : Bytes
  pub name : Bytes
  pub status : Status
  pub phone : Bytes
  pub jid : Bytes
  pub lid : Bytes
  pub webhook_url : Bytes
  pub webhook_configured : Bool
  pub api_key_masked : Bytes
  pub api_set_at : Option ℕ
  pub connected_at : Option ℕ
  pub last_seen_at : Option ℕ
  pub created_at : ℕ
  pub updated_at : ℕ

abbrev pub is_valid : Option Bytes → Bool
is_valid none = false
is_valid (some s) = true

-- `toView`
unfoldable pub to_view : Instance → InstanceView
to_view i = record {
  id = i.id;
  name = i.name;
  status = i.status;
  phone = text_or_empty i.phone;
  jid = text_or_empty i.jid;
  lid = text_or_empty i.lid;
  webhook_url = text_or_empty i.webhook_url;
  webhook_configured = is_valid i.webhook_url;
  api_key_masked = mask_api_key i.api_key;
  api_set_at = i.api_set_at;
  connected_at = i.connected_at;
  last_seen_at = i.last_seen_at;
  created_at = i.created_at;
  updated_at = i.updated_at;
}

pub record CreateInstanceResponse : Type 0 where
  pub id : Bytes
  pub name : Bytes
  pub api_key : Bytes
  pub status : Status

abbrev pub create_error : StoreError → Reply CreateInstanceResponse
create_error name_taken = fail 409 (codes "name_taken")
create_error e = fail 400 (codes "validation_failed")

abbrev pub created_reply :
    List Row × Result StoreError Row → List Row × Reply CreateInstanceResponse
created_reply (db, err e) = (db, create_error e)
created_reply (db, ok row) = (
  db,
  json 200 (record {
    id = row.id;
    name = row.name;
    api_key = text_or_empty row.api_key;
    status = row.status;
  }),
)

-- `CreateInstanceHandler`; none is a body that does not bind, as without a name.
unfoldable pub create_instance_handler :
    Database
    → Option (Bytes × Bytes)
    → Option Bytes
    → Option Bytes
    → ℕ
    → List Row
    → List Row × Reply CreateInstanceResponse
create_instance_handler d none encoded id now db = (db, fail 400 (codes "invalid_request"))
create_instance_handler d (some (name, key)) encoded id now db = created_reply (
    create d (record { name = name; api_key = key; webhook_url = []; webhook_secret = [] }) encoded
      id now db)

abbrev pub views : List Instance → List InstanceView
views [] = []
views (i ∷ is) = to_view i ∷ views is

-- The answer repeats the numbers of the page.
abbrev pub list_reply :
    ℕ → ℕ → Result StoreError (List Instance) → Reply (List InstanceView × ℕ × ℕ)
list_reply limit offset (err e) = fail 500 (codes "list_failed")
list_reply limit offset (ok is) = json 200 (views is, limit, offset)

-- `ListInstancesHandler`, on the numbers of its query.
unfoldable pub list_instances_handler : Bool → ℤ → ℤ → List Row → Reply (List InstanceView × ℕ × ℕ)
list_instances_handler fails limit offset db =
    list_reply (limit_of limit) (offset_of offset)
      (list_all fails (limit_of limit) (offset_of offset) db)

abbrev pub view_reply : Result StoreError (Option Instance) → Reply InstanceView
view_reply (err e) = fail 500 (codes "lookup_failed")
view_reply (ok none) = fail 404 (codes "not_found")
view_reply (ok (some i)) = json 200 (to_view i)

-- `GetInstanceHandler`
unfoldable pub get_instance_handler : Bool → Bytes → List Row → Reply InstanceView
get_instance_handler fails id db = view_reply (get_by_id fails id db)
