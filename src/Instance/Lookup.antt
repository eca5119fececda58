-- ===== src/Instance/Lookup.antt =====
-- The search by API key of internal/instance/manager.go, and GetByID of internal/instance/model.go.
-- `rows.Scan` of database/sql refuses a row that has another number of columns than destinations.
use slimwhats.Base.{
  ℕ, ◌≡◌, refl, Bool, true, false, List, [], ◌∷◌, Option, none, some, Bytes, ◌==◌, str_eq, is_empty,
  if◌then◌else◌,
}
use slimwhats.Base.Result.{Result, ok, err}
use slimwhats.Instance.Store.{
  Row, Instance, StoreError, statement_failed, scan_columns, instance_of, select_id,
}

-- `scanInstanceRows`, with its 14 destinations, on a row of so many columns.
unfoldable pub scan_instance_rows : ℕ → Row → Result StoreError Instance
scan_instance_rows columns r = if columns == 14 then ok (instance_of r) else err scan_columns

abbrev pub scan_found : ℕ → Option Row → Result StoreError (Option Instance)
scan_found columns none = ok none
scan_found columns (some r) = elim (scan_instance_rows columns r) [
  | ok i ↦ ok (some i)
  | err e ↦ err e
]

unfoldable pub get_by_id : Bool → Bytes → List Row → Result StoreError (Option Instance)
get_by_id fails id db = if fails then err statement_failed else scan_found 14 (select_id id db)

unfoldable pub scan_all : ℕ → List Row → Result StoreError (List Instance)
scan_all columns [] = ok []
scan_all columns (r ∷ rs) =
    let rest = scan_all columns rs in
    elim (scan_instance_rows columns r) [
      | err e ↦ err e
      | ok i ↦ elim rest [ ok is ↦ ok (i ∷ is) | err e ↦ err e ]
    ]

-- The SELECT names 13 columns: webhook_secret is missing.
unfoldable pub all_instances : Bool → List Row → Result StoreError (List Instance)
all_instances fails db = if fails then err statement_failed else scan_all 13 db

-- The loop of `GetByAPIKey`.
unfoldable pub with_key : Bytes → List Instance → Option Instance
with_key plaintext [] = none
with_key plaintext (i ∷ is) =
    let rest = with_key plaintext is in
    if is_empty i.api_key then rest else if str_eq i.api_key plaintext then some i else rest

-- `GetByAPIKey` without the client.
unfoldable pub get_by_api_key : Bool → Bytes → List Row → Result StoreError (Option Instance)
get_by_api_key fails plaintext db = elim (all_instances fails db) [
  | err e ↦ err e
  | ok insts ↦ ok (with_key plaintext insts)
]

-- As soon as the table has a row, the search by API key ends in an error, for every key.
pub get_by_api_key_fails :
    (fails : Bool) (plaintext : Bytes) (r : Row) (rs : List Row)
    → (e : StoreError) × (get_by_api_key fails plaintext (r ∷ rs) ≡ err e)
unfolding get_by_api_key all_instances scan_all scan_instance_rows
get_by_api_key_fails true plaintext r rs = (statement_failed, refl)
get_by_api_key_fails false plaintext r rs = (scan_columns, refl)
