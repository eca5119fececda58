-- ===== src/Handlers/KeyForm.antt =====
-- `APIKeyFormActionHandler` of internal/handlers/api_key.go: the forms that rotate the key of an instance
-- and delete it, routed by the path. The state is that of the lifecycle handlers; the escaping of a
-- query and the text of an error are arguments.
pub mod Rotates
use slimwhats.Base.{
  ℕ, Bool, true, false, List, [], ◌∷◌, ◌++◌, Option, none, some, Bytes, codes, str_eq, ◌==◌,
  if◌then◌else◌,
}
use slimwhats.Base.Result.{Result, ok, err}
use slimwhats.Handlers.Lifecycle.{
  Lifecycle, Setting, Alert, alert_error, alert_ok, audited, with_manager,
}
use slimwhats.Handlers.Messages.{
  err_code_lookup_failed, err_code_not_found, err_code_api_key_set_failed,
  err_code_api_key_rotate_failed,
}
use slimwhats.Instance.Lookup.{get_by_id}
use slimwhats.Instance.Manager.{remove_instance}
use slimwhats.Instance.Store.{Row, Instance, StoreError, generate_api_key, set_api_key, delete}

-- The detail page with an alert, or a redirect.
pub data FormAnswer : Type 0 where
  renders : Alert → FormAnswer
  redirects : Bytes → FormAnswer

-- `if i > start { out = append(out, p[start:i]) }`
abbrev pub flush : Bytes → List Bytes → List Bytes
flush [] rest = rest
flush (c ∷ current) rest = (c ∷ current) ∷ rest

-- The rest of the loop of `splitPath`; the first text is `p[start:i]`.
unfoldable pub split_from : Bytes → Bytes → List Bytes
split_from current [] = flush current []
split_from current (c ∷ p) = elim (c == 47) [
  | true ↦ flush current (split_from [] p)
  | false ↦ split_from (current ++ c ∷ []) p
]

abbrev pub split_path : Bytes → List Bytes
split_path p = split_from [] p

abbrev pub target : List Bytes → Bytes
target (a ∷ b ∷ id ∷ rest) = codes "/admin/instances/" ++ id
target _ = codes "/admin/"

-- `redirectWithMsg` with the class "error", the only one that it is called with.
abbrev pub redirect_with_msg : (Bytes → Bytes) → Bytes → Bytes → FormAnswer
redirect_with_msg escape path text =
    redirects
      (target (split_path path) ++ (codes "?msg=" ++ (escape text ++ codes "&msg_class=error")))

-- `parts[len(parts)-1]`, where there are four or more.
abbrev pub last_part : Bytes → List Bytes → Bytes
last_part a [] = a
last_part a (b ∷ parts) = last_part b parts

-- What fails besides, and the random bytes of a key.
pub record KeySetting : Type 0 where
  pub setting : Setting
  pub set_fails : Bool
  pub encoded : Option Bytes
  pub escape : Bytes → Bytes
  pub text_of : StoreError → Bytes

abbrev pub with_db : List Row → Lifecycle → Lifecycle
with_db db s = with_manager (record s.manager { db = db }) s

abbrev pub key_stored :
    KeySetting → Bytes → Lifecycle → List Row × Result StoreError Unit → Lifecycle × FormAnswer
key_stored g id s (db, err e) = (with_db db s, renders (alert_error err_code_api_key_set_failed))
key_stored g id s (db, ok t) = (
  audited g.setting (codes "instance.rotate_api_key") id (with_db db s),
  renders (alert_ok (codes "API key rotated.")),
)

abbrev pub key_generated : KeySetting → Bytes → Lifecycle → Option Bytes → Lifecycle × FormAnswer
key_generated g id s none = (s, renders (alert_error err_code_api_key_rotate_failed))
key_generated g id s (some key) =
    key_stored g id s (set_api_key g.set_fails id key g.setting.weather.now s.manager.db)

abbrev pub rotate_found :
    KeySetting → Bytes → Lifecycle → Result StoreError (Option Instance) → Lifecycle × FormAnswer
rotate_found g id s (err e) = (s, renders (alert_error err_code_lookup_failed))
rotate_found g id s (ok none) = (s, renders (alert_error err_code_not_found))
rotate_found g id s (ok (some inst)) = key_generated g id s (generate_api_key g.encoded)

abbrev pub row_deleted :
    KeySetting
    → Bytes
    → Bytes
    → Lifecycle
    → List Row × Result StoreError Unit
    → Lifecycle × FormAnswer
row_deleted g path id s (db, err e) =
    (with_db db s, redirect_with_msg g.escape path (codes "Delete failed: " ++ g.text_of e))
row_deleted g path id s (db, ok t) = (
  audited g.setting (codes "instance.delete") id (with_db db s),
  redirects (codes "/admin/?msg=Instance+deleted.&msg_class=ok"),
)

-- No lookup goes before the deletion.
abbrev pub delete_form : KeySetting → Bytes → Bytes → Lifecycle → Lifecycle × FormAnswer
delete_form g path id s =
    row_deleted g path id (with_manager (remove_instance id s.manager) s)
      (delete g.setting.delete_fails id (remove_instance id s.manager).db)

abbrev pub routed : KeySetting → Bytes → Bytes → Bytes → Lifecycle → Lifecycle × FormAnswer
routed g path id action s =
    if str_eq action (codes "rotate")
    then rotate_found g id s (get_by_id g.setting.weather.load_fails id s.manager.db)
    else if str_eq action (codes "delete")
    then delete_form g path id s
    else (s, redirect_with_msg g.escape path (codes "Unknown action: " ++ action))

abbrev pub with_parts : KeySetting → Bytes → List Bytes → Lifecycle → Lifecycle × FormAnswer
with_parts g path (a ∷ b ∷ id ∷ d ∷ parts) s = routed g path id (last_part d parts) s
with_parts g path _ s = (s, redirect_with_msg g.escape path (codes "Malformed action URL."))

-- `APIKeyFormActionHandler`
unfoldable pub api_key_form_action_handler : KeySetting → Bytes → Lifecycle → Lifecycle × FormAnswer
api_key_form_action_handler g path s = with_parts g path (split_path path) s
