-- ===== src/Handlers/NewInstance.antt =====
-- `AdminNewSubmit` of internal/handlers/admin_ui.go: the form that creates an instance and loads its client.
-- The fields are those that strings.TrimSpace leaves; the typed values of the form are not modelled.
pub mod Submitted
use slimwhats.Base.{
  ℕ, Bool, true, false, List, [], ◌∷◌, ◌++◌, Option, none, some, Bytes, codes, is_empty, length,
  ltb, if◌then◌else◌,
}
use slimwhats.Base.Result.{Result, ok, err}
use slimwhats.Handlers.Messages.{
  err_code_name_required, err_code_name_too_long, err_code_name_taken, err_code_webhook_url_empty,
  err_code_secret_required, err_code_internal,
}
use slimwhats.Instance.Manager.{Manager, Container, Weather, start}
use slimwhats.Instance.Store.{Row, StoreError, CreateInput, Database, create, name_taken}

-- The container and the weather of Start, the database, the random bytes of a key, the ID, and whether the
-- manager is set.
pub record NewSetting : Type 0 where
  pub container : Container
  pub weather : Weather
  pub database : Database
  pub encoded : Option Bytes
  pub id : Option Bytes
  pub has_manager : Bool

-- The form again with the code of an error, or a redirect.
pub data SubmitAnswer : Type 0 where
  renders_form redirects : Bytes → SubmitAnswer

abbrev pub pair_code : Bytes → Bytes → Option Bytes
pair_code [] [] = none
pair_code (c ∷ url) [] = some err_code_secret_required
pair_code [] (d ∷ secret) = some err_code_webhook_url_empty
pair_code (c ∷ url) (d ∷ secret) = none

-- The local validation.
unfoldable pub form_code : CreateInput → Option Bytes
form_code input =
    if is_empty input.name
    then some err_code_name_required
    else if ltb 64 (length input.name)
    then some err_code_name_too_long
    else pair_code input.webhook_url input.webhook_secret

abbrev pub error_code : StoreError → Bytes
error_code name_taken = err_code_name_taken
error_code e = err_code_internal

-- A load that fails is only logged.
abbrev pub loaded : NewSetting → Bytes → Manager → Manager
loaded g id m = if g.has_manager then (start g.container g.weather id m).0 else m

abbrev pub submitted :
    NewSetting → Manager → List Row × Result StoreError Row → Manager × SubmitAnswer
submitted g m (db, err e) = (record m { db = db }, renders_form (error_code e))
submitted g m (db, ok row) =
    (loaded g row.id (record m { db = db }), redirects (codes "/admin/instances/" ++ row.id))

abbrev pub checked : NewSetting → CreateInput → Manager → Option Bytes → Manager × SubmitAnswer
checked g input m (some code) = (m, renders_form code)
checked g input m none = submitted g m (create g.database input g.encoded g.id g.weather.now m.db)

unfoldable pub admin_new_submit : NewSetting → CreateInput → Manager → Manager × SubmitAnswer
admin_new_submit g input m = checked g input m (form_code input)
