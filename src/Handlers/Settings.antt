-- ===== src/Handlers/Settings.antt =====
-- The webhook settings in internal/handlers/instance_actions.go: the handler of PUT …/webhook and the
-- form of the detail page, up to the page that it renders.
pub mod Form
pub mod Put
use slimwhats.Base.{
  ℕ, Bool, true, false, not, ◌&&◌, ◌||◌, List, [], ◌∷◌, Option, none, some, Bytes, codes,
  has_prefix, is_empty, length, ltb, if◌then◌else◌,
}
use slimwhats.Base.Result.{Result, ok, err}
use slimwhats.Handlers.Reply.{Reply, json, fail}
use slimwhats.Handlers.Messages.{
  message, err_code_internal, err_code_url_required, err_code_url_invalid, err_code_secret_required,
}
use slimwhats.Instance.Store.{Row, StoreError, set_webhook, load_webhook_secret}

-- `isValidWebhookURL`
unfoldable pub is_valid_webhook_url : Bytes → Bool
is_valid_webhook_url u =
    not (ltb 2048 (length u))
    && (has_prefix u (codes "https://")
        || has_prefix u (codes "http://localhost")
        || has_prefix u (codes "http://127.0.0.1"))

abbrev pub stored : Bytes → List Row × Result StoreError Unit → List Row × Reply Bytes
stored status (db, err e) = (db, fail 500 (codes "set_webhook_failed"))
stored status (db, ok t) = (db, json 200 status)

-- `SetWebhookHandler`; none is a body that does not bind.
unfoldable pub set_webhook_handler :
    Bool → Bytes → Option (Bytes × Bytes) → List Row → List Row × Reply Bytes
set_webhook_handler fails id none db = (db, fail 400 (codes "invalid_request"))
set_webhook_handler fails id (some (url, secret)) db =
    if is_empty url && is_empty secret
    then stored (codes "cleared") (set_webhook fails id [] [] db)
    else if not (is_valid_webhook_url url)
    then (db, fail 400 (codes "invalid_url"))
    else stored (codes "configured") (set_webhook fails id url secret db)

-- The message of the form, and whether it is of the class "ok".
pub record FormResult : Type 0 where
  pub text : Bytes
  pub is_ok : Bool

abbrev pub failed : Bytes → FormResult
failed code = record { text = message code; is_ok = false }

abbrev pub saved : Bytes → List Row × Result StoreError Unit → List Row × FormResult
saved text (db, err e) = (db, failed err_code_internal)
saved text (db, ok t) = (db, record { text = text; is_ok = true })

abbrev pub save_url : Bool → Bytes → Bytes → Bytes → List Row → List Row × FormResult
save_url fails id url secret db =
    saved (codes "Webhook saved.") (set_webhook fails id url secret db)

-- The secret that is there already, for a form without a new one.
abbrev pub with_existing :
    Bool → Bytes → Bytes → List Row → Result StoreError (Bytes × Bytes) → List Row × FormResult
with_existing fails id url db (err e) = (db, failed err_code_internal)
with_existing fails id url db (ok (old, existing)) =
    if is_empty existing
    then (db, failed err_code_secret_required)
    else save_url fails id url existing db

-- `WebhookFormActionHandler`; the two tests are whether the reading and the writing fail.
unfoldable pub webhook_form_action :
    Bool → Bool → Bytes → Bytes → Bytes → List Row → List Row × FormResult
webhook_form_action load_fails fails id url secret db =
    if is_empty url && is_empty secret
    then saved (codes "Webhook cleared.") (set_webhook fails id [] [] db)
    else if is_empty url
    then (db, failed err_code_url_required)
    else if not (is_valid_webhook_url url)
    then (db, failed err_code_url_invalid)
    else if is_empty secret
    then with_existing fails id url db (load_webhook_secret load_fails id db)
    else save_url fails id url secret db
