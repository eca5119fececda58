-- ===== src/Handlers/Messages.antt =====
-- internal/handlers/errors.go: the codes of the errors that the manager's forms show, and the text of
-- each. The verb of rate_limited is left as it stands in the catalogue.
use slimwhats.Base.{[], ◌∷◌, Option, none, some, Bytes, codes, is_empty, if◌then◌else◌}
use slimwhats.Base.Dict.{Dict, lookup}

abbrev pub err_code_name_required : Bytes
err_code_name_required = codes "name_required"

abbrev pub err_code_name_too_long : Bytes
err_code_name_too_long = codes "name_too_long"

abbrev pub err_code_name_taken : Bytes
err_code_name_taken = codes "name_taken"

abbrev pub err_code_webhook_url_empty : Bytes
err_code_webhook_url_empty = codes "webhook_url_empty"

abbrev pub err_code_url_required : Bytes
err_code_url_required = codes "url_required"

abbrev pub err_code_url_invalid : Bytes
err_code_url_invalid = codes "url_invalid"

abbrev pub err_code_secret_required : Bytes
err_code_secret_required = codes "secret_required"

abbrev pub err_code_lookup_failed : Bytes
err_code_lookup_failed = codes "lookup_failed"

abbrev pub err_code_not_found : Bytes
err_code_not_found = codes "not_found"

abbrev pub err_code_connect_failed : Bytes
err_code_connect_failed = codes "connect_failed"

abbrev pub err_code_disconnect_failed : Bytes
err_code_disconnect_failed = codes "disconnect_failed"

abbrev pub err_code_reconnect_failed : Bytes
err_code_reconnect_failed = codes "reconnect_failed"

abbrev pub err_code_api_key_set_failed : Bytes
err_code_api_key_set_failed = codes "api_key_set_failed"

abbrev pub err_code_api_key_rotate_failed : Bytes
err_code_api_key_rotate_failed = codes "api_key_rotate_failed"

abbrev pub err_code_internal : Bytes
err_code_internal = codes "internal_error"

-- `errMessages`
unfoldable pub err_messages : Dict Bytes
err_messages =
    (err_code_name_required, codes "Name is required.")
    ∷ (err_code_name_taken, codes "An instance with this name already exists.")
    ∷ (err_code_name_too_long, codes "Name must be 64 characters or fewer.")
    ∷ (err_code_webhook_url_empty, codes "Webhook URL is required when webhook secret is set.")
    ∷ (err_code_url_required, codes "Webhook URL is required.")
    ∷ (err_code_url_invalid, codes "Webhook URL is invalid (must be http or https).")
    ∷ (err_code_secret_required, codes "Webhook secret is required when URL is set.")
    ∷ (codes "secret_orphan", codes "Webhook secret is set but URL is empty.")
    ∷ (codes "webhook_url_orphan", codes "Webhook URL is set but secret is empty.")
    ∷ (err_code_lookup_failed, codes "Could not load the instance.")
    ∷ (err_code_not_found, codes "Instance not found.")
    ∷ (
      codes "not_paired",
      codes "Instance is not paired. Open the detail page and scan the QR code to pair.",
    )
    ∷ (codes "start_failed", codes "Could not start the instance.")
    ∷ (err_code_connect_failed, codes "Could not connect the instance.")
    ∷ (err_code_disconnect_failed, codes "Could not disconnect the instance.")
    ∷ (err_code_reconnect_failed, codes "Could not reconnect the instance.")
    ∷ (err_code_api_key_set_failed, codes "Could not set the API key.")
    ∷ (err_code_api_key_rotate_failed, codes "Could not rotate the API key.")
    ∷ (codes "api_key_invalid", codes "API key is invalid.")
    ∷ (codes "invalid_credentials", codes "Invalid username or password.")
    ∷ (codes "rate_limited", codes "Too many failed attempts. Try again in %d seconds.")
    ∷ (codes "invalid_request", codes "Password is required.")
    ∷ (codes "session_create_failed", codes "Could not start a session. Please try again.")
    ∷ (err_code_internal, codes "Internal error. Please try again.")
    ∷ []

abbrev pub text_or_fallback : Option Bytes → Option Bytes → Bytes
text_or_fallback (some t) fallback = t
text_or_fallback none none = []
text_or_fallback none (some t) = t

-- `Message`, without arguments
unfoldable pub message : Bytes → Bytes
message code =
    if is_empty code
    then []
    else text_or_fallback (lookup code err_messages) (lookup err_code_internal err_messages)
