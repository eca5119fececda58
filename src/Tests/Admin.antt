-- ===== src/Tests/Admin.antt =====
-- The handlers of the manager on small inputs.
use slimwhats.Base.{
  ℕ, ◌≡◌, ◌≢◌, refl, Bool, true, false, not, ◌&&◌, List, [], ◌∷◌, ◌++◌, Option, none, some, Bytes,
  codes, arith, is_empty, take, All, if◌then◌else◌,
}
use slimwhats.Base.Result.{ok}
use slimwhats.Handlers.Reply.{json, fail}
use slimwhats.Handlers.Lifecycle.{
  Lifecycle, Setting, delete_instance_handler, disconnect_instance_handler,
  reconnect_instance_handler, lifecycle_action_handler,
}
use slimwhats.Handlers.Lifecycle.Delete.{IsGone, delete_delete}
use slimwhats.Handlers.Lifecycle.Form.{Agree, form_agrees}
use slimwhats.Handlers.ApiKey.{rotate_api_key_handler}
use slimwhats.Handlers.KeyForm.{KeySetting, api_key_form_action_handler}
use slimwhats.Handlers.KeyForm.Rotates
use slimwhats.Handlers.KeyForm.Rotates.{rotate_path, key_state, form_rotates}
use slimwhats.Handlers.NewInstance.{NewSetting}
use slimwhats.Handlers.Settings.{set_webhook_handler, webhook_form_action}
use slimwhats.Handlers.Settings.Form.{form_keeps_secret}
use slimwhats.Handlers.Access.{refused, instance_api_key_auth}
use slimwhats.Handlers.Access.Admits.{auth_admits_none}
use slimwhats.Handlers.Audit.{AuditEntry, AuditBus}
use slimwhats.Handlers.Audit.Bus.{publish_all, buffer_of, publish_all-buffer}
use slimwhats.Handlers.Sse.{format_sse}
use slimwhats.Handlers.Sse.Frames.{next_frame, literal, format_sse-next_frame}
use slimwhats.Instance.Store
use slimwhats.Instance.Store.{Row, load_webhook_secret}
use slimwhats.Base.{◌⊎◌}
use slimwhats.Tests.Manager.{container, weather, paired_row, running}

abbrev setting : Setting
setting = record {
  container = container;
  weather = weather;
  status_fails = false;
  delete_fails = false;
  audits = true;
  is_connected = λ n. false;
  is_logged_in = λ n. true;
}

abbrev state : Lifecycle
state = record { manager = running; audit = [] }

delete_delete_example :
    (t : Lifecycle) × (delete_instance_handler setting (codes "i1") state
      ≡ (t, json 200 (codes "deleted")))
    × IsGone (codes "i1") state t
    × (delete_instance_handler setting (codes "i1") t ≡ (t, fail 404 (codes "not_found")))
unfolding slimwhats.Instance.Lookup.get_by_id Store.select_id slimwhats.Base.str_eq
    slimwhats.Instance.Lookup.scan_instance_rows
delete_delete_example =
    delete_delete setting (codes "i1") state (Store.instance_of paired_row) refl refl refl

form_agrees_example :
    Agree
      (lifecycle_action_handler setting (codes "disconnect") (codes "i1") state)
      (disconnect_instance_handler setting (codes "i1") state)
    × Agree
        (lifecycle_action_handler setting (codes "reconnect") (codes "i1") state)
        (reconnect_instance_handler setting (codes "i1") state)
form_agrees_example = form_agrees setting (codes "i1") state

form_keeps_secret_example :
    ((webhook_form_action false false (codes "i1") (codes "https://b.br") [] (paired_row ∷ [])).0
      ≡ (Store.set_webhook false
          (codes "i1")
          (codes "https://b.br")
          (codes "s")
          (paired_row ∷ [])).0)
    × ((webhook_form_action false false (codes "i1") (codes "https://b.br") [] (paired_row ∷ [])).1
        ≡ record { text = codes "Webhook saved."; is_ok = true })
    × (load_webhook_secret false
          (codes "i1")
          (webhook_form_action false false
            (codes "i1")
            (codes "https://b.br")
            []
            (paired_row ∷ [])).0
        ≡ ok (codes "https://b.br", codes "s"))
unfolding Store.select_id slimwhats.Base.str_eq load_webhook_secret
    slimwhats.Handlers.Settings.is_valid_webhook_url slimwhats.Base.has_prefix
form_keeps_secret_example =
    form_keeps_secret (codes "i1") (codes "https://b.br") (codes "https://a.br") (codes "s")
      (paired_row ∷ []) paired_row refl refl refl refl

auth_admits_none_example :
    (instance_api_key_auth container weather (codes "Bearer sk_live_abc") running
      ≡ (running, refused (fail 401 (codes "invalid_api_key"))))
    ⊎ (instance_api_key_auth container weather (codes "Bearer sk_live_abc") running
        ≡ (running, refused (fail 500 (codes "lookup_failed"))))
auth_admits_none_example = auth_admits_none container weather (codes "Bearer sk_live_abc") running

abbrev entry : AuditEntry
entry = record {
  timestamp = codes "t";
  username = codes "admin";
  action = codes "instance.connect";
  target_id = codes "i1";
  source_ip = codes "10.0.0.1";
  user_agent = [];
}

abbrev bus : AuditBus
bus = record { subs = record { number = 0; buffer = [] } ∷ []; next = 1; closed = [] }

publish_all-buffer_example :
    buffer_of 0 (publish_all (entry ∷ entry ∷ []) bus).subs ≡ some (entry ∷ entry ∷ [])
publish_all-buffer_example = publish_all-buffer 0 (entry ∷ entry ∷ []) bus [] refl (omega arith)

format_sse-next_frame_example :
    (next_frame (format_sse (codes "s") (some (ok (codes "{}"))) ++ codes "rest")
      ≡ some (codes "event: s" ++ (10 ∷ codes "data: {}"), codes "rest"))
    × (next_frame (format_sse (codes "s") none ++ codes "rest") ≡ some (codes ":s", codes "rest"))
format_sse-next_frame_example =
    format_sse-next_frame (codes "s") (codes "{}") (codes "rest") (literal 115 refl, tt)
      (literal 123 refl, (literal 125 refl, tt))

abbrev key_setting : KeySetting
key_setting = record {
  setting = setting;
  set_fails = false;
  encoded = some (codes "k");
  escape = λ s. s;
  text_of = λ e. codes "failed";
}

form_rotates_example :
    Rotates.Agree state
      (api_key_form_action_handler key_setting (rotate_path (codes "i1")) state)
      (rotate_api_key_handler false false 9 (some (codes "k")) (codes "i1") (key_state state))
form_rotates_example =
    form_rotates key_setting (codes "i1") state
      (record { nonempty = λ e. ground arith; no_slash = (refl, (refl, tt)) }) refl

abbrev new_setting : NewSetting
new_setting = record {
  container = container;
  weather = weather;
  database = record { failure = none; conflict = codes "UNIQUE constraint failed" };
  encoded = some (codes "k");
  id = some (codes "i9");
  has_manager = true;
}

abbrev shop : Store.CreateInput
shop = record { name = codes "Shop"; api_key = []; webhook_url = []; webhook_secret = [] }
