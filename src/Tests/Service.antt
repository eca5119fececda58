-- ===== src/Tests/Service.antt =====
-- The callback of cmd/slimwhats/main.go and the events of the webhooks on small inputs.
use slimwhats.Base.{
  ℕ, ◌≡◌, ◌≢◌, refl, Bool, true, false, List, [], ◌∷◌, ◌++◌, Option, none, some, Bytes, codes,
  arith, if◌then◌else◌, before_byte,
}
use slimwhats.Base.Result.{ok}
use slimwhats.Handlers.Reply.{json}
use slimwhats.Handlers.Access.{instance_qr_handler}
use slimwhats.Handlers.Access.Pairing.{qr_event-handler}
use slimwhats.Instance.Store
use slimwhats.Instance.Store.{Row, unless_empty, StoreError}
use slimwhats.Instance.Manager.{Manager}
use slimwhats.Instance.Qr.{done}
use slimwhats.Webhook.Json.{Object, empty, text, object, value_at}
use slimwhats.Webhook.Events.{
  Message, message, no_bodies, populated, context, quotation, no_context, extended_text,
  conversation, extract_message_content,
}
use slimwhats.Webhook.Events.Quoted.{quoted_content}
use slimwhats.Webhook.Normalize.{connected, qr}
use slimwhats.Webhook.Dispatcher.{default_config, new_dispatcher_config}
use slimwhats.Webhook.Dispatcher.Retry.{Event}
use slimwhats.Webhook.Dispatcher.Queue.{new_pool}
use slimwhats.Service.Callback.{Service, Outside, Identity, on_event, on_client_event, logged}
use slimwhats.Service.Callback.Status.{row_after, event_row}
use slimwhats.Service.Callback.Forward.{Forwards, forwarded_event}
use slimwhats.Tests.Manager.{container, weather, paired_row, first_client, running}

abbrev phone : Identity
phone = record {
  jid = record { user = codes "55:8"; text = codes "55:8@s.whatsapp.net" };
  lid = record { user = []; text = [] };
}

abbrev outside : Outside
outside = record {
  container = container;
  weather = weather;
  status_fails = false;
  identity_fails = false;
  log_fails = false;
  record_fails = false;
  load_fails = false;
  log_id = some (codes "l1");
  delivery_id = some (codes "d1");
  timestamp = codes "now";
  identity = λ n. some phone;
  marshal = λ o. ok (codes "{}");
  payload_of = λ e. codes "{}";
  text_of = λ e. codes "failed";
  config = new_dispatcher_config default_config;
}

abbrev service : Service
service = record { manager = running; logs = []; deliveries = []; pool = new_pool Object 8 }

abbrev out_event : Event Object
out_event = record {
  event = codes "instance.connected";
  instance_id = codes "i1";
  timestamp = codes "now";
  payload = empty;
}

forwarded_event_example :
    Forwards outside
      (codes "i1")
      connected
      (logged outside (codes "i1") connected service)
      (on_event outside (codes "i1") connected service)
forwarded_event_example = forwarded_event outside (codes "i1") connected service

qr_event-handler_example :
    (instance_qr_handler container weather
      (λ n. false)
      (λ n. false)
      true
      done
      (codes "i1")
      (on_client_event outside (codes "i1") (qr (codes "c1" ∷ codes "c2" ∷ [])) running)).1
    ≡ json 200 (codes "c1")
unfolding slimwhats.Base.Dict.lookup slimwhats.Base.str_eq instance_qr_handler
    slimwhats.Instance.Manager.get slimwhats.Instance.Manager.start
    slimwhats.Instance.Manager.device_for slimwhats.Instance.Lookup.get_by_id Store.select_id
    slimwhats.Instance.Manager.publish on_client_event slimwhats.Instance.Manager.qr_state_of
    slimwhats.Instance.Manager.set_qr_state slimwhats.Base.Dict.insert
qr_event-handler_example =
    qr_event-handler outside (codes "i1") (codes "c1") (codes "c2" ∷ []) running first_client
      (λ n. false) (λ n. false) true done refl refl

abbrev hello : Message
hello = message (populated (conversation (codes "hello")) no_context no_bodies)

quoted_content_example :
    (o : Object) × (value_at (codes "quoted") (
        extract_message_content (
          message (
            populated
              (extended_text (codes "re"))
              (context [] (codes "m1") (codes "55@s") (quotation hello))
              no_bodies)))
      ≡ some (object o))
    × (value_at (codes "id") o ≡ some (text (codes "m1")))
    × (value_at (codes "sender") o ≡ some (text (codes "55@s")))
    × (value_at (codes "body") o ≡ value_at (codes "body") (extract_message_content hello))
unfolding slimwhats.Base.str_eq
quoted_content_example =
    quoted_content (extended_text (codes "re")) [] (codes "m1") (codes "55@s") hello (codes "body")
      refl refl

event_row_example :
    Store.select_id (codes "i1") (on_client_event outside (codes "i1") connected running).db
    ≡ some (row_after outside connected first_client phone paired_row)
unfolding slimwhats.Base.Dict.lookup slimwhats.Base.str_eq Store.select_id before_byte
event_row_example =
    event_row outside (codes "i1") connected running first_client paired_row phone refl refl refl
      refl refl refl
