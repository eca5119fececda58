-- ===== src/Handlers/Access/Pairing.antt =====
-- The QR code on its way from the client to the operator.
use slimwhats.Base.{
  ℕ, ◌≡◌, refl, ap, ◌∙◌, Bool, true, false, List, ◌∷◌, some, Bytes, codes, if◌then◌else◌,
}
use slimwhats.Base.Dict.{lookup, insert, lookup-insert, str_eq_refl}
use slimwhats.Handlers.Reply.{json, fail}
use slimwhats.Handlers.Access.{instance_qr_handler, qr_of_client, qr_given, qr_reply, state_or_new}
use slimwhats.Instance.Manager.{
  Manager, ManagedClient, get, qr_state_of, qr_of, set_qr_state, set_qr_found,
}
use slimwhats.Instance.Manager.Loaded.{get-loaded}
use slimwhats.Instance.Qr.{Wakeup, set, get_latest_qr}
use slimwhats.Instance.Qr.Latest.{get_latest_qr_lem}
use slimwhats.Service.Callback.{Outside, on_client_event, set_batch}
use slimwhats.Webhook.Normalize.{qr}

abbrev with_batch : List Bytes → ManagedClient → ManagedClient
with_batch batch mc = record mc { qr_state = set batch mc.qr_state }

abbrev buffered : Bytes → List Bytes → ManagedClient → Manager → Manager
buffered id batch mc m = record m { clients = insert id (with_batch batch mc) m.clients }

event-buffered :
    (o : Outside) (id : Bytes) (batch : List Bytes) (m : Manager) (mc : ManagedClient)
    → lookup id m.clients ≡ some mc
    → on_client_event o id (qr batch) m ≡ buffered id batch mc m
unfolding on_client_event qr_state_of set_qr_state
event-buffered o id batch m mc h =
    ap (λ c. set_batch id batch (qr_of c) m) h
    ∙ ap (λ c. set_qr_found id (set batch mc.qr_state) c m) h

buffered-loaded :
    (id : Bytes) (batch : List Bytes) (m : Manager) (mc : ManagedClient)
    → lookup id (buffered id batch mc m).clients ≡ some (with_batch batch mc)
buffered-loaded id batch m mc =
    rw (lookup-insert id id (with_batch batch mc) m.clients, str_eq_refl id) refl

unpaired-reply :
    (is_connected is_logged_in : ℕ → Bool) (prefers_done : Bool) (w : Wakeup) (id : Bytes)
    (m : Manager) (n : ℕ)
    → is_logged_in n ≡ false
    → (qr_of_client is_connected is_logged_in prefers_done w id (m, some n)).1
      ≡ qr_reply
          (get_latest_qr false (is_connected n) prefers_done w (state_or_new (qr_state_of id m))).2
unpaired-reply is_connected is_logged_in prefers_done w id m n u =
    ap
      (λ b.
        (if b
          then (m, fail 409 (codes "already_paired"))
          else qr_given id n m (
              get_latest_qr b (is_connected n) prefers_done w (state_or_new (qr_state_of id m)))).1)
      u

-- A QR event of a client that is loaded and not paired, and then a call of the QR handler: it answers with
-- the first code of the event at once, whether or not the client is connected, and however long the
-- caller would wait.
pub qr_event-handler :
    (o : Outside) (id code : Bytes) (rest : List Bytes) (m : Manager) (mc : ManagedClient)
    (is_connected is_logged_in : ℕ → Bool) (prefers_done : Bool) (w : Wakeup)
    → lookup id m.clients ≡ some mc
    → is_logged_in mc.client ≡ false
    → (instance_qr_handler o.container o.weather is_connected is_logged_in prefers_done w id
        (on_client_event o id (qr (code ∷ rest)) m)).1
      ≡ json 200 code
unfolding instance_qr_handler qr_state_of set
qr_event-handler o id code rest m mc is_connected is_logged_in prefers_done w h unpaired =
    let after = buffered id (code ∷ rest) mc m in
    let loaded = buffered-loaded id (code ∷ rest) m mc in
    ap
      (λ n.
        (qr_of_client is_connected is_logged_in prefers_done w id
          (get o.container o.weather id n)).1)
      (event-buffered o id (code ∷ rest) m mc h)
    ∙ ap (λ r. (qr_of_client is_connected is_logged_in prefers_done w id r).1)
        (get-loaded o.container o.weather id after (with_batch (code ∷ rest) mc) loaded)
    ∙ unpaired-reply is_connected is_logged_in prefers_done w id after mc.client unpaired
    ∙ (ap
        (λ c.
          qr_reply
            (get_latest_qr false (is_connected mc.client) prefers_done w
              (state_or_new (qr_of c))).2)
        loaded)
    ∙ (ap qr_reply (get_latest_qr_lem (is_connected mc.client) prefers_done w code rest true).1)
