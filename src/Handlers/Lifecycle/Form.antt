-- ===== src/Handlers/Lifecycle/Form.antt =====
-- The form of the manager and the HTTP handlers do the same to an instance.
use slimwhats.Base.{ℕ, ◌≡◌, refl, Bool, true, false, Option, none, some, Bytes, codes, str_eq}
use slimwhats.Base.Result.{Result, ok, err}
use slimwhats.Handlers.Reply.{Reply, json, fail, redirect}
use slimwhats.Handlers.Messages.{err_code_reconnect_failed}
use slimwhats.Handlers.Lifecycle.{
  Lifecycle, Setting, Alert, acted, acted_form, looked_up, looked_up_form, disconnected_reply,
  disconnected_form, disconnect_instance_handler, reconnect_instance_handler,
  lifecycle_action_handler,
}
use slimwhats.Instance.Store.{Instance, StoreError}
use slimwhats.Instance.Manager.{Manager, StartError, disconnect_instance, lookup_by_id, reconnect}

abbrev pub is_success {ℓ} : {A : Type ℓ} → Reply A → Bool
is_success (json status a) = true
is_success (fail status error) = false
is_success (redirect location) = true

-- The same state, and a success on the one side where there is one on the other.
abbrev pub Agree : Lifecycle × Alert → Lifecycle × Reply Bytes → Type 0
Agree (s, a) (t, r) = (s ≡ t) × (a.is_ok ≡ is_success r)

disconnected-Agree :
    (g : Setting) (id : Bytes) (s : Lifecycle) (r : Manager × Bool)
    → Agree (disconnected_form g id s r) (disconnected_reply g id s r)
disconnected-Agree g id s (m, true) = (refl, refl)
disconnected-Agree g id s (m, false) = (refl, refl)

acted-Agree :
    (g : Setting) (id action f f' d d' : Bytes) (s : Lifecycle)
    (r : Manager × Result StartError Unit)
    → Agree (acted_form g id action f d s r) (acted g id action f' d' s r)
acted-Agree g id action f f' d d' s (m, ok t) = (refl, refl)
acted-Agree g id action f f' d d' s (m, err e) = (refl, refl)

looked_up-Agree :
    (s : Lifecycle) (r : Manager × Result StoreError (Option (Instance × Option ℕ)))
    (next : Lifecycle → Lifecycle × Alert) (next' : Lifecycle → Lifecycle × Reply Bytes)
    → ((t : Lifecycle) → Agree (next t) (next' t))
    → Agree (looked_up_form s r next) (looked_up s r next')
looked_up-Agree s (m, err e) next next' h = (refl, refl)
looked_up-Agree s (m, ok none) next next' h = (refl, refl)
looked_up-Agree s (m, ok (some found)) next next' h = h (record s { manager = m })

-- The actions "disconnect" and "reconnect" of the form leave the state that the handlers of Disconnect
-- and Reconnect leave, with the same calls, rows and audit entries, and report a success where
-- these answer with one.
pub form_agrees :
    (g : Setting) (id : Bytes) (s : Lifecycle)
    → Agree
        (lifecycle_action_handler g (codes "disconnect") id s)
        (disconnect_instance_handler g id s)
      × Agree
          (lifecycle_action_handler g (codes "reconnect") id s)
          (reconnect_instance_handler g id s)
unfolding lifecycle_action_handler disconnect_instance_handler reconnect_instance_handler str_eq
form_agrees g id s = (
  disconnected-Agree g id s (disconnect_instance id s.manager),
  looked_up-Agree s (lookup_by_id g.container g.weather id s.manager) _ _ (λ t.
      acted-Agree g id (codes "instance.reconnect") err_code_reconnect_failed
        (codes "reconnect_failed") (codes "Reconnecting.") (codes "reconnecting") t
        (reconnect g.container g.weather id t.manager)),
)
