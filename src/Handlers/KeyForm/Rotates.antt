-- ===== src/Handlers/KeyForm/Rotates.antt =====
-- The form that rotates a key does what the handler of POST …/api-key/rotate does.
use slimwhats.Base.{
  ℕ, ◌≡◌, ◌≢◌, refl, ap, ◌∙◌, sym, Bool, true, false, List, [], ◌∷◌, ◌++◌, Option, none, some,
  Bytes, codes, str_eq, ◌==◌, All, append_assoc, append-nil,
}
use slimwhats.Base.Result.{Result, ok, err}
use slimwhats.Handlers.ApiKey.{
  ApiKeyState, Ending, replies, panics, KeyBody, with_instance, rotated, store_key,
  rotate_api_key_handler,
}
use slimwhats.Handlers.KeyForm.{
  FormAnswer, renders, redirects, KeySetting, flush, split_from, split_path, rotate_found,
  key_generated, key_stored, api_key_form_action_handler,
}
use slimwhats.Handlers.Lifecycle.{Lifecycle}
use slimwhats.Handlers.Lifecycle.Form.{is_success}
use slimwhats.Handlers.Reply.{json}
use slimwhats.Instance.Lookup.{get_by_id}
use slimwhats.Instance.Store.{Row, Instance, StoreError, generate_api_key, set_api_key}

-- A text that can stand between two slashes.
pub record IsSegment (s : Bytes) : Type 0 where
  pub nonempty : s ≢ []
  pub no_slash : All (λ c. (c == 47) ≡ false) s

flush-segment : (s : Bytes) (rest : List Bytes) → s ≢ [] → flush s rest ≡ s ∷ rest
flush-segment [] rest h = absurd (h refl)
flush-segment (c ∷ s) rest h = refl

split_from-step :
    (current : Bytes) (c : ℕ) (p : Bytes)
    → (c == 47) ≡ false
    → split_from current (c ∷ p) ≡ split_from (current ++ c ∷ []) p
unfolding split_from
split_from-step current c p h =
    ap
      (λ b. elim b as (λ x. List Bytes) [
        | true ↦ flush current (split_from [] p)
        | false ↦ split_from (current ++ c ∷ []) p
      ])
      h

split_from-append :
    (current s p : Bytes)
    → All (λ c. (c == 47) ≡ false) s
    → split_from current (s ++ p) ≡ split_from (current ++ s) p
split_from-append current [] p h = ap (λ t. split_from t p) (sym (append-nil current))
split_from-append current (c ∷ s) p (h, hs) =
    split_from-step current c (s ++ p) h
    ∙ split_from-append (current ++ c ∷ []) s p hs
    ∙ ap (λ t. split_from t p) (append_assoc current (c ∷ []) s)

-- The path of the form of an instance.
abbrev pub rotate_path : Bytes → Bytes
rotate_path id = codes "/admin/instances/" ++ (id ++ codes "/api-key/rotate")

split-rotate_path :
    (id : Bytes)
    → IsSegment id
    → split_path (rotate_path id)
      ≡ codes "admin" ∷ codes "instances" ∷ id ∷ codes "api-key" ∷ codes "rotate" ∷ []
unfolding split_from
split-rotate_path id h =
    ap (λ t. codes "admin" ∷ codes "instances" ∷ t)
      (split_from-append [] id (codes "/api-key/rotate") h.no_slash ∙ flush-segment id _ h.nonempty)

abbrev pub is_ok : FormAnswer → Bool
is_ok (renders a) = a.is_ok
is_ok (redirects location) = false

abbrev pub succeeds : Ending KeyBody → Bool
succeeds (replies r) = is_success r
succeeds panics = false

abbrev pub key_state : Lifecycle → ApiKeyState
key_state s = record { db = s.manager.db; audit = s.audit }

-- The form leaves the rows and the audit log of the handler, and the rest as it was; the alert is of the
-- class "ok" where the handler succeeds.
abbrev pub Agree : Lifecycle → Lifecycle × FormAnswer → ApiKeyState × Ending KeyBody → Type 0
Agree s (t, a) (k, e) =
    (t ≡ record { manager = record s.manager { db = k.db }; audit = k.audit })
    × (is_ok a ≡ succeeds e)

stored-Agree :
    (g : KeySetting) (id key : Bytes) (s : Lifecycle) (r : List Row × Result StoreError Unit)
    → g.setting.audits ≡ true
    → Agree s (key_stored g id s r) (
        store_key r
          (codes "rotate_failed")
          (codes "instance.rotate_api_key")
          id
          (replies (json 200 (record { id = id; api_key = key })))
          (key_state s))
stored-Agree g id key s (db, err e) on = (refl, refl)
stored-Agree g id key s (db, ok t) on = (rw on refl, refl)

found-Agree :
    (g : KeySetting) (id : Bytes) (s : Lifecycle) (r : Result StoreError (Option Instance))
    → g.setting.audits ≡ true
    → Agree s (rotate_found g id s r) (
        with_instance r (key_state s) (λ inst.
          rotated g.set_fails g.setting.weather.now id (generate_api_key g.encoded) (key_state s)))
found-Agree g id s (err e) on = (refl, refl)
found-Agree g id s (ok none) on = (refl, refl)
found-Agree g id s (ok (some inst)) on = generated (generate_api_key g.encoded)
  where
    generated :
        (key : Option Bytes)
        → Agree s
            (key_generated g id s key)
            (rotated g.set_fails g.setting.weather.now id key (key_state s))
    generated none = (refl, refl)
    generated (some key) =
        stored-Agree g id key s (set_api_key g.set_fails id key g.setting.weather.now s.manager.db)
          on

-- A POST to /admin/instances/{id}/api-key/rotate, for an ID that can stand in a path and with an audit
-- logger: whether the lookup, the generator and the statement work or not, the form leaves the
-- rows and the audit log that RotateAPIKeyHandler leaves, and nothing else changes; it shows a success where
-- the handler answers with one.
pub form_rotates :
    (g : KeySetting) (id : Bytes) (s : Lifecycle)
    → IsSegment id
    → g.setting.audits ≡ true
    → Agree s (api_key_form_action_handler g (rotate_path id) s) (
        rotate_api_key_handler g.setting.weather.load_fails g.set_fails g.setting.weather.now
          g.encoded id
          (key_state s))
unfolding api_key_form_action_handler rotate_api_key_handler str_eq
form_rotates g id s h on =
    rw (split-rotate_path id h)
      (found-Agree g id s (get_by_id g.setting.weather.load_fails id s.manager.db) on)
