-- ===== src/Handlers/ApiKey.antt =====
-- internal/handlers/api_key.go: the handlers of PUT …/api-key, POST …/api-key/rotate and
-- POST …/api-key/reveal. The state is the table of the instances and the audit log, of which an entry
-- keeps the action and the ID; the audit logger is set.
pub mod Reveal
pub mod Rotate
use slimwhats.Base.{
  ℕ, ◌-◌, Bool, true, false, not, List, [], ◌∷◌, ◌++◌, Option, none, some, Bytes, codes, ltb,
  str_eq, is_empty, length, drop, if◌then◌else◌,
}
use slimwhats.Base.Result.{Result, ok, err}
use slimwhats.Handlers.Login.{compare_constant_time}
use slimwhats.Handlers.Reply.{Reply, json, fail}
use slimwhats.Instance.Lookup.{get_by_id}
use slimwhats.Instance.Store.{Row, Instance, StoreError, generate_api_key, set_api_key}

pub record ApiKeyState : Type 0 where
  pub db : List Row
  pub audit : List (Bytes × Bytes)

-- What a handler comes to: a reply, or a panic that gin turns into a 500.
pub data Ending (A : Type 0) : Type 0 where
  replies : Reply A → Ending A
  panics : Ending A

-- An ID with a key, or with what the masked form shows of it.
pub record KeyBody : Type 0 where
  pub id : Bytes
  pub api_key : Bytes

abbrev pub logged : Bytes → Bytes → ApiKeyState → ApiKeyState
logged action id s = record s { audit = s.audit ++ (action, id) ∷ [] }

-- The lookup that the handlers begin with, and what follows where the instance exists.
abbrev pub with_instance :
    Result StoreError (Option Instance)
    → ApiKeyState
    → (Instance → ApiKeyState × Ending KeyBody)
    → ApiKeyState × Ending KeyBody
with_instance (err e) s next = (s, replies (fail 500 (codes "lookup_failed")))
with_instance (ok none) s next = (s, replies (fail 404 (codes "not_found")))
with_instance (ok (some inst)) s next = next inst

-- `req.APIKey[len(req.APIKey)-4:]` panics on a shorter key.
abbrev pub last_four : Bytes → Bytes → Ending KeyBody
last_four id key =
    if ltb (length key) 4
    then panics
    else replies (json 200 (record { id = id; api_key = drop (length key - 4) key }))

abbrev pub store_key :
    List Row × Result StoreError Unit
    → Bytes
    → Bytes
    → Bytes
    → Ending KeyBody
    → ApiKeyState
    → ApiKeyState × Ending KeyBody
store_key (db, err e) error action id done s = (record s { db = db }, replies (fail 500 error))
store_key (db, ok t) error action id done s = (logged action id (record s { db = db }), done)

-- `key` is none where the body does not bind, which an empty key does not.
unfoldable pub set_api_key_handler :
    Bool → Bool → ℕ → Bytes → Option Bytes → ApiKeyState → ApiKeyState × Ending KeyBody
set_api_key_handler lookup_fails set_fails now id none s =
    (s, replies (fail 400 (codes "invalid_request")))
set_api_key_handler lookup_fails set_fails now id (some key) s =
    with_instance (get_by_id lookup_fails id s.db) s (λ inst.
      store_key (set_api_key set_fails id key now s.db) (codes "set_api_key_failed")
        (codes "instance.set_api_key") id (last_four id key) s)

abbrev pub rotated : Bool → ℕ → Bytes → Option Bytes → ApiKeyState → ApiKeyState × Ending KeyBody
rotated set_fails now id none s = (s, replies (fail 500 (codes "generate_failed")))
rotated set_fails now id (some key) s =
    store_key (set_api_key set_fails id key now s.db) (codes "rotate_failed")
      (codes "instance.rotate_api_key") id (replies (json 200 (record { id = id; api_key = key })))
      s

unfoldable pub rotate_api_key_handler :
    Bool → Bool → ℕ → Option Bytes → Bytes → ApiKeyState → ApiKeyState × Ending KeyBody
rotate_api_key_handler lookup_fails set_fails now encoded id s =
    with_instance (get_by_id lookup_fails id s.db) s
      (λ inst. rotated set_fails now id (generate_api_key encoded) s)

abbrev pub revealed : Bytes → ApiKeyState → Instance → ApiKeyState × Ending KeyBody
revealed id s inst =
    if is_empty inst.api_key then (s, replies (fail 409 (codes "no_api_key"))) else (
      logged (codes "instance.api_key_revealed") id s,
      replies (json 200 (record { id = id; api_key = inst.api_key })),
    )

unfoldable pub reveal_api_key_handler :
    Bool → Bytes → Bytes → Option Bytes → ApiKeyState → ApiKeyState × Ending KeyBody
reveal_api_key_handler lookup_fails manager_password id none s =
    (s, replies (fail 400 (codes "invalid_request")))
reveal_api_key_handler lookup_fails manager_password id (some password) s =
    if not (compare_constant_time password manager_password)
    then (
      logged (codes "instance.api_key_reveal_failed") id s,
      replies (fail 401 (codes "invalid_manager_password")),
    )
    else with_instance (get_by_id lookup_fails id s.db) s (revealed id s)
