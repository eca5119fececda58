-- ===== src/Handlers/ApiKey/Rotate.antt =====
-- What the handlers that set a key leave in the table.
use slimwhats.Base.{
  ℕ, ◌≡◌, ◌<◌, refl, ◌∙◌, false, ◌++◌, some, Bytes, codes, arith, str_eq, length, if◌then◌else◌,
}
use slimwhats.Base.Dict.{str_eq_refl}
use slimwhats.Handlers.Reply.{json}
use slimwhats.Handlers.ApiKey.{
  ApiKeyState, replies, panics, rotate_api_key_handler, set_api_key_handler,
}
use slimwhats.Instance.Lookup.{get_by_id, scan_instance_rows}
use slimwhats.Instance.Store.{Row, select_id, set_api_key}
use slimwhats.Instance.Store.Table.{changed}
use slimwhats.Instance.Store.ApiKey.{set_api_key-select}

-- The row of an instance after its key is set.
abbrev pub rekeyed : Bytes → ℕ → Row → Row
rekeyed key now r = record r { api_key = some key; api_key_set_at = some now; updated_at = now }

-- For an instance that exists and where nothing fails, the rotated key is the one in the reply and
-- the one in the row from then on, it begins with `sk_live_`, and no other instance changes.
rotate_replaces :
    (now : ℕ) (encoded id j : Bytes) (s : ApiKeyState) (r : Row)
    → select_id id s.db ≡ some r
    → ((rotate_api_key_handler false false now (some encoded) id s).1
        ≡ replies (json 200 (record { id = id; api_key = codes "sk_live_" ++ encoded })))
      × (select_id j (rotate_api_key_handler false false now (some encoded) id s).0.db ≡ (
          if str_eq id j
          then changed (rekeyed (codes "sk_live_" ++ encoded) now) (select_id j s.db)
          else select_id j s.db))
unfolding rotate_api_key_handler get_by_id scan_instance_rows set_api_key
rotate_replaces now encoded id j s r h =
    rw h (refl, set_api_key-select id j (codes "sk_live_" ++ encoded) now s.db)

-- A key of fewer than four bytes makes the handler panic, but only after the key is stored.
pub short_key_panics :
    (now : ℕ) (id key : Bytes) (s : ApiKeyState) (r : Row)
    → select_id id s.db ≡ some r
    → length key < 4
    → ((set_api_key_handler false false now id (some key) s).1 ≡ panics)
      × (select_id id (set_api_key_handler false false now id (some key) s).0.db
          ≡ some (rekeyed key now r))
unfolding set_api_key_handler get_by_id scan_instance_rows set_api_key
short_key_panics now id key s r h short =
    rw h
      (ground (arith, short), set_api_key-select id id key now s.db ∙ rw (str_eq_refl id, h) refl)
