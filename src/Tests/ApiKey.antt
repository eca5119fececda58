-- ===== src/Tests/ApiKey.antt =====
-- internal/handlers/api_key.go on small inputs.
use slimwhats.Base.{◌≢◌}
use slimwhats.Base.{◌≡◌, refl, false, [], ◌∷◌, none, some, codes, arith, str_eq}
use slimwhats.Handlers.ApiKey.{
  ApiKeyState, KeyBody, panics, logged, reveal_api_key_handler, set_api_key_handler,
}
use slimwhats.Handlers.ApiKey.Reveal.{reveal_sound}
use slimwhats.Handlers.ApiKey.Rotate.{rekeyed, short_key_panics}
use slimwhats.Instance.Store.{Row, created, select_id}

abbrev shop_row : Row
shop_row = record {
  id = codes "i1";
  name = codes "shop";
  api_key = some (codes "sk_live_abc");
  webhook_url = none;
  webhook_secret = none;
  status = created;
  phone = none;
  jid = none;
  lid = none;
  connected_at = none;
  last_seen_at = none;
  api_key_set_at = some 5;
  created_at = 5;
  updated_at = 5;
}

abbrev state : ApiKeyState
state = record { db = shop_row ∷ []; audit = [] }

abbrev shown : KeyBody
shown = record { id = codes "i1"; api_key = codes "sk_live_abc" }

reveal_sound_example :
    (some (codes "pw") ≡ some (codes "pw"))
    × ((r : Row) × (select_id (codes "i1") state.db ≡ some r) × (r.api_key ≡ some shown.api_key))
    × (shown.api_key ≢ [])
    × ((reveal_api_key_handler false (codes "pw") (codes "i1") (some (codes "pw")) state).0
        ≡ logged (codes "instance.api_key_revealed") (codes "i1") state)
unfolding reveal_api_key_handler str_eq slimwhats.Instance.Lookup.get_by_id select_id
    slimwhats.Instance.Lookup.scan_instance_rows slimwhats.Instance.Store.instance_of
reveal_sound_example =
    reveal_sound false (codes "pw") (codes "i1") (some (codes "pw")) state 200 shown refl

short_key_panics_example :
    ((set_api_key_handler false false 9 (codes "i1") (some (codes "abc")) state).1 ≡ panics)
    × (select_id
          (codes "i1")
          (set_api_key_handler false false 9 (codes "i1") (some (codes "abc")) state).0.db
        ≡ some (rekeyed (codes "abc") 9 shop_row))
unfolding select_id str_eq
short_key_panics_example =
    short_key_panics 9 (codes "i1") (codes "abc") state shop_row refl (omega arith)
