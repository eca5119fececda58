-- ===== src/Tests/Instance.antt =====
-- internal/instance on small inputs.
use slimwhats.Base.{
  ℕ, zero, ◌+◌, ◌≤◌, ◌≡◌, ◌≢◌, refl, Bool, true, false, List, [], ◌∷◌, Option, none, some, Bytes,
  codes, arith, str_eq, is_empty, length, if◌then◌else◌,
}
use slimwhats.Base.Result.{err}
use slimwhats.Instance.Store.{
  Row, CreateInput, Database, StoreError, name_taken, created, create, set_api_key, set_webhook,
  load_webhook_secret, select_id, select_name, key_or_generated,
}
use slimwhats.Instance.Store.Pairs.{
  IsTable, Op, creates, sets_webhook, apply_all, apply_all-IsTable,
}

abbrev database : Database
database = record { failure = none; conflict = codes "UNIQUE constraint failed: instances.name" }

abbrev shop : CreateInput
shop = record { name = codes "shop"; api_key = []; webhook_url = []; webhook_secret = [] }

abbrev shop_row : Row
shop_row = record {
  id = codes "i1";
  name = codes "shop";
  api_key = some (codes "sk_live_abc");
  webhook_url = none;
  webhook_secret = none;
  status = created;
  phone = none;
  jid = none;
  lid = none;
  connected_at = none;
  last_seen_at = none;
  api_key_set_at = some 5;
  created_at = 5;
  updated_at = 5;
}

-- A second instance of the name is refused, and the table stays.
create_run :
    (create database shop (some (codes "abc")) (some (codes "i2")) 6 (shop_row ∷ [])).1
    ≡ err name_taken
unfolding create select_id str_eq select_name slimwhats.Instance.Store.is_unique_violation
    slimwhats.Base.contains
create_run = refl

abbrev calls : List Op
calls =
    creates database shop (some (codes "abc")) (some (codes "i1")) 5
    ∷ sets_webhook false (codes "i1") (codes "https://a.br") (codes "s")
    ∷ []

apply_all-IsTable_example : IsTable (apply_all calls [])
apply_all-IsTable_example = apply_all-IsTable calls
