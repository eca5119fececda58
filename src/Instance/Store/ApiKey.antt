-- ===== src/Instance/Store/ApiKey.antt =====
-- What is seen of an instance after it is created or changed.
use slimwhats.Base.{
  ℕ, ◌≤◌, ◌≡◌, refl, ◌∙◌, sym, ap, false, List, ◌∷◌, Option, none, some, Bytes, arith, str_eq,
  length, if◌then◌else◌,
}
use slimwhats.Base.Result.{Result, ok, err}
use slimwhats.Base.Dict.{str_eq_refl}
use slimwhats.Instance.Store.{
  Row, CreateInput, Database, StoreError, select_id, select_name, insert_row, webhook_pair,
  create_with, create_checked, key_or_generated, new_row, create, set_api_key, set_webhook,
  load_webhook_secret,
}
use slimwhats.Instance.Store.Table.{select_id-update_rows, changed}

insert_row-ok :
    (d : Database) (row : Row) (db : List Row) (r : Row)
    → (insert_row d row db).1 ≡ ok r
    → (r ≡ row)
      × ((insert_row d row db).0 ≡ row ∷ db)
      × (select_id row.id db ≡ none)
      × (select_name row.name db ≡ none)
insert_row-ok d row db r h = ground (arith, d.failure)

-- A call of Create that gets to its INSERT.
record Inserts (d : Database) (input : CreateInput) (encoded id : Option Bytes) (now : ℕ)
    (db : List Row) (result : List Row × Result StoreError Row) : Type 0 where
  new_id : Bytes
  key : Bytes
  hook : Option (Bytes × Bytes)
  minted : id ≡ some new_id
  keyed : key_or_generated input.api_key encoded ≡ some key
  inserts : result ≡ insert_row d (new_row new_id input.name key hook now) db

create_with-Inserts :
    (d : Database) (input : CreateInput) (encoded id : Option Bytes) (now : ℕ) (db : List Row)
    (hook : Option (Bytes × Bytes)) (k : Option Bytes) (r : Row)
    → key_or_generated input.api_key encoded ≡ k
    → (create_with d input.name now hook k id db).1 ≡ ok r
    → Inserts d input encoded id now db (create_with d input.name now hook k id db)
create_with-Inserts d input encoded id now db hook none r e h = absurd (ground arith)
create_with-Inserts d input encoded none now db hook (some k) r e h = absurd (ground arith)
create_with-Inserts d input encoded (some i) now db hook (some k) r e h = record {
  new_id = i;
  key = k;
  hook = hook;
  minted = refl;
  keyed = e;
  inserts = refl;
}

create_checked-Inserts :
    (d : Database) (input : CreateInput) (encoded id : Option Bytes) (now : ℕ) (db : List Row)
    (checked : Result StoreError (Option (Bytes × Bytes))) (r : Row)
    → (create_checked d input encoded id now checked db).1 ≡ ok r
    → Inserts d input encoded id now db (create_checked d input encoded id now checked db)
create_checked-Inserts d input encoded id now db (err e) r h = absurd (ground arith)
create_checked-Inserts d input encoded id now db (ok hook) r h =
    create_with-Inserts d input encoded id now db hook (key_or_generated input.api_key encoded) r
      refl h

create-Inserts :
    (d : Database) (input : CreateInput) (encoded id : Option Bytes) (now : ℕ) (db : List Row)
    (r : Row)
    → (create d input encoded id now db).1 ≡ ok r
    → (length input.name ≤ 64)
      × Inserts d input encoded id now db (create d input encoded id now db)
unfolding create
create-Inserts d input encoded id now db r h =
    let checked = webhook_pair input.webhook_url input.webhook_secret in
    let e : create d input encoded id now db ≡ create_checked d input encoded id now checked db =
      ground (arith, h) in
    (
      ground (arith, h),
      rw e (create_checked-Inserts d input encoded id now db checked r (sym (ap (λ x. x.1) e) ∙ h)),
    )

-- Create answers the row that the table then holds under its ID, at the front; its name was free and
-- its length is in bounds, and its key is the one given or, where none is, the one generated.
create_sound :
    (d : Database) (input : CreateInput) (encoded id : Option Bytes) (now : ℕ) (db : List Row)
    (r : Row)
    → (create d input encoded id now db).1 ≡ ok r
    → ((create d input encoded id now db).0 ≡ r ∷ db)
      × (some r.id ≡ id)
      × (r.name ≡ input.name)
      × (length input.name ≤ 64)
      × (r.api_key ≡ key_or_generated input.api_key encoded)
      × (select_id r.id db ≡ none)
      × (select_name r.name db ≡ none)
      × (select_id r.id (create d input encoded id now db).0 ≡ some r)
unfolding select_id
create_sound d input encoded id now db r h =
    let (short, c) = create-Inserts d input encoded id now db r h in
    let row = new_row c.new_id input.name c.key c.hook now in
    let (same, grown, fresh_id, fresh_name) =
      insert_row-ok d row db r (sym (ap (λ x. x.1) c.inserts) ∙ h) in
    (
      ap (λ x. x.0) c.inserts ∙ grown ∙ ap (λ x. x ∷ db) (sym same),
      ground (arith, same, c.minted),
      ground (arith, same),
      short,
      ground (arith, same, c.keyed),
      rw same fresh_id,
      rw same fresh_name,
      ground (arith, ap (λ x. x.0) c.inserts, grown, same, str_eq_refl r.id),
    )

-- A key that is set without an error is the key of the instance from then on, with the time it was
-- set; no other instance changes.
pub set_api_key-select :
    (id j key : Bytes) (now : ℕ) (db : List Row)
    → select_id j (set_api_key false id key now db).0 ≡ (
        if str_eq id j
        then changed
            (λ r. record r { api_key = some key; api_key_set_at = some now; updated_at = now })
            (select_id j db)
        else select_id j db)
unfolding set_api_key
set_api_key-select id j key now db = select_id-update_rows _ (λ r. refl) id j db

-- A webhook with a URL and a secret that is set on an instance is the one that is then loaded.
set_webhook-load :
    (id : Bytes) (c d : ℕ) (url secret : Bytes) (db : List Row) (r : Row)
    → select_id id db ≡ some r
    → load_webhook_secret false id (set_webhook false id (c ∷ url) (d ∷ secret) db).0
      ≡ ok (c ∷ url, d ∷ secret)
unfolding set_webhook load_webhook_secret
set_webhook-load id c d url secret db r h =
    let f =
      λ (x : Row). record x { webhook_url = some (c ∷ url); webhook_secret = some (d ∷ secret) } in
    ground (arith, select_id-update_rows f (λ x. refl) id id db, str_eq_refl id, h)
