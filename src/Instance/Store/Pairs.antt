-- ===== src/Instance/Store/Pairs.antt =====
-- The invariant of the table instances: its keys, and a webhook's URL and secret that come and go
-- together.
use slimwhats.Base.{
  ℕ, ◌≡◌, ◌≢◌, refl, ◌⊎◌, inl, inr, Bool, true, false, List, [], ◌∷◌, Option, none, some, Bytes,
  arith, str_eq, All, All-filter, Option-cases, is_empty, ltb, length, if◌then◌else◌,
}
use slimwhats.Base.Result.{ok}
use slimwhats.Instance.Store.{
  Row, Status, CreateInput, Database, select_id, select_name, update_rows, exec, insert_row,
  webhook_pair, create_with, create_checked, key_or_generated, new_row, first_of, second_of, create,
  set_api_key, set_status, set_identity, delete, set_webhook, load_webhook_secret, webhook_of,
}
use slimwhats.Instance.Store.Table.{
  HasKeys, update_rows-HasKeys, delete-HasKeys, other_than, All-select_id,
}

abbrev pub IsPair : Option Bytes → Option Bytes → Type 0
IsPair none none = Unit
IsPair (some url) (some secret) = (url ≢ []) × (secret ≢ [])
IsPair _ _ = ⊥

abbrev pub HasPair : Row → Type 0
HasPair r = IsPair r.webhook_url r.webhook_secret

pub record IsTable (db : List Row) : Type 0 where
  pub keys : HasKeys db
  pub pairs : All HasPair db

-- The calls that change the table, with all that they depend on.
pub data Op : Type 0 where
  creates : Database → CreateInput → Option Bytes → Option Bytes → ℕ → Op
  sets_api_key : Bool → Bytes → Bytes → ℕ → Op
  sets_status : Bool → Bytes → Status → Option ℕ → Option ℕ → ℕ → Op
  sets_identity : Bool → Bytes → Bytes → Bytes → Bytes → ℕ → Op
  sets_webhook : Bool → Bytes → Bytes → Bytes → Op
  deletes : Bool → Bytes → Op

abbrev pub apply : Op → List Row → List Row
apply (creates d input encoded id now) db = (create d input encoded id now db).0
apply (sets_api_key fails id key now) db = (set_api_key fails id key now db).0
apply (sets_status fails id status c l now) db = (set_status fails id status c l now db).0
apply (sets_identity fails id jid lid phone now) db = (set_identity fails id jid lid phone now db).0
apply (sets_webhook fails id url secret) db = (set_webhook fails id url secret db).0
apply (deletes fails id) db = (delete fails id db).0

abbrev pub apply_all : List Op → List Row → List Row
apply_all [] db = db
apply_all (op ∷ ops) db = apply_all ops (apply op db)

pub exec-IsTable :
    (fails : Bool) (f : List Row → List Row) (db : List Row)
    → IsTable db
    → IsTable (f db)
    → IsTable (exec fails f db).0
exec-IsTable true f db t u = t
exec-IsTable false f db t u = u

if-HasPair : (b : Bool) (r s : Row) → HasPair r → HasPair s → HasPair (if b then s else r)
if-HasPair true r s p q = q
if-HasPair false r s p q = p

update_rows-pairs :
    (f : Row → Row) (id : Bytes) (db : List Row)
    → ((r : Row) → HasPair r → HasPair (f r))
    → All HasPair db
    → All HasPair (update_rows f id db)
unfolding update_rows
update_rows-pairs f id [] h a = tt
update_rows-pairs f id (r ∷ rs) h (p, a) =
    (if-HasPair (str_eq r.id id) r (f r) p (h r p), update_rows-pairs f id rs h a)

pub update_rows-IsTable :
    (f : Row → Row) (id : Bytes) (db : List Row)
    → ((r : Row) → (f r).id ≡ r.id)
    → ((r : Row) → (f r).name ≡ r.name)
    → ((r : Row) → HasPair r → HasPair (f r))
    → IsTable db
    → IsTable (update_rows f id db)
update_rows-IsTable f id db i n p t = record {
  keys = update_rows-HasKeys f i n id db t.keys;
  pairs = update_rows-pairs f id db p t.pairs;
}

-- An INSERT either changes nothing, or both keys were free and the row is there.
insert_row-cases :
    (d : Database) (row : Row) (db : List Row)
    → ((insert_row d row db).0 ≡ db)
      ⊎ ((select_id row.id db ≡ none)
          × (select_name row.name db ≡ none)
          × ((insert_row d row db).0 ≡ row ∷ db))
insert_row-cases d row db = ground (arith, d.failure)

insert_row-IsTable :
    (d : Database) (row : Row) (db : List Row)
    → HasPair row
    → IsTable db
    → IsTable (insert_row d row db).0
insert_row-IsTable d row db p t = elim (insert_row-cases d row db) [
  | inl same ↦ rw same t
  | inr (a, b, grown) ↦ rw grown (record { keys = (a, b, t.keys); pairs = (p, t.pairs) })
]

create_with-IsTable :
    (d : Database) (name : Bytes) (now : ℕ) (hook : Option (Bytes × Bytes)) (key id : Option Bytes)
    (db : List Row)
    → IsPair (first_of hook) (second_of hook)
    → IsTable db
    → IsTable (create_with d name now hook key id db).0
create_with-IsTable d name now hook none id db p t = t
create_with-IsTable d name now hook (some key) none db p t = t
create_with-IsTable d name now hook (some key) (some id) db p t =
    insert_row-IsTable d (new_row id name key hook now) db p t

create_checked-IsTable :
    (d : Database) (input : CreateInput) (encoded id : Option Bytes) (now : ℕ) (url secret : Bytes)
    (db : List Row)
    → IsTable db
    → IsTable (create_checked d input encoded id now (webhook_pair url secret) db).0
create_checked-IsTable d input encoded id now [] [] db t =
    create_with-IsTable d input.name now none (key_or_generated input.api_key encoded) id db tt t
create_checked-IsTable d input encoded id now [] (c ∷ secret) db t = t
create_checked-IsTable d input encoded id now (c ∷ url) [] db t = t
create_checked-IsTable d input encoded id now (c ∷ url) (e ∷ secret) db t =
    create_with-IsTable d input.name now (some (c ∷ url, e ∷ secret))
      (key_or_generated input.api_key encoded) id db (ground arith, ground arith) t

if-IsTable :
    (b : Bool) {A : Type 0} (x y : List Row × A)
    → IsTable x.0
    → IsTable y.0
    → IsTable (if b then x else y).0
if-IsTable true x y p q = p
if-IsTable false x y p q = q

set_webhook-IsTable :
    (fails : Bool) (id url secret : Bytes) (db : List Row)
    → IsTable db
    → IsTable (set_webhook fails id url secret db).0
unfolding set_webhook
set_webhook-IsTable fails id [] secret db t =
    exec-IsTable fails
      (update_rows (λ r. record r { webhook_url = none; webhook_secret = none }) id) db t
      (update_rows-IsTable (λ r. record r { webhook_url = none; webhook_secret = none }) id db
        (λ r. refl) (λ r. refl) (λ r p. tt) t)
set_webhook-IsTable fails id (c ∷ url) [] db t = t
set_webhook-IsTable fails id (c ∷ url) (d ∷ secret) db t =
    let f =
      λ (r : Row). record r { webhook_url = some (c ∷ url); webhook_secret = some (d ∷ secret) } in
    exec-IsTable fails (update_rows f id) db t
      (update_rows-IsTable f id db (λ r. refl) (λ r. refl) (λ r p. (ground arith, ground arith)) t)

pub apply-IsTable : (op : Op) (db : List Row) → IsTable db → IsTable (apply op db)
unfolding create set_api_key set_status set_identity delete
apply-IsTable (creates d input encoded id now) db t = if-IsTable (is_empty input.name) _ _ t (
    if-IsTable (ltb 64 (length input.name)) _ _ t
      (create_checked-IsTable d input encoded id now input.webhook_url input.webhook_secret db t))
apply-IsTable (sets_api_key fails id key now) db t =
    exec-IsTable fails _ db t (update_rows-IsTable _ id db (λ r. refl) (λ r. refl) (λ r p. p) t)
apply-IsTable (sets_status fails id status c l now) db t =
    exec-IsTable fails _ db t (update_rows-IsTable _ id db (λ r. refl) (λ r. refl) (λ r p. p) t)
apply-IsTable (sets_identity fails id jid lid phone now) db t =
    exec-IsTable fails _ db t (update_rows-IsTable _ id db (λ r. refl) (λ r. refl) (λ r p. p) t)
apply-IsTable (sets_webhook fails id url secret) db t = set_webhook-IsTable fails id url secret db t
apply-IsTable (deletes fails id) db t = exec-IsTable fails _ db t (record {
  keys = delete-HasKeys id db t.keys;
  pairs = All-filter HasPair (other_than id) db t.pairs;
})

run-IsTable : (ops : List Op) (db : List Row) → IsTable db → IsTable (apply_all ops db)
run-IsTable [] db t = t
run-IsTable (op ∷ ops) db t = run-IsTable ops (apply op db) (apply-IsTable op db t)

-- Whatever calls change an empty table, with whatever failures, its IDs and names stay unique, and
-- a row has a webhook URL exactly where it has a secret, neither of them empty.
pub apply_all-IsTable : (ops : List Op) → IsTable (apply_all ops [])
apply_all-IsTable ops = run-IsTable ops [] (record { keys = tt; pairs = tt })

loaded-pair :
    (r : Row) (url secret : Bytes)
    → HasPair r
    → webhook_of (some r) ≡ ok (url, secret)
    → is_empty url ≡ is_empty secret
loaded-pair r url secret p h = ground (arith, p, h, r.webhook_url, r.webhook_secret, url, secret)

-- So a webhook that is loaded from the table never lacks its secret, and never has one alone.
load_webhook_secret-pair :
    (ops : List Op) (fails : Bool) (id url secret : Bytes)
    → load_webhook_secret fails id (apply_all ops []) ≡ ok (url, secret)
    → is_empty url ≡ is_empty secret
unfolding load_webhook_secret
load_webhook_secret-pair ops true id url secret h = absurd (ground arith)
load_webhook_secret-pair ops false id url secret h =
    let db = apply_all ops [] in
    elim (Option-cases (select_id id db)) [
      | inl missing ↦ absurd (ground (arith, missing))
      | inr (r, found) ↦
          loaded-pair r url secret
            (All-select_id HasPair id db r (apply_all-IsTable ops).pairs found)
            (ground (arith, found))
    ]
