-- ===== src/Handlers/Settings/Put.antt =====
-- What PUT …/webhook leaves in the table.
use slimwhats.Base.{
  ◌≡◌, refl, false, not, ◌&&◌, List, [], ◌∷◌, none, some, Bytes, codes, is_empty, has_prefix, inl,
  inr, Bool-cases, if◌then◌else◌,
}
use slimwhats.Base.Dict.{str_eq_refl}
use slimwhats.Base.Result.{ok}
use slimwhats.Handlers.Reply.{json, fail}
use slimwhats.Handlers.Settings.{is_valid_webhook_url, set_webhook_handler}
use slimwhats.Instance.Store.{Row, select_id, set_webhook, load_webhook_secret}
use slimwhats.Instance.Store.Table.{select_id-update_rows}

-- A webhook that is set is loaded again.
pub set-load :
    (id url secret : Bytes) (db : List Row) (row : Row)
    → select_id id db ≡ some row
    → is_empty url ≡ false
    → is_empty secret ≡ false
    → load_webhook_secret false id (set_webhook false id url secret db).0 ≡ ok (url, secret)
unfolding set_webhook load_webhook_secret
set-load id url secret db row h u s =
    rw
      (
        u,
        s,
        select_id-update_rows
            (λ r. record r { webhook_url = some url; webhook_secret = some secret }) (λ r. refl) id
            id db,
        str_eq_refl id,
        h,
      )
      refl

clear-load :
    (id : Bytes) (db : List Row) (row : Row)
    → select_id id db ≡ some row
    → load_webhook_secret false id (set_webhook false id [] [] db).0 ≡ ok ([], [])
unfolding set_webhook load_webhook_secret
clear-load id db row h =
    rw
      (
        select_id-update_rows (λ r. record r { webhook_url = none; webhook_secret = none })
            (λ r. refl) id id db,
        str_eq_refl id,
        h,
      )
      refl

-- On an instance that exists, with a database that works: an empty URL and secret clear the webhook; a URL
-- that is not accepted gets 400 and changes nothing; an accepted URL with a secret is what the next
-- delivery loads; and an accepted URL without a secret gets 500 and changes nothing.
put_webhook :
    (id url secret : Bytes) (db : List Row) (row : Row)
    → select_id id db ≡ some row
    → ((set_webhook_handler false id (some (url, secret)) db).1 ≡ (
        if is_empty url && is_empty secret
        then json 200 (codes "cleared")
        else if not (is_valid_webhook_url url)
        then fail 400 (codes "invalid_url")
        else if is_empty secret
        then fail 500 (codes "set_webhook_failed")
        else json 200 (codes "configured")))
      × (load_webhook_secret false id (set_webhook_handler false id (some (url, secret)) db).0 ≡ (
          if is_empty url && is_empty secret
          then ok ([], [])
          else if is_valid_webhook_url url && not (is_empty secret)
          then ok (url, secret)
          else load_webhook_secret false id db))
unfolding set_webhook_handler set_webhook
put_webhook id [] [] db row h = (refl, clear-load id db row h)
put_webhook id [] (d ∷ secret) db row h = unfold is_valid_webhook_url has_prefix in (refl, refl)
put_webhook id (c ∷ url) [] db row h = elim (Bool-cases (is_valid_webhook_url (c ∷ url))) [
  | inl valid ↦ rw valid (refl, refl)
  | inr invalid ↦ rw invalid (refl, refl)
]
put_webhook id (c ∷ url) (d ∷ secret) db row h =
    elim (Bool-cases (is_valid_webhook_url (c ∷ url))) [
      | inl valid ↦ rw valid (refl, set-load id (c ∷ url) (d ∷ secret) db row h refl refl)
      | inr invalid ↦ rw invalid (refl, refl)
    ]
