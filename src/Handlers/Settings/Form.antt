-- ===== src/Handlers/Settings/Form.antt =====
-- What the webhook form does with a secret that is left blank.
use slimwhats.Base.{
  ◌≡◌, refl, ap, ◌∙◌, Bool, true, false, List, [], ◌∷◌, some, Bytes, codes, is_empty, if◌then◌else◌,
}
use slimwhats.Base.Result.{ok}
use slimwhats.Handlers.Messages.{err_code_secret_required}
use slimwhats.Handlers.Settings.{
  is_valid_webhook_url, webhook_form_action, with_existing, save_url, failed,
}
use slimwhats.Handlers.Settings.Put.{set-load}
use slimwhats.Instance.Store.{Row, select_id, set_webhook, load_webhook_secret}

blank_secret :
    (load_fails fails : Bool) (id url : Bytes) (db : List Row)
    → is_empty url ≡ false
    → is_valid_webhook_url url ≡ true
    → webhook_form_action load_fails fails id url [] db
      ≡ with_existing fails id url db (load_webhook_secret load_fails id db)
unfolding webhook_form_action
blank_secret load_fails fails id url db u v = rw (u, v) refl

save_url-ok :
    (id url secret : Bytes) (db : List Row)
    → is_empty url ≡ false
    → is_empty secret ≡ false
    → save_url false id url secret db ≡ (
      (set_webhook false id url secret db).0,
      record { text = codes "Webhook saved."; is_ok = true },
    )
unfolding set_webhook
save_url-ok id url secret db u s = rw (u, s) refl

-- An accepted URL with a blank secret, on an instance that exists and with a database that works: where
-- the instance has a secret, the URL is stored and the old secret is kept, so that the next delivery loads both;
-- where it has none, the form asks for one, and the table stays as it was.
pub form_keeps_secret :
    (id url old existing : Bytes) (db : List Row) (row : Row)
    → select_id id db ≡ some row
    → load_webhook_secret false id db ≡ ok (old, existing)
    → is_empty url ≡ false
    → is_valid_webhook_url url ≡ true
    → ((webhook_form_action false false id url [] db).0
        ≡ (if is_empty existing then db else (set_webhook false id url existing db).0))
      × ((webhook_form_action false false id url [] db).1 ≡ (
          if is_empty existing
          then failed err_code_secret_required
          else record { text = codes "Webhook saved."; is_ok = true }))
      × (load_webhook_secret false id (webhook_form_action false false id url [] db).0
          ≡ ok (if is_empty existing then (old, existing) else (url, existing)))
form_keeps_secret id url old [] db row h l u v =
    let e = blank_secret false false id url db u v ∙ ap (with_existing false id url db) l in
    rw e (refl, refl, l)
form_keeps_secret id url old (c ∷ existing) db row h l u v =
    let e =
      blank_secret false false id url db u v
      ∙ ap (with_existing false id url db) l
      ∙ save_url-ok id url (c ∷ existing) db u refl in
    rw e (refl, refl, set-load id url (c ∷ existing) db row h u refl)
