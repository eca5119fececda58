-- ===== src/Handlers/NewInstance/Submitted.antt =====
-- What the form of a new instance comes to.
use slimwhats.Base.{◌≡◌, ◌⊎◌, false, ◌∷◌, ◌++◌, Bytes, codes, str_eq}
use slimwhats.Handlers.Messages.{err_code_internal}
use slimwhats.Handlers.NewInstance.{NewSetting, SubmitAnswer, renders_form, redirects, loaded}
use slimwhats.Instance.Manager.{Manager}
use slimwhats.Instance.Store.{Row, CreateInput, text_or_empty}

-- Either the form is shown again with an error of the operator's and nothing has changed, or the row of the
-- input is new, its client is loaded, and the browser goes to its page.
abbrev pub Settled : NewSetting → CreateInput → Bytes → Manager → Manager × SubmitAnswer → Type 0
Settled g input id m r =
    ((code : Bytes) × (r ≡ (m, renders_form code)) × (str_eq code err_code_internal ≡ false))
    ⊎ ((row : Row) × (r ≡ (
      loaded g id (record m { db = row ∷ m.db }),
      redirects (codes "/admin/instances/" ++ id),
    ))
        × (row.id ≡ id)
        × (row.name ≡ input.name)
        × (text_or_empty row.webhook_url ≡ input.webhook_url)
        × (text_or_empty row.webhook_secret ≡ input.webhook_secret))
