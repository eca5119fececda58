-- ===== src/Handlers/ApiKey/Reveal.antt =====
-- Who is shown an API key.
use slimwhats.Base.{
  ℕ, ◌≡◌, ◌≢◌, ◌∙◌, ap, refl, Bool, true, false, List, [], Option, none, some, Bytes, codes, arith,
  str_eq, str_eq_iff, Option-cases, Bool-cases, inl, inr,
}
use slimwhats.Base.Result.{Result, ok, err}
use slimwhats.Handlers.Reply.{json}
use slimwhats.Handlers.ApiKey.{
  ApiKeyState, replies, KeyBody, logged, with_instance, revealed, reveal_api_key_handler,
}
use slimwhats.Instance.Lookup.{get_by_id, scan_instance_rows}
use slimwhats.Instance.Store.{Row, Instance, StoreError, instance_of, select_id, text_or_empty}

with_instance-json :
    (found : Result StoreError (Option Instance)) (id : Bytes) (s : ApiKeyState) (code : ℕ)
    (body : KeyBody)
    → (with_instance found s (revealed id s)).1 ≡ replies (json code body)
    → (inst : Instance) × (found ≡ ok (some inst))
      × (inst.api_key ≡ body.api_key)
      × (inst.api_key ≢ [])
      × ((with_instance found s (revealed id s)).0
          ≡ logged (codes "instance.api_key_revealed") id s)
with_instance-json (err e) id s code body h = absurd (ground arith)
with_instance-json (ok none) id s code body h = absurd (ground arith)
with_instance-json (ok (some inst)) id s code body h = (
  inst,
  refl,
  ground (arith, inst.api_key),
  ground (arith, inst.api_key),
  ground (arith, inst.api_key),
)

get_by_id-some :
    (fails : Bool) (id : Bytes) (db : List Row) (inst : Instance)
    → get_by_id fails id db ≡ ok (some inst)
    → (r : Row) × (select_id id db ≡ some r) × (instance_of r ≡ inst)
unfolding get_by_id scan_instance_rows
get_by_id-some true id db inst h = absurd (ground arith)
get_by_id-some false id db inst h = elim (Option-cases (select_id id db)) [
  | inl missing ↦ absurd (ground (arith, missing))
  | inr (r, found) ↦ (r, found, ground (arith, found))
]

key_of_row :
    (r : Row) (inst : Instance) (key : Bytes)
    → instance_of r ≡ inst
    → inst.api_key ≡ key
    → inst.api_key ≢ []
    → r.api_key ≡ some key
unfolding instance_of
key_of_row r inst key e k n =
    let q : text_or_empty r.api_key ≡ inst.api_key = ap (λ i. i.api_key) e in
    ground (arith, q, r.api_key)

-- A key is shown only to a request with the manager's password. It is the one that the row of the
-- instance holds and it is not empty; the reveal is in the audit log, and the table stays as it is.
pub reveal_sound :
    (lookup_fails : Bool) (manager_password id : Bytes) (password : Option Bytes) (s : ApiKeyState)
    (code : ℕ) (body : KeyBody)
    → (reveal_api_key_handler lookup_fails manager_password id password s).1
      ≡ replies (json code body)
    → (password ≡ some manager_password)
      × ((r : Row) × (select_id id s.db ≡ some r) × (r.api_key ≡ some body.api_key))
      × (body.api_key ≢ [])
      × ((reveal_api_key_handler lookup_fails manager_password id password s).0
          ≡ logged (codes "instance.api_key_revealed") id s)
unfolding reveal_api_key_handler instance_of
reveal_sound lookup_fails manager_password id none s code body h = absurd (ground arith)
reveal_sound lookup_fails manager_password id (some password) s code body h =
    elim (Bool-cases (str_eq password manager_password)) [
      | inr wrong ↦ absurd (ground (arith, wrong))
      | inl right ↦
          let found = get_by_id lookup_fails id s.db in
          let (inst, there, key, given, audited) =
            with_instance-json found id s code body (ground (arith, right)) in
          let (r, selected, same) = get_by_id-some lookup_fails id s.db inst there in
          (
            ground (arith, (str_eq_iff password manager_password).0 right),
            (r, selected, key_of_row r inst body.api_key same key given),
            (λ e. given (key ∙ e)),
            ground (arith, right, audited),
          )
    ]
