-- ===== src/Handlers/Access/Admits.antt =====
-- Whom the middleware of the API keys admits.
use slimwhats.Base.{
  ◌≡◌, refl, ap, ◌⊎◌, Bool, true, false, not, ◌||◌, List, [], ◌∷◌, none, Bytes, codes, str_eq, ltb,
  length, take, drop, inl, inr, Bool-cases,
}
use slimwhats.Base.Result.{ok, err}
use slimwhats.Handlers.Reply.{fail}
use slimwhats.Handlers.Access.{
  refused, keyed, with_key_of, get_by_api_key_client, instance_api_key_auth,
}
use slimwhats.Instance.Store.{Row, StoreError, statement_failed}
use slimwhats.Instance.Lookup.{
  get_by_api_key, get_by_api_key_fails, all_instances, scan_all, with_key,
}
use slimwhats.Instance.Manager.{Manager, Container, Weather}

get_by_api_key-none :
    (fails : Bool) (plaintext : Bytes) (db : List Row)
    → ((e : StoreError) × (get_by_api_key fails plaintext db ≡ err e))
      ⊎ (get_by_api_key fails plaintext db ≡ ok none)
unfolding get_by_api_key all_instances scan_all with_key
get_by_api_key-none true plaintext [] = inl (statement_failed, refl)
get_by_api_key-none false plaintext [] = inr refl
get_by_api_key-none fails plaintext (r ∷ rs) = inl (get_by_api_key_fails fails plaintext r rs)

-- The middleware of the API keys admits no request: whatever the table holds and whatever key is
-- given, also the key of an instance, it answers 401 invalid_api_key or 500 lookup_failed, and the
-- manager stays as it is.
pub auth_admits_none :
    (c : Container) (w : Weather) (header : Bytes) (m : Manager)
    → (instance_api_key_auth c w header m ≡ (m, refused (fail 401 (codes "invalid_api_key"))))
      ⊎ (instance_api_key_auth c w header m ≡ (m, refused (fail 500 (codes "lookup_failed"))))
unfolding instance_api_key_auth get_by_api_key_client
auth_admits_none c w header m =
    elim (Bool-cases (ltb (length header) 8 || not (str_eq (take 7 header) (codes "Bearer ")))) [
      | inl bad ↦ inl (rw bad refl)
      | inr good ↦ elim (get_by_api_key-none w.load_fails (drop 7 header) m.db) [
        | inl (e, p) ↦ inr (rw good (ap (λ r. with_key_of (keyed c w r m)) p))
        | inr p ↦ inl (rw good (ap (λ r. with_key_of (keyed c w r m)) p))
      ]
    ]
