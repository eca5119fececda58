-- ===== src/Tests/Auth.antt =====
-- internal/auth on small inputs.
use slimwhats.Base.{
  ℕ, zero, ◌+◌, ◌-◌, ◌≤◌, ◌<◌, ◌≡◌, ◌≢◌, refl, Bool, true, false, List, [], ◌∷◌, Option, none, some,
  Bytes, codes, arith, leb, ltb, str_eq, if◌then◌else◌,
}
use slimwhats.Base.Result.{ok, err}
use slimwhats.Auth.LoginLimit.{LoginRateLimiter, new_login_rate_limiter_with, record_failure}
use slimwhats.Auth.Session.{
  Session, SessionStore, Run, invalid_session, new_session_store, create, validate, select,
}
use slimwhats.Auth.Session.Lifetime.{validated, validate_sound, create-validate}
use slimwhats.Auth.Middleware.{Gin, session_middleware}
use slimwhats.Auth.Middleware.Gate.{api_needs_session, page_runs_without_session}

abbrev home : Bytes
home = codes "10.0.0.1"

abbrev away : Bytes
away = codes "10.0.0.2"

abbrev two_tries : LoginRateLimiter
two_tries = (record_failure home 3 (new_login_rate_limiter_with 2 10 20)).0

abbrev row : Session
row = record {
  id = codes "s1";
  username = codes "admin";
  created_at = 1;
  expires_at = 50;
  last_seen_at = 1;
}

abbrev store : SessionStore
store = new_session_store (row ∷ [])

abbrev run : Run
run = record {
  select_fails = false;
  delete_fails = false;
  update_fails = false;
  checked = 40;
  extended = 41;
  stored = 42;
  returned = 43;
}

validate_sound_example :
    (r : Session) × (select (codes "s1") store.db ≡ some r)
    × (run.checked ≤ r.expires_at)
    × (row.id ≡ codes "s1")
    × (row.username ≡ r.username)
    × (codes "s1" ≢ [])
unfolding validate select str_eq
validate_sound_example = validate_sound run (codes "s1") false store row refl

create-validate_example :
    (validate run
      (codes "s2")
      false
      (create (some (codes "s2")) false (codes "admin") 30 store).0).1
    ≡ (if ltb (30 + store.ttl) run.checked
        then err invalid_session
        else ok (
            validated run false store.ttl (record {
              id = codes "s2";
              username = codes "admin";
              created_at = 30;
              expires_at = 30 + store.ttl;
              last_seen_at = 30;
            })))
unfolding select str_eq
create-validate_example =
    create-validate run (codes "s2") (codes "admin") 30 false store refl refl refl

abbrev refreshed : Session
refreshed = record row { last_seen_at = 43; expires_at = 41 + store.ttl }

-- A framework whose contexts are whether they are aborted, and how many handlers have run.
abbrev Counted : Type 0
Counted = Bool × ℕ

abbrev run_chain :
    List (SessionStore × Counted → SessionStore × Counted)
    → SessionStore × Counted
    → SessionStore × Counted
run_chain [] x = x
run_chain (h ∷ hs) x = let rest = run_chain hs (h x) in if (h x).1.0 then h x else rest

abbrev counting : Gin
counting = record {
  Context = Counted;
  abort_with_status_json = λ status error c. (true, c.1);
  redirect = λ status location c. c;
  set = λ key v c. c;
  is_aborted = λ c. c.0;
  chain = run_chain;
  is_aborted-abort = λ status error c. refl;
  is_aborted-redirect = λ status location c. refl;
  is_aborted-set = λ key v c. refl;
  chain-nil = λ x. refl;
  chain-cons = λ h hs x. refl;
}

abbrev handler : SessionStore × Counted → SessionStore × Counted
handler (s, (aborted, n)) = (s, (aborted, n + 1))

abbrev api_path : Bytes
api_path = codes "/admin/api/instances"

abbrev page_path : Bytes
page_path = codes "/admin/instances"

api_needs_session_example :
    run_chain (session_middleware counting run api_path none ∷ handler ∷ []) (store, (false, 0))
    ≡ session_middleware counting run api_path none (store, (false, 0))
unfolding slimwhats.Base.has_prefix
api_needs_session_example =
    api_needs_session counting run api_path none store (false, 0) handler refl refl

page_runs_without_session_example :
    run_chain (session_middleware counting run page_path none ∷ handler ∷ []) (store, (false, 0))
    ≡ handler ((session_middleware counting run page_path none (store, (false, 0))).0, (false, 0))
unfolding slimwhats.Base.has_prefix
page_runs_without_session_example =
    page_runs_without_session counting run page_path none store (false, 0) handler refl refl refl
