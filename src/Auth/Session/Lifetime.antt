-- ===== src/Auth/Session/Lifetime.antt =====
-- How long a session lives, and what ends it.
use slimwhats.Base.{
  ℕ, ◌+◌, ◌≤◌, ◌≡◌, ◌≢◌, Bool, true, false, [], Option, none, some, Bytes, arith, str_eq,
  str_eq_iff, ltb, ltb→le, Option-cases, inl, inr, is_empty, ◌∙◌, if◌then◌else◌,
}
use slimwhats.Base.Dict.{str_eq_refl}
use slimwhats.Base.Result.{Result, ok, err}
use slimwhats.Auth.Session.Table.{touched, select-delete_rows, select-update_rows, id-select}
use slimwhats.Auth.Session.{
  Session, SessionStore, SessionError, invalid_session, select, create, delete, Run, validate,
}

-- What Validate hands back for a live row.
abbrev pub validated : Run → Bool → ℕ → Session → Session
validated run refresh ttl r =
    if refresh then record r { last_seen_at = run.returned; expires_at = run.extended + ttl } else r

-- The answer of Validate, where SELECT does not fail.
abbrev pub answer_for : Run → Bool → ℕ → Option Session → Result SessionError Session
answer_for run refresh ttl none = err invalid_session
answer_for run refresh ttl (some r) =
    if ltb r.expires_at run.checked then err invalid_session else ok (validated run refresh ttl r)

-- The row of the session after Validate.
abbrev pub row_after : Run → Bool → ℕ → Option Session → Option Session
row_after run refresh ttl none = none
row_after run refresh ttl (some r) =
    if ltb r.expires_at run.checked
    then (if run.delete_fails then some r else none)
    else if refresh
    then (if run.update_fails then some r else touched run.stored (run.extended + ttl) (some r))
    else some r

-- Where SELECT does not fail and the ID is not empty, Validate answers with the session of the
-- row with the ID, unless there is no such row or the row expired before the check. With `refresh` the answer
-- carries the extended expiry even where the UPDATE fails. It changes no row of another ID; it
-- deletes an expired row, unless the DELETE fails; and with `refresh` it stores the extended
-- expiry in a live one, unless the UPDATE fails.
validate_effect :
    (run : Run) (id j : Bytes) (refresh : Bool) (s : SessionStore)
    → is_empty id ≡ false
    → run.select_fails ≡ false
    → ((validate run id refresh s).1 ≡ answer_for run refresh s.ttl (select id s.db))
      × (select j (validate run id refresh s).0.db
          ≡ (if str_eq id j then row_after run refresh s.ttl (select id s.db) else select j s.db))
unfolding validate
validate_effect run id j refresh s ne e = (
  ground arith,
  ground (
    arith,
    select-delete_rows id j s.db,
    str_eq_iff id j,
    select-update_rows run.stored (run.extended + s.ttl) id j s.db,
  ),
)

-- What an accepting call of Validate saw.
record Accepted (run : Run) (id : Bytes) (refresh : Bool) (s : SessionStore) (sess : Session)
    : Type 0 where
  row : Session
  found : select id s.db ≡ some row
  named : is_empty id ≡ false
  read : run.select_fails ≡ false
  live : ltb row.expires_at run.checked ≡ false
  given : sess ≡ validated run refresh s.ttl row

validate-Accepted :
    (run : Run) (id : Bytes) (refresh : Bool) (s : SessionStore) (sess : Session)
    → (validate run id refresh s).1 ≡ ok sess
    → Accepted run id refresh s sess
unfolding validate
validate-Accepted run id refresh s sess h = elim (Option-cases (select id s.db)) [
  | inl missing ↦ absurd (ground arith)
  | inr (r, found) ↦ record {
    row = r;
    found = found;
    named = ground arith;
    read = ground arith;
    live = ground arith;
    given = ground arith;
  }
]

-- Validate accepts nothing but the session of a row with its ID, which had not expired when it was checked.
pub validate_sound :
    (run : Run) (id : Bytes) (refresh : Bool) (s : SessionStore) (sess : Session)
    → (validate run id refresh s).1 ≡ ok sess
    → (row : Session) × (select id s.db ≡ some row)
      × (run.checked ≤ row.expires_at)
      × (sess.id ≡ id)
      × (sess.username ≡ row.username)
      × (id ≢ [])
validate_sound run id refresh s sess h =
    let a = validate-Accepted run id refresh s sess h in
    let same = id-select id s.db a.row a.found in
    (
      a.row,
      a.found,
      ltb→le a.row.expires_at run.checked a.live,
      ground (arith, a.given, same),
      ground (arith, a.given),
      λ e. ground (arith, a.named, e),
    )

-- What a successful Create did: the ID was minted, and the row is in the table.
pub create-ok :
    (id : Option Bytes) (fails : Bool) (username : Bytes) (now : ℕ) (s : SessionStore)
    (sess : Session)
    → (create id fails username now s).1 ≡ ok sess
    → (id ≡ some sess.id)
      × (sess.username ≡ username)
      × (sess.expires_at ≡ now + s.ttl)
      × (select sess.id (create id fails username now s).0.db ≡ some sess)
unfolding create select
create-ok none fails username now s sess h = cc
create-ok (some id) fails username now s sess h = ground (arith, str_eq_refl id)

-- A new session is accepted exactly up to its expiry, `ttl` after it was made.
pub create-validate :
    (run : Run) (id username : Bytes) (now : ℕ) (refresh : Bool) (s : SessionStore)
    → is_empty id ≡ false
    → run.select_fails ≡ false
    → select id s.db ≡ none
    → (validate run id refresh (create (some id) false username now s).0).1 ≡ (
        if ltb (now + s.ttl) run.checked
        then err invalid_session
        else ok (
            validated run refresh s.ttl (record {
              id = id;
              username = username;
              created_at = now;
              expires_at = now + s.ttl;
              last_seen_at = now;
            })))
unfolding validate create select
create-validate run id username now refresh s ne e fresh = ground (arith, str_eq_refl id)

ttl-validate :
    (run : Run) (id : Bytes) (refresh : Bool) (s : SessionStore)
    → (validate run id refresh s).0.ttl ≡ s.ttl
unfolding validate
ttl-validate run id refresh s = ground arith

-- A refreshed session is accepted exactly up to `ttl` after the refresh, whatever its expiry was.
validate-validate :
    (run later : Run) (id : Bytes) (refresh : Bool) (s : SessionStore) (sess : Session)
    → run.update_fails ≡ false
    → later.select_fails ≡ false
    → (validate run id true s).1 ≡ ok sess
    → ((validate later id refresh (validate run id true s).0).1
        ≡ answer_for later refresh s.ttl (some (record sess { last_seen_at = run.stored })))
      × (sess.expires_at ≡ run.extended + s.ttl)
validate-validate run later id refresh s sess u e h =
    let a = validate-Accepted run id true s sess h in
    let effect = validate_effect run id id true s a.named a.read in
    let next = validate_effect later id id refresh (validate run id true s).0 a.named e in
    (
      next.0
          ∙ ground (
            arith,
            effect.1,
            a.found,
            a.live,
            a.given,
            u,
            str_eq_refl id,
            ttl-validate run id true s,
          ),
      ground (arith, a.given),
    )

-- After Delete the ID is refused, until a session with it is made anew.
delete-validate :
    (run : Run) (id : Bytes) (refresh : Bool) (s : SessionStore)
    → run.select_fails ≡ false
    → (validate run id refresh (delete false id s)).1 ≡ err invalid_session
unfolding validate
delete-validate run id refresh s e = ground (arith, select-delete_rows id id s.db, str_eq_refl id)
