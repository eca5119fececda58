-- ===== src/Handlers/Login/Admits.antt =====
-- Who gets a session from the login handler.
use slimwhats.Base.{◌+◌, ◌<◌, ◌≡◌, some, Bytes, arith, str_eq_iff, Option-cases, inl, inr}
use slimwhats.Base.Result.{ok, Result-cases}
use slimwhats.Auth.LoginLimit
use slimwhats.Auth.Session
use slimwhats.Auth.LoginLimit.Lockout.{failures_of-check}
use slimwhats.Auth.Session.{SessionStore, Run}
use slimwhats.Auth.Session.Lifetime.{create-ok}
use slimwhats.Handlers.Login.{AdminAuth, Attempt, Cookie, wants_html, limited, login}

-- The cookie comes from a session that Create made, behind an open lock and the right password.
record Opened (a : Attempt) (d : AdminAuth) (cookie : Cookie) : Type 0 where
  sess : Session.Session
  password_matches : a.password ≡ some d.manager_password
  unlocked : (LoginLimit.check a.ip a.checked d.limiter).1 ≡ 0
  created : (Session.create a.id a.insert_fails d.manager_username a.created d.sessions).1 ≡ ok sess
  stored :
      (login a d).0.sessions
      ≡ (Session.create a.id a.insert_fails d.manager_username a.created d.sessions).0
  named : cookie.name ≡ d.sessions.cookie_name
  identified : cookie.value ≡ sess.id

login-Opened :
    (a : Attempt) (d : AdminAuth) (cookie : Cookie)
    → (login a d).1.cookie ≡ some cookie
    → Opened a d cookie
unfolding login
login-Opened a d cookie h = elim (Option-cases a.password) [
  | inl missing ↦ absurd (ground (arith, missing))
  | inr (p, given) ↦
      elim (Result-cases
        (Session.create a.id a.insert_fails d.manager_username a.created d.sessions).1) [
          | inr (e, failed) ↦ absurd (ground (arith, given, failed))
          | inl (sess, made) ↦ record {
            sess = sess;
            password_matches = ground (arith, str_eq_iff p d.manager_password);
            unlocked = ground arith;
            created = made;
            stored = ground arith;
            named = ground arith;
            identified = ground arith;
          }
        ]
]

-- A cookie is set only for the manager's password, from an address that is not locked out, and it
-- carries the ID of a session of the manager's user in the table.
pub login_sound :
    (a : Attempt) (d : AdminAuth) (cookie : Cookie)
    → (login a d).1.cookie ≡ some cookie
    → (a.password ≡ some d.manager_password)
      × ((LoginLimit.check a.ip a.checked d.limiter).1 ≡ 0)
      × (a.id ≡ some cookie.value)
      × (cookie.name ≡ d.sessions.cookie_name)
      × ((row : Session.Session) × (Session.select cookie.value (login a d).0.sessions.db
            ≡ some row)
          × (row.username ≡ d.manager_username)
          × (row.expires_at ≡ a.created + d.sessions.ttl))
login_sound a d cookie h =
    let o = login-Opened a d cookie h in
    let (minted, user, expires, found) =
      create-ok a.id a.insert_fails d.manager_username a.created d.sessions o.sess o.created in
    (
      o.password_matches,
      o.unlocked,
      ground (arith, minted, o.identified),
      o.named,
      (o.sess, ground (arith, found, o.stored, o.identified), user, expires),
    )

-- While the address is locked out the answer does not depend on the password, and neither the
-- sessions nor the failures of any address change.
login_locked :
    (a : Attempt) (d : AdminAuth) (j : Bytes)
    → 0 < (LoginLimit.check a.ip a.checked d.limiter).1
    → ((login a d).1 ≡ limited (wants_html a.accept) (LoginLimit.check a.ip a.checked d.limiter).1)
      × ((login a d).0.sessions ≡ d.sessions)
      × (LoginLimit.failures_of (login a d).0.limiter j ≡ LoginLimit.failures_of d.limiter j)
unfolding login
login_locked a d j h = ground (arith, failures_of-check a.ip j a.checked d.limiter)
