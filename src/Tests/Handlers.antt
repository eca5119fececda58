-- ===== src/Tests/Handlers.antt =====
-- internal/handlers on small inputs.
use slimwhats.Base.{
  ℕ, zero, ◌+◌, ◌*◌, ◌/◌, ◌≤◌, ◌<◌, ◌≡◌, ◌≢◌, refl, Bool, true, false, List, [], ◌∷◌, ◌++◌, Option,
  none, some, Bytes, codes, arith, str_eq, length, ltb, All, if◌then◌else◌,
}
use slimwhats.Base.Clock.{prune}
use slimwhats.Auth.LoginLimit
use slimwhats.Auth.LoginLimit.{new_login_rate_limiter, new_login_rate_limiter_with}
use slimwhats.Auth.Session
use slimwhats.Auth.Session.{Session, SessionStore, new_session_store}
use slimwhats.Handlers.Decimal.{Int64, pos, negsuc, itoa, format_seconds}
use slimwhats.Handlers.Login.{AdminAuth, Attempt, Cookie, login}
use slimwhats.Handlers.Login.Admits.{login_sound}
use slimwhats.Handlers.Login.Guesses.{guesses, guesses-le-max}

abbrev auth : AdminAuth
auth = record {
  sessions = new_session_store [];
  limiter = new_login_rate_limiter_with 1 10 20;
  manager_password = codes "pw";
  manager_username = codes "admin";
  secure_cookie = true;
}

abbrev right_attempt : Attempt
right_attempt = record {
  ip = codes "10.0.0.1";
  accept = codes "application/json";
  password = some (codes "pw");
  id = some (codes "s1");
  insert_fails = false;
  checked = 3;
  failed = 3;
  created = 3;
  sent = 3;
}

abbrev wrong_attempt : Attempt
wrong_attempt = record right_attempt { password = some (codes "no") }

abbrev cookie : Cookie
cookie = record { name = codes "session"; value = codes "s1"; max_age = some 43200; secure = true }

login_sound_example :
    (right_attempt.password ≡ some auth.manager_password)
    × ((LoginLimit.check right_attempt.ip right_attempt.checked auth.limiter).1 ≡ 0)
    × (right_attempt.id ≡ some cookie.value)
    × (cookie.name ≡ auth.sessions.cookie_name)
    × ((row : Session.Session) × (Session.select cookie.value
            (login right_attempt auth).0.sessions.db
          ≡ some row)
        × (row.username ≡ auth.manager_username)
        × (row.expires_at ≡ right_attempt.created + auth.sessions.ttl))
unfolding login LoginLimit.check slimwhats.Base.Dict.lookup str_eq Session.create Session.select
login_sound_example = login_sound right_attempt auth cookie refl

abbrev locked : AdminAuth
locked = (login wrong_attempt auth).0

guesses-le-max_example :
    length (prune 10 4 (guesses (codes "10.0.0.1") (wrong_attempt ∷ wrong_attempt ∷ []) auth []))
    ≤ 1
guesses-le-max_example =
    guesses-le-max (codes "10.0.0.1") (wrong_attempt ∷ wrong_attempt ∷ []) auth 1 10 20 4 refl
      (omega arith) (omega arith) (omega arith, omega arith, (omega arith, omega arith, tt))
      (omega arith)

itoa_run : itoa (negsuc 41) ≡ some (codes "-42")
unfolding itoa slimwhats.Handlers.Decimal.write_digits
itoa_run = refl
