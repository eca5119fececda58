-- ===== src/Handlers/Login.antt =====
-- `LoginHandler` and `LogoutHandler` of internal/handlers/admin_auth.go. The limiter and the session
-- store are the state; what the request binds to, the random ID and the clock are arguments.
pub mod Admits
pub mod Guesses
pub mod Overlap
use slimwhats.Base.{
  ℕ, ◌+◌, ◌-◌, ◌/◌, Bool, true, false, List, [], ◌∷◌, ◌++◌, Option, none, some, Bytes, codes, ltb,
  str_eq, is_empty, contains, ◌||◌, if◌then◌else◌,
}
use slimwhats.Base.Clock.{second}
use slimwhats.Base.Result.{Result, ok, err}
use slimwhats.Auth.LoginLimit
use slimwhats.Auth.LoginLimit.{LoginRateLimiter}
use slimwhats.Auth.Session
use slimwhats.Auth.Session.{Session, SessionStore, SessionError}
use slimwhats.Handlers.Reply.{Reply, json, fail, redirect}
use slimwhats.Handlers.Decimal.{format_seconds}

pub record AdminAuth : Type 0 where
  pub sessions : SessionStore
  pub limiter : LoginRateLimiter
  pub manager_password : Bytes
  pub manager_username : Bytes
  pub secure_cookie : Bool

-- A POST to /admin/login. `password` is none where the form does not bind; `id` is none where the
-- random source fails; the times are the readings of the clock in the order of the calls.
pub record Attempt : Type 0 where
  pub ip : Bytes
  pub accept : Bytes
  pub password : Option Bytes
  pub id : Option Bytes
  pub insert_fails : Bool
  pub checked : ℕ
  pub failed : ℕ
  pub created : ℕ
  pub sent : ℕ

-- `c.SetCookie`; `max_age` is none where the cookie is to be dropped.
pub record Cookie : Type 0 where
  pub name : Bytes
  pub value : Bytes
  pub max_age : Option ℕ
  pub secure : Bool

pub record LoginResponse : Type 0 where
  pub username : Bytes
  pub expires_at : ℕ

pub record LoginReply : Type 0 where
  pub reply : Reply LoginResponse
  pub retry_after : Option Bytes
  pub cookie : Option Cookie

-- `wantsHTML` of internal/handlers/admin_pages.go
unfoldable pub wants_html : Bytes → Bool
wants_html accept = is_empty accept || contains accept (codes "text/html")

-- `CompareConstantTime` of internal/auth/session.go
abbrev pub compare_constant_time : Bytes → Bytes → Bool
compare_constant_time = str_eq

-- The loop in `formatSeconds` never leaves its buffer, so that none is no case of the program.
abbrev pub text_of : Option Bytes → Bytes
text_of none = []
text_of (some t) = t

abbrev pub plain : Reply LoginResponse → LoginReply
plain r = record { reply = r; retry_after = none; cookie = none }

-- Each refusal is a redirect for a browser, and else a status with an error code.
abbrev pub refusal : Bool → ℕ → Bytes → LoginReply
refusal browser status error =
    plain (if browser then redirect (codes "/admin/login?error=" ++ error) else fail status error)

abbrev pub limited : Bool → ℕ → LoginReply
limited browser remaining =
    let wait = text_of (format_seconds remaining) in
    record {
      reply =
          if browser
          then redirect (codes "/admin/login?error=rate_limited&retry_after=" ++ wait)
          else fail 429 (codes "rate_limited");
      retry_after = some wait;
      cookie = none;
    }

abbrev pub record_failure : Attempt → AdminAuth → AdminAuth
record_failure a d = record d { limiter = (LoginLimit.record_failure a.ip a.failed d.limiter).0 }

abbrev pub welcome : Attempt → AdminAuth → Session → LoginReply
welcome a d sess = record {
  reply =
      if wants_html a.accept
      then redirect (codes "/admin/")
      else json 200 (record { username = sess.username; expires_at = sess.expires_at });
  retry_after = none;
  cookie = some (record {
    name = d.sessions.cookie_name;
    value = sess.id;
    max_age = some ((sess.expires_at - a.sent) / second);
    secure = d.secure_cookie;
  });
}

-- Behind `Sessions.Create`; the store is stored whatever it answered.
abbrev pub open_session :
    Attempt → AdminAuth → SessionStore × Result SessionError Session → AdminAuth × LoginReply
open_session a d (s, ok sess) = (record d { sessions = s }, welcome a d sess)
open_session a d (s, err e) =
    (record d { sessions = s }, refusal (wants_html a.accept) 500 (codes "session_create_failed"))

-- Behind the check of the limiter, which let the request pass.
abbrev pub try_password : Attempt → AdminAuth → Option Bytes → AdminAuth × LoginReply
try_password a d none =
    (record_failure a d, refusal (wants_html a.accept) 400 (codes "invalid_request"))
try_password a d (some password) =
    if compare_constant_time password d.manager_password
    then open_session a (record d { limiter = LoginLimit.record_success a.ip d.limiter })
        (Session.create a.id a.insert_fails d.manager_username a.created d.sessions)
    else (record_failure a d, refusal (wants_html a.accept) 401 (codes "invalid_credentials"))

-- `d.Limiter.Check(ip)`, which has the limiter's lock for itself.
abbrev pub check_limit : Attempt → AdminAuth → AdminAuth × ℕ
check_limit a d =
    let (l, remaining) = LoginLimit.check a.ip a.checked d.limiter in
    (record d { limiter = l }, remaining)

-- What follows, on the wait that the check gave; recordFailure and RecordSuccess take the lock again.
abbrev pub answer_login : Attempt → ℕ → AdminAuth → AdminAuth × LoginReply
answer_login a remaining d =
    if ltb 0 remaining
    then (d, limited (wants_html a.accept) remaining)
    else try_password a d a.password

-- A request that no other one overlaps: between its two parts other requests could check the limiter.
unfoldable pub login : Attempt → AdminAuth → AdminAuth × LoginReply
login a d = let (d', remaining) = check_limit a d in answer_login a remaining d'

-- `cookie` is none where `c.Cookie` gives an error; the DELETE may fail.
abbrev pub drop_session : Bool → Option Bytes → SessionStore → SessionStore
drop_session fails none s = s
drop_session fails (some cookie) s = if is_empty cookie then s else Session.delete fails cookie s

unfoldable pub logout : Bool → Option Bytes → AdminAuth → AdminAuth × Cookie
logout delete_fails cookie d = (
  record d { sessions = drop_session delete_fails cookie d.sessions },
  record { name = d.sessions.cookie_name; value = []; max_age = none; secure = d.secure_cookie },
)
