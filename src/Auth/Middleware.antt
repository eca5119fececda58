-- ===== src/Auth/Middleware.antt =====
-- internal/auth/middleware.go: the session check in front of the manager's routes. The framework gin is
-- a parameter: its contexts, the calls that the middleware makes, and its loop over the handlers.
pub mod Gate
use slimwhats.Base.{
  ℕ, Bool, true, false, List, [], ◌∷◌, Option, none, some, ◌≡◌, Bytes, codes, is_empty, has_prefix,
  if◌then◌else◌,
}
use slimwhats.Base.Result.{Result, ok, err}
use slimwhats.Auth.Session.{Session, SessionStore, SessionError, Run, validate}

-- What a handler stores in the context.
pub data ContextValue : Type 0 where
  session : Session → ContextValue
  text : Bytes → ContextValue

-- gin, as its documentation describes it: `chain` calls the handlers of a request in turn, and
-- stops behind one that has aborted the context. Only the abort functions abort.
pub record Gin : Type 1 where
  pub Context : Type 0
  pub abort_with_status_json : ℕ → Bytes → Context → Context
  pub redirect : ℕ → Bytes → Context → Context
  pub set : Bytes → ContextValue → Context → Context
  pub is_aborted : Context → Bool
  pub chain :
      List (SessionStore × Context → SessionStore × Context)
      → SessionStore × Context
      → SessionStore × Context
  pub is_aborted-abort :
      (status : ℕ) (error : Bytes) (c : Context)
      → is_aborted (abort_with_status_json status error c) ≡ true
  pub is_aborted-redirect :
      (status : ℕ) (location : Bytes) (c : Context)
      → is_aborted (redirect status location c) ≡ is_aborted c
  pub is_aborted-set :
      (key : Bytes) (v : ContextValue) (c : Context) → is_aborted (set key v c) ≡ is_aborted c
  pub chain-nil : (x : SessionStore × Context) → chain [] x ≡ x
  pub chain-cons :
      (h : SessionStore × Context → SessionStore × Context)
      (hs : List (SessionStore × Context → SessionStore × Context)) (x : SessionStore × Context)
      → chain (h ∷ hs) x ≡ (if is_aborted (h x).1 then h x else chain hs (h x))

-- `isAPIRequest`, on the path of the request
abbrev pub is_api_request : Bytes → Bool
is_api_request path = has_prefix path (codes "/admin/api/")

module _ (g : Gin) where
  open g use {Context, abort_with_status_json, redirect, set}

  -- 401 and 302
  unfoldable pub respond_unauth : Bytes → Context → Context
  respond_unauth path c =
      if is_api_request path
      then abort_with_status_json 401 (codes "unauthorized") c
      else redirect 302 (codes "/admin/login") c

  abbrev pub admit :
      Bytes → Context → SessionStore × Result SessionError Session → SessionStore × Context
  admit path c (s, ok sess) =
      (s, set (codes "username") (text sess.username) (set (codes "session") (session sess) c))
  admit path c (s, err e) = (s, respond_unauth path c)

  -- `cookie` is what `c.Cookie(store.CookieName)` gives, none where it is an error.
  unfoldable pub session_middleware :
      Run → Bytes → Option Bytes → SessionStore × Context → SessionStore × Context
  session_middleware run path none (s, c) = (s, respond_unauth path c)
  session_middleware run path (some cookie) (s, c) =
      if is_empty cookie
      then (s, respond_unauth path c)
      else admit path c (validate run cookie true s)
