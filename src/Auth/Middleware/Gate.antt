-- ===== src/Auth/Middleware/Gate.antt =====
-- Which requests get past the session check.
use slimwhats.Base.{
  ◌≡◌, true, false, [], ◌∷◌, Option, none, some, Bytes, codes, arith, refl, ◌∙◌, if◌then◌else◌,
}
use slimwhats.Base.Result.{ok, err}
use slimwhats.Auth.Session.{Session, SessionStore, Run, validate}
use slimwhats.Auth.Middleware.{
  Gin, session, text, is_api_request, respond_unauth, session_middleware,
}

-- The session that the cookie of a request stands for, as Validate gives it.
abbrev pub session_of : Run → Option Bytes → SessionStore → Option Session
session_of run none s = none
session_of run (some cookie) s = elim (validate run cookie true s).1 [
  | ok sess ↦ some sess
  | err e ↦ none
]

module _ (g : Gin) where
  open g use {
    Context, is_aborted, chain, set, redirect, is_aborted-abort, is_aborted-redirect,
    is_aborted-set, chain-cons, chain-nil,
  }

  -- A guarded route: the handler runs on what the middleware leaves, unless that is aborted.
  chain-pair :
      (m h : SessionStore × Context → SessionStore × Context) (x : SessionStore × Context)
      → chain (m ∷ h ∷ []) x ≡ (if is_aborted (m x).1 then m x else h (m x))
  chain-pair m h x =
      ground (arith, chain-cons m (h ∷ []) x, chain-cons h [] (m x), chain-nil (h (m x)))

  middleware-refuses :
      (run : Run) (path : Bytes) (cookie : Option Bytes) (s : SessionStore) (c : Context)
      → session_of run cookie s ≡ none
      → (session_middleware g run path cookie (s, c)).1 ≡ respond_unauth g path c
  unfolding session_middleware validate
  middleware-refuses run path none s c h = refl
  middleware-refuses run path (some cookie) s c h = ground arith

  middleware-admits :
      (run : Run) (path : Bytes) (cookie : Option Bytes) (s : SessionStore) (c : Context)
      (sess : Session)
      → session_of run cookie s ≡ some sess
      → (session_middleware g run path cookie (s, c)).1
        ≡ set (codes "username") (text sess.username) (set (codes "session") (session sess) c)
  unfolding session_middleware validate
  middleware-admits run path none s c sess h = cc
  middleware-admits run path (some cookie) s c sess h = ground arith

  -- A request for a path under /admin/api/ that carries no valid session ends at the middleware,
  -- whatever the handler behind it would do.
  pub api_needs_session :
      (run : Run) (path : Bytes) (cookie : Option Bytes) (s : SessionStore) (c : Context)
      (handler : SessionStore × Context → SessionStore × Context)
      → is_api_request path ≡ true
      → session_of run cookie s ≡ none
      → chain (session_middleware g run path cookie ∷ handler ∷ []) (s, c)
        ≡ session_middleware g run path cookie (s, c)
  api_needs_session run path cookie s c handler api h =
      let guard = session_middleware g run path cookie in
      chain-pair guard handler (s, c)
      ∙ rw (middleware-refuses run path cookie s c h)
          (unfold respond_unauth in rw (api, is_aborted-abort))

  -- A request for any other path that carries no valid session is redirected, but the handler
  -- behind the middleware runs all the same, where nothing aborted the context before.
  pub page_runs_without_session :
      (run : Run) (path : Bytes) (cookie : Option Bytes) (s : SessionStore) (c : Context)
      (handler : SessionStore × Context → SessionStore × Context)
      → is_api_request path ≡ false
      → session_of run cookie s ≡ none
      → is_aborted c ≡ false
      → chain (session_middleware g run path cookie ∷ handler ∷ []) (s, c)
        ≡ handler
            ((session_middleware g run path cookie (s, c)).0, redirect 302 (codes "/admin/login") c)
  page_runs_without_session run path cookie s c handler api h open_context =
      let guard = session_middleware g run path cookie in
      let refused = middleware-refuses run path cookie s c h in
      let redirected : respond_unauth g path c ≡ redirect 302 (codes "/admin/login") c =
        unfold respond_unauth in rw api in
      chain-pair guard handler (s, c)
      ∙ ground (
        arith,
        refused,
        redirected,
        open_context,
        is_aborted-redirect 302 (codes "/admin/login") c,
      )

  -- With a valid session the handler runs, with the session and its user name in the context, for
  -- any path, where nothing aborted the context before.
  session_admits :
      (run : Run) (path : Bytes) (cookie : Option Bytes) (s : SessionStore) (c : Context)
      (sess : Session) (handler : SessionStore × Context → SessionStore × Context)
      → session_of run cookie s ≡ some sess
      → is_aborted c ≡ false
      → chain (session_middleware g run path cookie ∷ handler ∷ []) (s, c)
        ≡ handler (
          (session_middleware g run path cookie (s, c)).0,
          set (codes "username") (text sess.username) (set (codes "session") (session sess) c),
        )
  session_admits run path cookie s c sess handler h open_context =
      let guard = session_middleware g run path cookie in
      let named = set (codes "session") (session sess) c in
      chain-pair guard handler (s, c)
      ∙ ground (
        arith,
        middleware-admits run path cookie s c sess h,
        open_context,
        is_aborted-set (codes "session") (session sess) c,
        is_aborted-set (codes "username") (text sess.username) named,
      )
