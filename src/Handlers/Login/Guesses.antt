-- ===== src/Handlers/Login/Guesses.antt =====
-- How many passwords an address can try: a run of the login handler.
use mathlib.Core.Bool.{false≢true}
use mathlib.Core.Path.{subst}
use slimwhats.Base.{
  ℕ, ◌≤◌, ◌<◌, ◌≡◌, ◌≢◌, refl, sym, ap, ◌∙◌, Bool, true, false, List, [], ◌∷◌, ◌++◌, Option, none,
  some, Bytes, arith, length, ltb, str_eq, str_eq_iff, Bool-cases, inl, inr, if◌then◌else◌,
}
use slimwhats.Base.Clock.{prune}
use slimwhats.Base.Dict.{lookup}
use slimwhats.Auth.LoginLimit
use slimwhats.Auth.LoginLimit.{LoginRateLimiter, new_login_rate_limiter_with}
use slimwhats.Auth.LoginLimit.Lockout.{check-check, check-later}
use slimwhats.Auth.LoginLimit.Guard.{
  max-check, window-check, max-record_failure, window-record_failure,
}
use slimwhats.Auth.LoginLimit.Track.{
  Tracks, Tracks-later, check-Tracks, record_failure-Tracks, record_failure-other-Tracks,
  record_success-Tracks, record_success-other-Tracks,
}
use slimwhats.Handlers.Decimal.{format_seconds}
use slimwhats.Handlers.Login.{AdminAuth, Attempt, text_of, login}

-- The attempt carries the manager's password.
abbrev pub is_password : Option Bytes → AdminAuth → Bool
is_password none d = false
is_password (some p) d = str_eq p d.manager_password

-- The history of one address: the times of its attempts with a wrong password, or none, that the
-- handler did not turn away with a Retry-After; an attempt with the right one clears it.
abbrev pub note : Bool → Option Bytes → Bool → ℕ → List ℕ → List ℕ
note false turned_away right failed h = h
note true (some wait) right failed h = h
note true none true failed h = []
note true none false failed h = h ++ failed ∷ []

pub guesses : Bytes → List Attempt → AdminAuth → List ℕ → List ℕ
guesses j [] d h = h
guesses j (a ∷ attempts) d h =
    let (d', r) = login a d in
    guesses j attempts d' (note (str_eq a.ip j) r.retry_after (is_password a.password d) a.failed h)

-- The clock does not go back, neither in a request nor from one to the next.
abbrev pub IsMonotone : ℕ → List Attempt → Type 0
IsMonotone m [] = Unit
IsMonotone m (a ∷ attempts) =
    (m ≤ a.checked) × (a.checked ≤ a.failed) × IsMonotone a.failed attempts

abbrev pub end_time : ℕ → List Attempt → ℕ
end_time m [] = m
end_time m (a ∷ attempts) = end_time a.failed attempts

module _ (a : Attempt) (d : AdminAuth) where
  abbrev left : ℕ
  left = (LoginLimit.check a.ip a.checked d.limiter).1

  abbrev checked_limiter : LoginRateLimiter
  checked_limiter = (LoginLimit.check a.ip a.checked d.limiter).0

  limiter-login : (login a d).0.limiter ≡ (
      if ltb 0 left
      then checked_limiter
      else if is_password a.password d
      then LoginLimit.record_success a.ip checked_limiter
      else (LoginLimit.record_failure a.ip a.failed checked_limiter).0)
  unfolding login
  limiter-login = ground arith

  turned_away-login : ltb 0 left ≡ true → (t : Bytes) × ((login a d).1.retry_after ≡ some t)
  unfolding login
  turned_away-login h = (text_of (format_seconds left), ground arith)

  let_through-login : ltb 0 left ≡ false → (login a d).1.retry_after ≡ none
  unfolding login
  let_through-login h = ground arith

-- The limits do not change.
module _ (a : Attempt) (d : AdminAuth) where
  window-login : (login a d).0.limiter.window ≡ d.limiter.window
  unfolding LoginLimit.record_success
  window-login = rw limiter-login (
      ground (
        arith,
        window-check a.ip a.checked d.limiter,
        window-record_failure a.ip a.failed (checked_limiter a d),
      ))

  max-login : (login a d).0.limiter.max_failures ≡ d.limiter.max_failures
  unfolding LoginLimit.record_success
  max-login = rw limiter-login (
      ground (
        arith,
        max-check a.ip a.checked d.limiter,
        max-record_failure a.ip a.failed (checked_limiter a d),
      ))

if-Tracks :
    (b : Bool) (j : Bytes) (m : ℕ) (l l' : LoginRateLimiter) (h : List ℕ)
    → Tracks j m l h
    → Tracks j m l' h
    → Tracks j m (if b then l else l') h
if-Tracks true j m l l' h t u = t
if-Tracks false j m l l' h t u = u

self_let_through :
    (a : Attempt) (d : AdminAuth) (m : ℕ) (h : List ℕ)
    → a.checked ≤ a.failed
    → ltb 0 (left a d) ≡ false
    → Tracks a.ip a.checked (checked_limiter a d) h
    → (right : Bool)
    → Tracks a.ip a.failed
        (if right
          then LoginLimit.record_success a.ip (checked_limiter a d)
          else (LoginLimit.record_failure a.ip a.failed (checked_limiter a d)).0)
        (note true none right a.failed h)
self_let_through a d m h q through t true =
    record_success-Tracks a.ip a.checked a.failed (checked_limiter a d) h q t
self_let_through a d m h q through t false =
    record_failure-Tracks a.ip a.checked a.failed (checked_limiter a d) h q
      (check-check a.ip a.ip a.checked a.failed d.limiter q
        ∙ check-later a.ip a.checked a.failed d.limiter q (ground arith))
      t

-- An address other than the one of the attempt.
login-other-Tracks :
    (a : Attempt) (d : AdminAuth) (j : Bytes) (m : ℕ) (h : List ℕ)
    → a.ip ≢ j
    → m ≤ a.checked
    → a.checked ≤ a.failed
    → Tracks j m d.limiter h
    → Tracks j a.failed (login a d).0.limiter h
login-other-Tracks a d j m h ne p q t =
    let t' = check-Tracks a.ip j m a.checked d.limiter h p t in
    rw limiter-login (
      if-Tracks (ltb 0 (left a d)) j a.failed _ _ h
        (Tracks-later j a.checked a.failed (checked_limiter a d) h q t')
        (if-Tracks (is_password a.password d) j a.failed _ _ h
          (record_success-other-Tracks a.ip j a.checked a.failed (checked_limiter a d) h ne q t')
          (record_failure-other-Tracks a.ip j a.checked a.failed (checked_limiter a d) h ne q t')))

login-self-Tracks :
    (a : Attempt) (d : AdminAuth) (m : ℕ) (h : List ℕ)
    → m ≤ a.checked
    → a.checked ≤ a.failed
    → Tracks a.ip m d.limiter h
    → Tracks a.ip a.failed
        (login a d).0.limiter
        (note true (login a d).1.retry_after (is_password a.password d) a.failed h)
login-self-Tracks a d m h p q t =
    let t' = check-Tracks a.ip a.ip m a.checked d.limiter h p t in
    elim (Bool-cases (ltb 0 (left a d))) [
      | inl away ↦
          let (wait, e) = turned_away-login a d away in
          rw (limiter-login, e, away)
            (Tracks-later a.ip a.checked a.failed (checked_limiter a d) h q t')
      | inr through ↦
          rw (limiter-login, let_through-login a d through, through)
            (self_let_through a d m h q through t' (is_password a.password d))
    ]

login-Tracks :
    (a : Attempt) (d : AdminAuth) (j : Bytes) (m : ℕ) (h : List ℕ)
    → m ≤ a.checked
    → a.checked ≤ a.failed
    → Tracks j m d.limiter h
    → Tracks j a.failed
        (login a d).0.limiter
        (note (str_eq a.ip j) (login a d).1.retry_after (is_password a.password d) a.failed h)
login-Tracks a d j m h p q t = elim (Bool-cases (str_eq a.ip j)) [
  | inl same ↦
      let e = (str_eq_iff a.ip j).0 same in
      rw same (
        subst
          (λ k.
            Tracks k m d.limiter h
            → Tracks k a.failed (login a d).0.limiter
                (note true (login a d).1.retry_after (is_password a.password d) a.failed h))
          e (login-self-Tracks a d m h p q) t)
  | inr other ↦
      rw other
        (login-other-Tracks a d j m h (λ e. false≢true (sym other ∙ (str_eq_iff a.ip j).1 e)) p q t)
]

guesses-Tracks :
    (j : Bytes) (attempts : List Attempt) (d : AdminAuth) (m : ℕ) (h : List ℕ) (window max n : ℕ)
    → d.limiter.window ≡ window
    → d.limiter.max_failures ≡ max
    → IsMonotone m attempts
    → Tracks j m d.limiter h
    → end_time m attempts ≤ n
    → length (prune window n (guesses j attempts d h)) ≤ max
unfolding guesses
guesses-Tracks j [] d m h window max n e f mono t q =
    ground (arith, t.shows n q, t.guarded.bounded n q)
guesses-Tracks j (a ∷ attempts) d m h window max n e f (p, r, mono) t q =
    guesses-Tracks j attempts (login a d).0 a.failed _ window max n (window-login a d ∙ e)
      (max-login a d ∙ f) mono (login-Tracks a d j m h p r t) q

fresh-Tracks :
    (j : Bytes) (max window lockout : ℕ)
    → window ≤ lockout
    → 0 < max
    → Tracks j 0 (new_login_rate_limiter_with max window lockout) []
unfolding lookup
fresh-Tracks j max window lockout w p = record {
  guarded = record { past = tt; bounded = λ n k. omega arith; free = λ n k e. p };
  shows = λ n k. refl;
  outlasts = w;
  positive = p;
}

-- Where the maximum is not 0 and the lockout is at least as long as the window, a run of requests one after
-- another, which do not overlap and whose clock does not go back, from a fresh limiter lets no address try
-- more than `max_failures` wrong passwords in a window: at every instant from the end of the run on, at
-- most that many of its wrong attempts since its last right one are younger than the window.
pub guesses-le-max :
    (j : Bytes) (attempts : List Attempt) (d : AdminAuth) (max window lockout n : ℕ)
    → d.limiter ≡ new_login_rate_limiter_with max window lockout
    → window ≤ lockout
    → 0 < max
    → IsMonotone 0 attempts
    → end_time 0 attempts ≤ n
    → length (prune window n (guesses j attempts d [])) ≤ max
guesses-le-max j attempts d max window lockout n e w p mono q =
    guesses-Tracks j attempts d 0 [] window max n (ap (λ l. l.window) e)
      (ap (λ l. l.max_failures) e) mono (rw e (fresh-Tracks j max window lockout w p)) q
