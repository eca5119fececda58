-- ===== src/Handlers/Login/Overlap.antt =====
-- LoginHandler where requests overlap: the check of the limiter is one step, and the answer another.
use slimwhats.Base.{ℕ, ◌≡◌, refl, ap, ◌∙◌, List, [], ◌∷◌, ◌++◌, Bytes, All, All-append}
use slimwhats.Auth.LoginLimit
use slimwhats.Auth.LoginLimit.{LoginRateLimiter}
use slimwhats.Base.Dict.{lookup}
use slimwhats.Handlers.Login.{AdminAuth, Attempt, LoginReply, check_limit, answer_login, login}

-- A request that has checked the limiter, with the wait it was told.
pub record Checked : Type 0 where
  pub attempt : Attempt
  pub remaining : ℕ

-- The handler's state, the requests under way, and the answers given.
pub record System : Type 0 where
  pub auth : AdminAuth
  pub checked : List Checked
  pub replies : List LoginReply

abbrev pub begun : Attempt → System → AdminAuth × ℕ → System
begun a s (d, remaining) = record {
  auth = d;
  checked = s.checked ++ record { attempt = a; remaining = remaining } ∷ [];
  replies = s.replies;
}

abbrev pub answered : List Checked → System → AdminAuth × LoginReply → System
answered rest s (d, r) = record { auth = d; checked = rest; replies = s.replies ++ r ∷ [] }

pub data Step (s : System) : System → Type 0 where
  begin : (a : Attempt) → Step s (begun a s (check_limit a s.auth))
  answer :
      (before : List Checked) (c : Checked) (after : List Checked)
      → s.checked ≡ before ++ c ∷ after
      → Step s (answered (before ++ after) s (answer_login c.attempt c.remaining s.auth))

-- `login` is a check with its answer at once.
login-steps :
    (a : Attempt) (d : AdminAuth)
    → login a d ≡ answer_login a (check_limit a d).1 (check_limit a d).0
unfolding login
login-steps a d = refl

-- The states that the steps reach from `s`.
data Reaches (s : System) : System → Type 0 where
  done : Reaches s s
  next : {t u : System} → Reaches s t → Step t u → Reaches s u

-- The requests that check one after another, before any of them is answered.
abbrev begin_all : List Attempt → System → System
begin_all [] s = s
begin_all (a ∷ attempts) s = begin_all attempts (begun a s (check_limit a s.auth))

check-unlocked :
    (ip : Bytes) (now : ℕ) (l : LoginRateLimiter)
    → l.locked_until ≡ []
    → LoginLimit.check ip now l ≡ (l, 0)
unfolding LoginLimit.check lookup
check-unlocked ip now l e = ap (λ d. LoginLimit.check_lock ip now l (lookup ip d)) e

begin_all-Reaches :
    {s : System} (attempts : List Attempt) {t : System}
    → Reaches s t
    → Reaches s (begin_all attempts t)
begin_all-Reaches [] r = r
begin_all-Reaches (a ∷ attempts) r = begin_all-Reaches attempts (next r (begin a))

-- Any number of requests pass a limiter that has locked no address, where they all check it before one of
-- them is answered: the maximum holds only for requests that do not overlap.
overlapping_pass :
    (attempts : List Attempt) (s : System)
    → s.auth.limiter.locked_until ≡ []
    → All (λ c. c.remaining ≡ 0) s.checked
    → All (λ c. c.remaining ≡ 0) (begin_all attempts s).checked
overlapping_pass [] s e all = all
overlapping_pass (a ∷ attempts) s e all =
    let p = check-unlocked a.ip a.checked s.auth.limiter e in
    overlapping_pass attempts (begun a s (check_limit a s.auth)) (ap (λ r. r.0.locked_until) p ∙ e)
      (All-append (λ c. c.remaining ≡ 0) s.checked _ all (ap (λ r. r.1) p, tt))
