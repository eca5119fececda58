-- ===== src/Handlers/Reply.antt =====
-- What a handler writes: each path through one writes a single reply.
use slimwhats.Base.{ℕ, Bytes}

pub data Reply {ℓ} (A : Type ℓ) : Type ℓ where
  -- `c.JSON(http.StatusOK, …)` or another status of success
  json : ℕ → A → Reply A
  -- `c.AbortWithStatusJSON(status, gin.H{"error": error, …})`
  fail : ℕ → Bytes → Reply A
  -- `c.Redirect(http.StatusFound, location)`
  redirect : Bytes → Reply A
