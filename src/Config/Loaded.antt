-- ===== src/Config/Loaded.antt =====
-- What a configuration that is loaded holds.
use slimwhats.Base.{
  ℕ, ◌≡◌, ◌≢◌, refl, Bool, true, false, not, ◌&&◌, ◌⊎◌, inl, inr, [], ◌∷◌, Option, Bytes, codes,
  contains, has_prefix, is_empty, arith, ◌==◌, if_holds,
}
use slimwhats.Base.Result.{Result, ok, err}
use slimwhats.Config.{
  Config, YamlConfig, ConfigError, YamlFile, yaml_config, normalize_http_addr, trim_right,
  normalize_url, encryption_key, with_key, with_password, with_yaml, load,
}

abbrev ends_in_slash : Bytes → Bool
ends_in_slash [] = false
ends_in_slash (c ∷ []) = c == 47
ends_in_slash (c ∷ d ∷ s) = ends_in_slash (d ∷ s)

ends_in_slash-cons :
    (c : ℕ) (s : Bytes) → is_empty s ≡ false → ends_in_slash (c ∷ s) ≡ ends_in_slash s
ends_in_slash-cons c [] h = absurd (cc)
ends_in_slash-cons c (d ∷ s) h = refl

ends-trim_right : (s : Bytes) → ends_in_slash (trim_right s) ≡ false
unfolding trim_right
ends-trim_right [] = refl
ends-trim_right (c ∷ s) =
    if_holds (λ r. ends_in_slash r ≡ false) (is_empty (trim_right s) && c == 47) (λ slash. refl)
      (λ other. kept (trim_right s) other (ends-trim_right s))
  where
    kept :
        (r : Bytes)
        → (is_empty r && c == 47) ≡ false
        → ends_in_slash r ≡ false
        → ends_in_slash (c ∷ r) ≡ false
    kept [] o h = o
    kept (d ∷ r) o h = h

ends-normalize_url : (raw : Bytes) → ends_in_slash (normalize_url raw) ≡ false
unfolding normalize_url
ends-normalize_url raw =
    if_holds (λ r. ends_in_slash r ≡ false) (is_empty raw) (λ h. refl) (λ h. ends-trim_right _)

colon-normalize_http_addr : (addr : Bytes) → contains (normalize_http_addr addr) (codes ":") ≡ true
unfolding normalize_http_addr
colon-normalize_http_addr addr =
    if_holds (λ r. contains r (codes ":") ≡ true) (is_empty addr)
      (λ h. unfold contains has_prefix in refl)
      (λ h.
        if_holds (λ r. contains r (codes ":") ≡ true) (not (contains addr (codes ":")))
          (λ bare. unfold contains has_prefix in refl) (λ full. ground (arith, full)))

-- What Load promises of its configuration.
record IsUsable (c : Config) : Type 0 where
  pub has_port : contains c.http_addr (codes ":") ≡ true
  pub no_slash : ends_in_slash c.url ≡ false
  pub has_password : c.manager_password ≢ []

-- Load, whatever the file and the environment hold, either fails, or gives a configuration whose address has
-- a colon, as net/http wants it, whose URL does not end in a slash, and whose password is not empty.
load-IsUsable :
    (base64 : Bytes → Option Bytes) (getenv : Bytes → Bytes) (file : YamlFile)
    → ((e : ConfigError) × (load base64 getenv file ≡ err e))
      ⊎ ((c : Config) × (load base64 getenv file ≡ ok c) × IsUsable c)
unfolding load
load-IsUsable base64 getenv file = usable (yaml_config file)
  where
    keyed :
        (yc : YamlConfig) (c : ℕ) (password : Bytes) (k : Result ConfigError Bytes)
        → ((e : ConfigError) × (with_key getenv yc (c ∷ password) k ≡ err e))
          ⊎ ((d : Config) × (with_key getenv yc (c ∷ password) k ≡ ok d) × IsUsable d)
    keyed yc c password (err e) = inl (e, refl)
    keyed yc c password (ok key) = inr (
      _,
      refl,
      record {
        has_port = colon-normalize_http_addr _;
        no_slash = ends-normalize_url _;
        has_password = ground arith;
      },
    )

    guarded :
        (yc : YamlConfig) (password : Bytes)
        → ((e : ConfigError) × (with_password base64 getenv yc password ≡ err e))
          ⊎ ((d : Config) × (with_password base64 getenv yc password ≡ ok d) × IsUsable d)
    guarded yc [] = inl (_, refl)
    guarded yc (c ∷ password) =
        keyed yc c password (encryption_key base64 (getenv (codes "APP_ENCRYPTION_KEY")))

    usable :
        (r : Result ConfigError YamlConfig)
        → ((e : ConfigError) × (with_yaml base64 getenv r ≡ err e))
          ⊎ ((d : Config) × (with_yaml base64 getenv r ≡ ok d) × IsUsable d)
    usable (err e) = inl (e, refl)
    usable (ok yc) = guarded yc (getenv (codes "APP_MANAGER_PASSWORD"))
