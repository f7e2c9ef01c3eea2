-- ===== src/Start/Checked.antt =====
-- The versions of netmaster that main.go accepts.
use auth_proxy.Prelude.{
  ℕ, ◌≤◌, Bool, true, false, not, ◌==◌, ◌≡◌, ◌⊎◌, refl, sym, inl, inr, String, append, arith,
  if◌then◌else◌,
}
use auth_proxy.Errors.{errorf, error_text, Result, ok}
use auth_proxy.Exec.{pure}
use auth_proxy.Exec.Yields.{
  Yields, otherwise-ok, Yields-known, Yields-if, Yields-pure, Yields-throw,
}
use auth_proxy.Env.{Env}
use auth_proxy.Proxy.Status.{get_netmaster_version}
use auth_proxy.Start.{
  default_version, is_compatible, version_of, compare_versions, netmaster_startup_check,
}

negated : (b : Bool) → not b ≡ true → b ≡ false
negated true h = cc
negated false h = refl

module _ (get_env : String → String) (semver_make : String → Result (ℕ × ℕ))
    (program_version : String) where
  -- Both versions can be read, their major numbers are equal, and netmaster's minor number is not less.
  pub record Compatible (netmaster_version : String) : Type 0 where
    pub major : ℕ
    pub proxy_minor : ℕ
    pub netmaster_minor : ℕ
    pub proxy_is : semver_make program_version ≡ ok (major, proxy_minor)
    pub netmaster_is : semver_make netmaster_version ≡ ok (major, netmaster_minor)
    pub order : proxy_minor ≤ netmaster_minor

  version_of-ok :
      {W : Type 0} (text version : String) (w : W) (v : ℕ × ℕ)
      → (version_of get_env semver_make program_version text version w).0 ≡ ok v
      → semver_make version ≡ ok v
  unfolding version_of
  version_of-ok text version w v h =
      otherwise-ok (semver_make version) (λ e. errorf (append text (error_text e))) w v h

  compatible :
      (netmaster_version : String) (n p : ℕ × ℕ)
      → semver_make program_version ≡ ok p
      → semver_make netmaster_version ≡ ok n
      → is_compatible n p ≡ true
      → Compatible netmaster_version
  unfolding is_compatible
  compatible netmaster_version (n_major, n_minor) (p_major, p_minor) p_is n_is h =
      let same : n_major ≡ p_major = ground arith in
      record {
        major = p_major;
        proxy_minor = p_minor;
        netmaster_minor = n_minor;
        proxy_is = p_is;
        netmaster_is = rw (sym same) n_is;
        order = ground arith;
      }

  compare_versions-Compatible :
      {W : Type 0} (netmaster_version : String)
      → Yields {W = W}
          (λ _. Compatible netmaster_version)
          (compare_versions get_env semver_make program_version netmaster_version)
  unfolding compare_versions
  compare_versions-Compatible netmaster_version =
      Yields-known (version_of get_env semver_make program_version _ program_version) _ (λ w p hp.
        Yields-known (version_of get_env semver_make program_version _ netmaster_version) _
          (λ w' n hn.
            Yields-if (is_compatible n p) _ _
              (λ fits. record {
                at = λ w a h.
                    compatible netmaster_version n p (version_of-ok _ program_version _ p hp)
                      (version_of-ok _ netmaster_version _ n hn) fits;
              })
              (λ _. Yields-throw _)))

  -- What is known of netmaster once the check succeeded.
  pub data Checked (env : Env) (netmaster_address : String) : Type 0 where
    skipped : (get_env "NO_NETMASTER_STARTUP_CHECK" == "") ≡ false → Checked env netmaster_address
    reached :
        (w : env.World) (version : String)
        → (get_netmaster_version env netmaster_address w).0 ≡ ok version
        → ((default_version == program_version) ≡ true)
          ⊎ ((get_env "NO_NETMASTER_SEMVER_CHECK" == "") ≡ false)
          ⊎ Compatible version
        → Checked env netmaster_address

  module _ (env : Env) (netmaster_address : String) where
    compared :
        (w : env.World) (version : String)
        → (get_netmaster_version env netmaster_address w).0 ≡ ok version
        → Yields {W = env.World}
            (λ _. Checked env netmaster_address)
            (if default_version == program_version
              then pure tt
              else if not (get_env "NO_NETMASTER_SEMVER_CHECK" == "")
              then pure tt
              else compare_versions get_env semver_make program_version version)
    compared w version h =
        Yields-if (default_version == program_version) _ _
          (λ dev. Yields-pure tt (reached w version h (inl dev)))
          (λ _.
            Yields-if (not (get_env "NO_NETMASTER_SEMVER_CHECK" == "")) _ _
              (λ asked. Yields-pure tt (reached w version h (inr (inl (negated _ asked)))))
              (λ _. record {
                at = λ w' a h'.
                    reached w version h
                      (inr (inr ((compare_versions-Compatible version).at w' a h')));
              }))

    -- If the check at the start succeeds, then it was skipped by an environment variable, or netmaster
    -- told its version, and the program is a development build, or an environment variable skips the
    -- comparison, or both versions can be read, their major numbers are equal, and netmaster's minor
    -- number is not less than the proxy's.
    pub netmaster_startup_check-Checked :
        (w : env.World)
        → (netmaster_startup_check get_env semver_make program_version env netmaster_address w).0
          ≡ ok tt
        → Checked env netmaster_address
    unfolding netmaster_startup_check
    netmaster_startup_check-Checked w h = checked.at w tt h
      where
        checked :
            Yields
              (λ _. Checked env netmaster_address)
              (netmaster_startup_check get_env semver_make program_version env netmaster_address)
        checked =
            Yields-if (not (get_env "NO_NETMASTER_STARTUP_CHECK" == "")) _ _
              (λ asked. Yields-pure tt (skipped (negated _ asked)))
              (λ _.
                Yields-known (get_netmaster_version env netmaster_address) _
                  (λ w version h. compared w version h))
