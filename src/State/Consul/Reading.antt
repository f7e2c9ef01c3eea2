-- ===== src/State/Consul/Reading.antt =====
-- What `Read` of state/consulstatedriver.go says of the value that consul holds.
use auth_proxy.Prelude.{
  ℕ, zero, suc, true, false, ◌≡◌, ◌⊎◌, refl, sym, subst, ◌∙◌, String, Option, none, some,
  Bool-cases, inl, inr, if◌then◌else◌,
}
use auth_proxy.Errors.{sentinel, key_not_found, is_key_not_found, Result, ok, err}
use auth_proxy.Exec.{throw, otherwise, ◌>>◌}
use auth_proxy.State.Consul.{
  KvPair, KvApi, max_consul_retries, process_key, bytes, answered, is_transient, pause, read_again,
  read_pair, read,
}
use auth_proxy.State.Consul.Client.{shown, IsClient, Fails, no_more, once_more, Unreached}

-- What the loops of `Read` return: the pair of the value that is held, or no pair because of `F`.
Finds : Type 0 → Option String → Result (Option KvPair) → Type 0
Finds F held (ok kv) = (held ≡ shown kv) ⊎ ((kv ≡ none) × F)
Finds F held (err e) = is_key_not_found e ≡ false

Finds-because :
    (F F' : Type 0) (held held' : Option String) (r : Result (Option KvPair))
    → held' ≡ held
    → (F → F')
    → Finds F held r
    → Finds F' held' r
unfolding Finds
Finds-because F F' held held' (ok kv) same f (inl is) = inl (same ∙ is)
Finds-because F F' held held' (ok kv) same f (inr (is, fails)) = inr (is, f fails)
Finds-because F F' held held' (err e) same f x = x

Finds-answered :
    {W : Type 0} (F : Type 0) (held : Option String) (kv : Option KvPair) (v : String) (w : W)
    → Finds F held (ok kv)
    → (answered kv w).0 ≡ ok v
    → held ≡ some v
unfolding Finds answered shown
Finds-answered F held none v w x h = cc
Finds-answered F held (some p) v w (inl is) h = let same : bytes p.value ≡ v = cc h in rw same at is
Finds-answered F held (some p) v w (inr (is, fails)) h = cc

Finds-missing :
    {W : Type 0} (F : Type 0) (held : Option String) (kv : Option KvPair) (w : W)
    → Finds F held (ok kv)
    → (answered kv w).0 ≡ err (sentinel key_not_found)
    → (held ≡ none) ⊎ F
unfolding Finds answered shown
Finds-missing F held none w (inl is) h = inl is
Finds-missing F held none w (inr (is, fails)) h = inr fails
Finds-missing F held (some p) w x h = cc

module _ {W : Type 0} (api : KvApi W) (view : W → String → Option String)
    (client : IsClient api view) where
  slept : (k : String) (w : W) → view w k ≡ view (api.sleep (api.get k w).1) k
  slept k w = sym (client.sleep_keeps (api.get k w).1 k ∙ client.get_keeps k w k)

  read_again-Finds :
      (k : String) (n : ℕ) (w : W) → Finds (Fails api k n w) (view w k) (read_again api k n w).0
  unfolding Finds read_again otherwise
  read_again-Finds k zero w = inr (refl, no_more w)
  read_again-Finds k (suc n) w = go (api.get k w).0 refl (read_again-Finds k n)
    where
      go :
          (r : Result (Option KvPair))
          → (api.get k w).0 ≡ r
          → ((w : W) → Finds (Fails api k n w) (view w k) (read_again api k n w).0)
          → Finds
              (Fails api k (suc n) w)
              (view w k)
              (otherwise r (λ e. pause api >> read_again api k n) (api.get k w).1).0
      go (ok kv) is rest = inl (client.get_ok k kv w is)
      go (err e) is rest =
          Finds-because (Fails api k n (api.sleep (api.get k w).1)) (Fails api k (suc n) w) _
            (view w k) (read_again api k n (api.sleep (api.get k w).1)).0 (slept k w)
            (once_more n e w is) (rest (api.sleep (api.get k w).1))

  read_pair-Finds :
      (k : String) (w : W) → Finds (Unreached api k w) (view w k) (read_pair api k w).0
  unfolding Finds read_pair otherwise
  read_pair-Finds k w = go (api.get k w).0 refl
    where
      go :
          (r : Result (Option KvPair))
          → (api.get k w).0 ≡ r
          → Finds
              (Unreached api k w)
              (view w k)
              (otherwise r
                (λ e. if is_transient api e then read_again api k max_consul_retries else throw e)
                (api.get k w).1).0
      go (ok kv) is = inl (client.get_ok k kv w is)
      go (err e) is = elim (Bool-cases (is_transient api e)) [
        | inl again ↦ rw again (
            Finds-because (Fails api k max_consul_retries (api.get k w).1) (Unreached api k w) _
              (view w k) (read_again api k max_consul_retries (api.get k w).1).0
              (sym (client.get_keeps k w k))
              (λ f. record { error = e; fails = is; transient = again; again = f })
              (read_again-Finds k max_consul_retries (api.get k w).1))
        | inr other ↦ rw other (client.get_error k e w is)
      ]

  pub read-finds :
      (k : String) (w : W) (r : Result (Option KvPair))
      → (read_pair api (process_key k) w).0 ≡ r
      → ((v : String) → (read api k w).0 ≡ ok v → view w (process_key k) ≡ some v)
        × ((read api k w).0 ≡ err (sentinel key_not_found)
            → (view w (process_key k) ≡ none) ⊎ Unreached api (process_key k) w)
  unfolding read Finds is_key_not_found
  read-finds k w (ok kv) is =
      let found =
        subst (Finds (Unreached api (process_key k) w) (view w (process_key k))) is
          (read_pair-Finds (process_key k) w) in
      let w' = (read_pair api (process_key k) w).1 in
      (
        λ v h.
            Finds-answered (Unreached api (process_key k) w) (view w (process_key k)) kv v w' found
              (rw is at h),
        λ h.
            Finds-missing (Unreached api (process_key k) w) (view w (process_key k)) kv w' found
              (rw is at h),
      )
  read-finds k w (err e) is =
      let found : is_key_not_found e ≡ false =
        subst (Finds (Unreached api (process_key k) w) (view w (process_key k))) is
          (read_pair-Finds (process_key k) w) in
      (λ v h. cc (rw is at h), λ h. let failed = (rw is at h) in missing found (cc failed))
    where
      missing :
          is_key_not_found e ≡ false
          → e ≡ sentinel key_not_found
          → (view w (process_key k) ≡ none) ⊎ Unreached api (process_key k) w
      missing found same = cc (found, subst (λ x. is_key_not_found x ≡ true) (sym same) refl)
