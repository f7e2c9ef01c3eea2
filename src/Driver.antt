-- ===== src/Driver.antt =====
-- common/types/state.go: the interface between the program and its key-value store, and the calls
-- of it that marshal (state/etcdstatedriver.go; those of consul trim the key first, see State.Consul).
--
-- A value is a text: the conversions `[]byte(s)` and `string(b)` copy it.
pub mod Laws
use auth_proxy.Prelude.{◌≡◌, inl, inr, refl, String, List, [], ◌∷◌, Option, none, some}
use auth_proxy.Errors.{Error, sentinel, state_driver_not_created, Result, ok, err, Result-cases}
use auth_proxy.Exec.{Exec, pure, throw, lift, ◌>>=◌, ◌>>◌}

-- `StateDriver`, over the state `W` of the world. `Init`, `Deinit` and `Mkdir` are called at the
-- start only, the `Watch` calls by no part of the program.
pub record StateDriver (W : Type 0) : Type 0 where
  pub read : String → Exec W String
  pub read_all : String → Exec W (List String)
  pub write : String → String → Exec W (Unit {0})
  pub clear : String → Exec W (Unit {0})

-- `json.Marshal` and `json.Unmarshal` at one type.
pub record Codec (A : Type 0) : Type 0 where
  pub marshal : A → Result String
  pub unmarshal : String → Result A

module _ {W A : Type 0} (drv : StateDriver W) (c : Codec A) where
  -- `WriteState`
  unfoldable pub write_state : String → A → Exec W (Unit {0})
  write_state key value = do encoded ← lift (c.marshal value); drv.write key encoded

  -- `ReadState`
  unfoldable pub read_state : String → Exec W A
  read_state key = do encoded ← drv.read key; lift (c.unmarshal encoded)

module _ {A : Type 0} (c : Codec A) where
  cons_ok : A → Result (List A) → Result (List A)
  cons_ok a (ok rest) = ok (a ∷ rest)
  cons_ok a (err e) = err e

  -- The loops of `readAllStateCommon`. Every type of values embeds `CommonState`.
  unfoldable pub unmarshal_all : List String → Result (List A)
  unfolding cons_ok
  unmarshal_all [] = ok []
  unmarshal_all (v ∷ vs) =
      let rest = unmarshal_all vs in elim (c.unmarshal v) [ ok a ↦ cons_ok a rest | err e ↦ err e ]

  -- An error of `readAllStateCommon` is one of parsing a value.
  pub unmarshal_all-err :
      (values : List String) (e : Error)
      → unmarshal_all values ≡ err e
      → (v : String) × (c.unmarshal v ≡ err e)
  unfolding unmarshal_all cons_ok
  unmarshal_all-err [] e h = cc
  unmarshal_all-err (v ∷ vs) e h = first (c.unmarshal v) refl (λ b. unmarshal_all-err vs e b) h
    where
      others :
          (a : A) (r : Result (List A))
          → unmarshal_all vs ≡ r
          → (unmarshal_all vs ≡ err e → (u : String) × (c.unmarshal u ≡ err e))
          → cons_ok a r ≡ err e
          → (u : String) × (c.unmarshal u ≡ err e)
      others a (ok rest) parsed later k = cc
      others a (err e') bad later k = let same : e' ≡ e = cc k in later (rw same at bad)

      first :
          (r : Result A)
          → c.unmarshal v ≡ r
          → (unmarshal_all vs ≡ err e → (u : String) × (c.unmarshal u ≡ err e))
          → elim r [ ok a ↦ cons_ok a (unmarshal_all vs) | err e' ↦ err e' ] ≡ err e
          → (u : String) × (c.unmarshal u ≡ err e)
      first (ok a) good later k = others a (unmarshal_all vs) refl later k
      first (err e') bad later k = let same : e' ≡ e = cc k in (v, rw same at bad)

-- `ReadAllState`
unfoldable pub read_all_state :
    {W A : Type 0} (drv : StateDriver W) (c : Codec A) → String → Exec W (List A)
read_all_state drv c key = do values ← drv.read_all key; lift (unmarshal_all c values)

-- `GetStateDriver` of state/driverfactory.go; the variable `stateDriver` is set once, at the start.
unfoldable pub get_state_driver : {W : Type 0} → Option (StateDriver W) → Exec W (StateDriver W)
get_state_driver none = throw (sentinel state_driver_not_created)
get_state_driver (some drv) = pure drv

pub get_state_driver-some :
    {W : Type 0} (d : Option (StateDriver W)) (drv : StateDriver W) (w : W)
    → d ≡ some drv
    → get_state_driver d w ≡ (ok drv, w)
unfolding get_state_driver
get_state_driver-some none drv w h = cc
get_state_driver-some (some d) drv w h = cc
