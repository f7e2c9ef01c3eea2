-- ===== src/Env/Sparing.antt =====
-- What is used of the driver and of the packages to show that no request removes the entry of the
-- built-in administrator from the store: they keep an invariant of the world, and clearing a key
-- keeps it if the key is not the administrator's.
use auth_proxy.Prelude.{ℕ, Bool, false, ◌≡◌, refl, ◌==◌, String, Option, none, some}
use auth_proxy.Exec.{Exec, ◌>>=◌}
use auth_proxy.Exec.Preserves.{Preserves}
use auth_proxy.Driver.{StateDriver, get_state_driver}
use auth_proxy.Env.{Env, Request}
use auth_proxy.Db.Keys.{local_user_key}

unfoldable pub admin_key : String
admin_key = local_user_key "admin"

-- The packages keep the invariant; `jwt.Parse` does if the function does that it is given.
pub record SparingPackages (env : Env) (I : env.World → Type 0) : Type 0 where
  pub now : (w : env.World) → I w → I (env.now w).1
  pub intn : (n : ℕ) (w : env.World) → I w → I (env.intn n w).1
  pub new_uuid : (w : env.World) → I w → I (env.new_uuid w).1
  pub generate_from_password : (p : String) → Preserves I (env.generate_from_password p)
  pub read_file : (name : String) → Preserves I (env.read_file name)
  pub encrypt_oaep : (k : env.PrivateKey) (s : String) → Preserves I (env.encrypt_oaep k s)
  pub decrypt_oaep : (k : env.PrivateKey) (s : String) → Preserves I (env.decrypt_oaep k s)
  pub jwt_parse :
      (token : String) (key : Bool → Exec env.World String)
      → ((b : Bool) → Preserves I (key b))
      → Preserves I (env.jwt_parse token key)
  pub http_get : (address : String) → Preserves I (env.http_get address)
  pub client_do : (req : Request) → Preserves I (env.client_do req)

-- So do the driver's calls.
pub record SparingDriver {W : Type 0} (d : StateDriver W) (I : W → Type 0) : Type 0 where
  pub read : (k : String) → Preserves I (d.read k)
  pub read_all : (k : String) → Preserves I (d.read_all k)
  pub write : (k v : String) → Preserves I (d.write k v)
  pub clear : (k : String) → (k == admin_key) ≡ false → Preserves I (d.clear k)

pub record Sparing (env : Env) (I : env.World → Type 0) : Type 0 where
  pub packages : SparingPackages env I
  pub driver : (d : StateDriver env.World) → env.state_driver ≡ some d → SparingDriver d I

-- What follows the look for the driver.
pub with_driver :
    {W B : Type 0} {I : W → Type 0} (d : Option (StateDriver W)) {f : StateDriver W → Exec W B}
    → ((drv : StateDriver W) → d ≡ some drv → Preserves I (f drv))
    → Preserves I (get_state_driver d >>= f)
unfolding get_state_driver
with_driver none kf = record { at = λ w h. h }
with_driver (some drv) kf = record { at = λ w h. (kf drv refl).at w h }
