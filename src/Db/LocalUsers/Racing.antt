-- ===== src/Db/LocalUsers/Racing.antt =====
-- Two calls of `AddLocalUser` for one name whose steps interleave: between the look for the key and the
-- write of the entry nothing is locked.
use auth_proxy.Prelude.{◌∙◌, ap, ◌≡◌, refl, sym, String, Option, none, some}
use auth_proxy.Errors.{sentinel, key_not_found, is_key_not_found, Result, ok, err}
use auth_proxy.Types.{LocalUser}
use auth_proxy.Driver.{StateDriver}
use auth_proxy.Driver.Laws.{IsStore}
use auth_proxy.Env.{Env}
use auth_proxy.Crypto.{gen_password_hash}
use auth_proxy.Db.Keys.{local_user_key}
use auth_proxy.Db.LocalUsers.{add_missing, add_local_user, store_user, user_marshaled, written}
use auth_proxy.Db.LocalUsers.Adding.{add_local_user-eq, Added, add_missing-Added}

-- Where a call of `AddLocalUser` stands: before the key is read, after it, and at its end.
pub data Phase : Type 0 where
  begun : LocalUser → Phase
  looked : LocalUser → Result String → Phase
  ended : Result LocalUser → Phase

module _ (env : Env) (drv : StateDriver env.World) where
  open env use {World}

  -- One step of a call: the read of the key, or all that follows.
  unfoldable pub advance : Phase → World → Phase × World
  unfolding add_missing
  advance (begun user) w =
      let (r, w') = drv.read (local_user_key user.username) w in (looked user r, w')
  advance (looked user r) w = let (x, w') = add_missing env drv user r w in (ended x, w')
  advance (ended x) w = (ended x, w)

  -- Two calls that share the store.
  pub record Race : Type 0 where
    pub world : World
    pub first : Phase
    pub second : Phase

  pub data Step : Race → Race → Type 0 where
    by_first :
        (s : Race)
        → Step s
            (record s { world = (advance s.first s.world).1; first = (advance s.first s.world).0 })
    by_second :
        (s : Race)
        → Step s (record s {
          world = (advance s.second s.world).1;
          second = (advance s.second s.world).0;
        })

  pub data Reach (s : Race) : Race → Type 0 where
    here : Reach s s
    next : {t u : Race} → Reach s t → Step t u → Reach s u

  -- Both steps of a call that is not disturbed are `AddLocalUser`.
  pub advance-add_local_user :
      env.state_driver ≡ some drv
      → (view : World → String → Option String) → IsStore drv view
      → (user : LocalUser) (w : World)
      → advance (advance (begun user) w).0 (advance (begun user) w).1
        ≡ (ended (add_local_user env user w).0, (add_local_user env user w).1)
  unfolding advance
  advance-add_local_user installed view store user w =
      rw (add_local_user-eq env drv installed view store user w) refl

-- A store that answers: a missing key is reported as such, and writes succeed.
pub record Answering {W : Type 0} (drv : StateDriver W) (view : W → String → Option String)
    : Type 0 where
  pub reports :
      (k : String) (w : W) → view w k ≡ none → (drv.read k w).0 ≡ err (sentinel key_not_found)
  pub writes : (k v : String) (w : W) → (drv.write k v w).0 ≡ ok tt

-- Hashes can be made and users printed.
pub record Printing (env : Env) : Type 0 where
  pub hashes :
      (p : String) (w : env.World) → (h : String) × ((env.generate_from_password p w).0 ≡ ok h)
  pub prints : (user : LocalUser) → (v : String) × (env.local_user_json.marshal user ≡ ok v)

module _ (env : Env) (drv : StateDriver env.World) (installed : env.state_driver ≡ some drv)
    (view : env.World → String → Option String) (store : IsStore drv view)
    (answering : Answering drv view) (printing : Printing env) where
  open env use {World}

  added_when_missing :
      (user : LocalUser) (w : World)
      → (u : LocalUser) × ((add_missing env drv user (err (sentinel key_not_found)) w).0 ≡ ok u)
  unfolding add_missing store_user user_marshaled written gen_password_hash is_key_not_found
  added_when_missing user w =
      let (h, hashed) = printing.hashes user.password w in
      let stored = record user { password = ""; password_hash = h } in
      let (v, printed) = printing.prints stored in
      let done =
        answering.writes (local_user_key user.username) v
          (env.generate_from_password user.password w).1 in
      (record stored { password_hash = "" }, rw (hashed, printed, done) refl)

  -- A schedule of two calls after which both have succeeded, and the entry is the second one's.
  pub record Overwritten (user rival : LocalUser) (w : World) : Type 0 where
    pub last : Race env drv
    pub reached :
        Reach env drv (record { world = w; first = begun user; second = begun rival }) last
    pub first_done : (a : LocalUser) × (last.first ≡ ended (ok a))
    pub second_done : (b : LocalUser) × (last.second ≡ ended (ok b))
    pub before : World
    pub added : Added env drv installed view store rival before last.world

  -- Over a store that keeps its laws and answers, two calls of `AddLocalUser` for one name that is not
  -- taken, whatever else they are given, can both succeed: each has looked before the other writes. The
  -- entry is the second one's, and the first user is lost.
  pub add_local_user-Overwritten :
      (user rival : LocalUser) (w : World)
      → user.username ≡ rival.username
      → view w (local_user_key user.username) ≡ none
      → Overwritten user rival w
  unfolding advance
  add_local_user-Overwritten user rival w same absent =
      let w₁ : World = (drv.read (local_user_key user.username) w).1 in
      let w₂ : World = (drv.read (local_user_key rival.username) w₁).1 in
      let seen : (drv.read (local_user_key user.username) w).0 ≡ err (sentinel key_not_found) =
        answering.reports (local_user_key user.username) w absent in
      let still : view w₁ (local_user_key rival.username) ≡ none =
        store.read_keeps (local_user_key user.username) w (local_user_key rival.username)
        ∙ ap (λ n. view w (local_user_key n)) (sym same)
        ∙ absent in
      let seen_too : (drv.read (local_user_key rival.username) w₁).0
          ≡ err (sentinel key_not_found) =
        answering.reports (local_user_key rival.username) w₁ still in
      let (a, wrote) = added_when_missing user w₂ in
      let w₃ : World = (add_missing env drv user (err (sentinel key_not_found)) w₂).1 in
      let (b, wrote_too) = added_when_missing rival w₃ in
      record {
        last = _;
        reached =
            next (next (next (next here (by_first _)) (by_second _)) (by_first _)) (by_second _);
        first_done = (a, rw (seen, wrote) refl);
        second_done = (b, rw (seen, seen_too, wrote_too) refl);
        before = w₃;
        added =
            rw (seen, seen_too)
              (add_missing-Added env drv installed view store rival b (err (sentinel key_not_found))
                w₃ wrote_too);
      }
