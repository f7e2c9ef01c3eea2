-- ===== src/State/Etcd/Retries.antt =====
-- How often the driver for etcd calls it again: at most ten times, and until a call answers.
use auth_proxy.Prelude.{
  ℕ, zero, suc, ◌+◌, ◌≤◌, Bool, true, false, ◌≡◌, refl, String, Bool-cases, inl, inr, arith,
}
use auth_proxy.Errors.{Error, Result, ok, err}
use auth_proxy.Exec.{otherwise, ◌>>◌}
use auth_proxy.Text.{has_prefix}
use auth_proxy.State.Etcd.{
  Node, KeysApi, is_unavailable, pause, pause_if_unavailable, get_after, retried_get, read,
  read_all, write_again, written, write, mkdir_after, mkdir, max_etcd_retries,
}

-- A count of the calls that etcd was sent.
pub record IsCount {W : Type 0} (api : KeysApi W) (calls : W → ℕ) : Type 0 where
  pub get_once : (all : Bool) (k : String) (w : W) → calls (api.get all k w).1 ≤ calls w + 1
  pub set_once : (k v : String) (w : W) → calls (api.set k v w).1 ≤ calls w + 1
  pub set_dir_once : (k : String) (w : W) → calls (api.set_dir k w).1 ≤ calls w + 1
  pub sleep_none : (w : W) → calls (api.sleep w) ≤ calls w

module _ {W : Type 0} (api : KeysApi W) (calls : W → ℕ) (count : IsCount api calls) where
  pause_if-calls : (e : Error) (w : W) → calls (pause_if_unavailable api e w).1 ≤ calls w
  pause_if-calls e w = elim (Bool-cases (is_unavailable api e)) [
    | inl is ↦ rw is (count.sleep_none w)
    | inr other ↦ rw other (omega arith)
  ]

  get_after-calls :
      {A : Type 0} (all : Bool) (answer : Node → A) (k : String) (n : ℕ) (r : Result Node) (w : W)
      → calls (get_after api all answer k n r w).1 ≤ calls w + n
  unfolding get_after
  get_after-calls all answer k n (ok node) w = omega arith
  get_after-calls all answer k zero (err e) w = elim (Bool-cases (api.is_missing e)) [
    | inl is ↦ rw is (omega arith)
    | inr other ↦ rw other (let paused = pause_if-calls e w in omega arith)
  ]
  get_after-calls all answer k (suc n) (err e) w = elim (Bool-cases (api.is_missing e)) [
    | inl is ↦ rw is (omega arith)
    | inr other ↦ rw other (
        let w' = (pause_if_unavailable api e w).1 in
        let paused = pause_if-calls e w in
        let once = count.get_once all k w' in
        let rest = get_after-calls all answer k n (api.get all k w').0 (api.get all k w').1 in
        omega arith)
  ]

  write_again-calls :
      (k v : String) (n : ℕ) (e : Error) (w : W) → calls (write_again api k v n e w).1 ≤ calls w + n
  unfolding write_again otherwise
  write_again-calls k v zero e w = omega arith
  write_again-calls k v (suc n) e w =
      let once = count.set_once k v w in
      tried (api.set k v w).0 (api.set k v w).1 once (write_again-calls k v n)
    where
      tried :
          (r : Result (Unit {0})) (w' : W)
          → calls w' ≤ calls w + 1
          → ((e' : Error) (w : W) → calls (write_again api k v n e' w).1 ≤ calls w + n)
          → calls (otherwise r (λ e'. pause api >> write_again api k v n e') w').1 ≤ calls w + suc n
      tried (ok _) w' once rest = omega arith
      tried (err e') w' once rest =
          let slept = count.sleep_none w' in let later = rest e' (api.sleep w') in omega arith

  mkdir_after-calls :
      (k : String) (n : ℕ) (r : Result (Unit {0})) (w : W)
      → calls (mkdir_after api k n r w).1 ≤ calls w + n
  unfolding mkdir_after
  mkdir_after-calls k n (ok _) w = omega arith
  mkdir_after-calls k zero (err e) w = omega arith
  mkdir_after-calls k (suc n) (err e) w = elim (Bool-cases (is_unavailable api e)) [
    | inl is ↦ rw is (
        let w' = api.sleep w in
        let slept = count.sleep_none w in
        let once = count.set_dir_once k w' in
        let rest = mkdir_after-calls k n (api.set_dir k w').0 (api.set_dir k w').1 in omega arith)
    | inr other ↦ rw other (omega arith)
  ]

  write-calls : (k v : String) (w : W) → calls (write api k v w).1 ≤ calls w + 11
  unfolding write written
  write-calls k v w = go (api.set k v w).0 (api.set k v w).1 (count.set_once k v w)
    where
      go :
          (r : Result (Unit {0})) (w' : W)
          → calls w' ≤ calls w + 1
          → calls (written api k v r w').1 ≤ calls w + 11
      go (ok _) w' once = omega arith
      go (err e) w' once = elim (Bool-cases (is_unavailable api e)) [
        | inl is ↦ rw is (let rest = write_again-calls k v max_etcd_retries e w' in omega arith)
        | inr other ↦ rw other (omega arith)
      ]

  mkdir-calls : (k : String) (w : W) → calls (mkdir api k w).1 ≤ calls w + 11
  unfolding mkdir
  mkdir-calls k w = elim (Bool-cases (has_prefix k "/")) [
    | inl is ↦ rw is (
        let once = count.set_dir_once k w in
        let rest = mkdir_after-calls k max_etcd_retries (api.set_dir k w).0 (api.set_dir k w).1 in
        omega arith)
    | inr other ↦ rw other (omega arith)
  ]

  read-calls :
      {A : Type 0} (all : Bool) (answer : Node → A) (k : String) (w : W)
      → calls (retried_get api all answer k w).1 ≤ calls w + 11
  unfolding retried_get
  read-calls all answer k w =
      let once = count.get_once all k w in
      let rest =
        get_after-calls all answer k max_etcd_retries (api.get all k w).0 (api.get all k w).1 in
      omega arith

  -- By any count to which a call of etcd adds one at most, `Read`, `ReadAll`, `Write` and `Mkdir`
  -- call it at most eleven times each, whatever it answers.
  pub etcd-calls_bounded :
      (k v : String) (w : W)
      → (calls (read api k w).1 ≤ calls w + 11)
        × (calls (read_all api k w).1 ≤ calls w + 11)
        × (calls (write api k v w).1 ≤ calls w + 11)
        × (calls (mkdir api k w).1 ≤ calls w + 11)
  unfolding read read_all
  etcd-calls_bounded k v w = (
    read-calls false (λ node. node.value) k w,
    read-calls true (λ node. node.nodes) k w,
    write-calls k v w,
    mkdir-calls k w,
  )

module _ {W : Type 0} (api : KeysApi W) (key : String) where
  -- From a state of the world, `n` calls of `Get` fail, none of them because the key is missing, and
  -- the next one answers with a node.
  pub data Answers : ℕ → W → Node → W → Type 0 where
    at_once :
        (w w' : W) (node : Node) → api.get false key w ≡ (ok node, w') → Answers zero w node w'
    after_failure :
        (n : ℕ) (e : Error) (w w1 w' : W) (node : Node)
        → api.get false key w ≡ (err e, w1)
        → api.is_missing e ≡ false
        → Answers n (pause_if_unavailable api e w1).1 node w'
        → Answers (suc n) w node w'

  Answers-after :
      (n m : ℕ) (w w' : W) (node : Node)
      → Answers n w node w'
      → n ≤ m
      → (let (r, v) = api.get false key w in get_after api false (λ node. node.value) key m r v)
        ≡ (ok node.value, w')
  unfolding get_after
  Answers-after zero m w w' node (at_once _ _ _ got) le = rw got refl
  Answers-after (suc n) zero w w' node (after_failure _ e _ w1 _ _ got present rest) le =
      absurd (omega arith)
  Answers-after (suc n) (suc m) w w' node (after_failure _ e _ w1 _ _ got present rest) le =
      rw (got, present)
        (Answers-after n m (pause_if_unavailable api e w1).1 w' node rest (omega arith))

  -- If etcd answers after at most ten failed calls, none of which found the key missing, then
  -- `Read` returns the value of that answer.
  pub read-Answers :
      (n : ℕ) (w w' : W) (node : Node)
      → Answers n w node w'
      → n ≤ 10
      → read api key w ≡ (ok node.value, w')
  unfolding read retried_get
  read-Answers n w w' node answers le = Answers-after n max_etcd_retries w w' node answers le
