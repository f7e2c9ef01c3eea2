-- ===== src/Driver/Laws.antt =====
-- What the program relies on in a key-value store: the behaviour of a `StateDriver` that etcd and
-- consul document. Any call may fail; a call that succeeds does what it says, and no call touches
-- another key.
use auth_proxy.Prelude.{false, ◌≡◌, String, append, Option, none, some, ◌==◌}
use auth_proxy.Text.{has_prefix}
use auth_proxy.Errors.{sentinel, key_not_found, ok, err}
use auth_proxy.Driver.{StateDriver}

-- `view` is the content of the store in a state of the world.
pub record IsStore {W : Type 0} (drv : StateDriver W) (view : W → String → Option String)
    : Type 0 where
  pub read_ok : (k v : String) (w : W) → (drv.read k w).0 ≡ ok v → view w k ≡ some v
  pub read_missing :
      (k : String) (w : W) → (drv.read k w).0 ≡ err (sentinel key_not_found) → view w k ≡ none
  pub read_keeps : (k : String) (w : W) (j : String) → view (drv.read k w).1 j ≡ view w j
  pub read_all_keeps : (k : String) (w : W) (j : String) → view (drv.read_all k w).1 j ≡ view w j
  pub write_ok :
      (k v : String) (w : W) → (drv.write k v w).0 ≡ ok tt → view (drv.write k v w).1 k ≡ some v
  pub write_keeps :
      (k v : String) (w : W) (j : String) → (k == j) ≡ false → view (drv.write k v w).1 j ≡ view w j
  pub clear_ok : (k : String) (w : W) → (drv.clear k w).0 ≡ ok tt → view (drv.clear k w).1 k ≡ none
  pub clear_keeps :
      (k : String) (w : W) (j : String) → (k == j) ≡ false → view (drv.clear k w).1 j ≡ view w j

-- The laws of a store whose keys name places in a tree of directories, `path` being the place that a
-- key names: several keys may name one place, and to write a value makes the directories above it.
-- `view` is the content by place, where a directory counts as a value too.
pub record IsPathStore {W : Type 0} (drv : StateDriver W) (path : String → String)
    (view : W → String → Option String) : Type 0 where
  pub read_ok : (k v : String) (w : W) → (drv.read k w).0 ≡ ok v → view w (path k) ≡ some v
  pub read_missing :
      (k : String) (w : W)
      → (drv.read k w).0 ≡ err (sentinel key_not_found)
      → view w (path k) ≡ none
  pub read_keeps : (k : String) (w : W) (j : String) → view (drv.read k w).1 j ≡ view w j
  pub read_all_keeps : (k : String) (w : W) (j : String) → view (drv.read_all k w).1 j ≡ view w j
  pub write_ok :
      (k v : String) (w : W)
      → (drv.write k v w).0 ≡ ok tt
      → view (drv.write k v w).1 (path k) ≡ some v
  pub write_keeps :
      (k v : String) (w : W) (j : String)
      → (path k == j) ≡ false
      → has_prefix (path k) (append j "/") ≡ false
      → view (drv.write k v w).1 j ≡ view w j
  pub clear_ok :
      (k : String) (w : W) → (drv.clear k w).0 ≡ ok tt → view (drv.clear k w).1 (path k) ≡ none
  pub clear_keeps :
      (k : String) (w : W) (j : String)
      → (path k == j) ≡ false
      → view (drv.clear k w).1 j ≡ view w j
