-- ===== src/Db/Keys/Apart.antt =====
-- The key of a local user whose name has no slash is no other user's key.
use Prim.Native.String.append
use text.Mathlib.TextLemmas.{append_assoc, append_cancel_left}
use auth_proxy.Prelude.{
  true, false, Bool-cases, inl, inr, ◌||◌, ◌≡◌, refl, String, append, [], ◌∷◌, ap, ◌∙◌,
  if◌then◌else◌, sym, ◌==◌, eq_iff,
}
use auth_proxy.Text.{split, join, has_prefix, strip_prefix}
use auth_proxy.Text.Splitting.{is_free, split-free, split-append, char-append}
use auth_proxy.Text.Paths.{path_join, clean}
use auth_proxy.Types.{authz_key}
use auth_proxy.Db.Keys.{get_path, local_user_key, join_all}

split-slash : (d : String) → split (append "/" d) b'/' ≡ "" ∷ split d b'/'
unfolding split
split-slash d = rw (char-append _ d) refl

abbrev users_dir : String
users_dir = "auth_proxy/local_users"

abbrev user_path : String → String
user_path name = append users_dir (append "/" name)

user_path-eq :
    (name : String)
    → user_path name ≡ append "auth_proxy" (append "/" (append "local_users" (append "/" name)))
user_path-eq name =
    append_assoc (append "auth_proxy" "/") "local_users" (append "/" name)
    ∙ append_assoc "auth_proxy" "/" (append "local_users" (append "/" name))

user_path-split :
    (name : String)
    → is_free b'/' name ≡ true
    → split (user_path name) b'/' ≡ "auth_proxy" ∷ "local_users" ∷ name ∷ []
unfolding is_free
user_path-split name h =
    let last : split (append "/" name) b'/' ≡ "" ∷ name ∷ [] =
      split-slash name ∙ ap (λ l. "" ∷ l) (split-free name b'/' h) in
    let middle : split (append "local_users" (append "/" name)) b'/' ≡ "local_users" ∷ name ∷ [] =
      split-append "local_users" _ (name ∷ []) b'/' refl last in
    let first : split (append "/" (append "local_users" (append "/" name))) b'/'
        ≡ "" ∷ "local_users" ∷ name ∷ [] =
      split-slash _ ∙ ap (λ l. "" ∷ l) middle in
    ap (λ s. split s b'/') (user_path-eq name)
    ∙ split-append "auth_proxy" _ ("local_users" ∷ name ∷ []) b'/' refl first

user_path-relative : (name : String) → has_prefix (user_path name) "/" ≡ false
unfolding has_prefix strip_prefix
user_path-relative name = rw (append.cons "a" "uth_proxy/local_users" (append "/" name)) refl

user_path-ne_empty : (name : String) → (user_path name == "") ≡ false
user_path-ne_empty name = elim (Bool-cases (user_path name == "")) [
  | inr no_text ↦ no_text
  | inl empty ↦ cc (append.cons "a" "uth_proxy/local_users" (append "/" name), (eq_iff _ _).0 empty)
]

-- The key as `path.Join` cleans it.
local_user_key-eq :
    (name : String)
    → is_free b'/' name ≡ true
    → local_user_key name ≡ (
        if name == "" || name == "."
        then users_dir
        else if name == ".."
        then "auth_proxy"
        else user_path name)
unfolding local_user_key get_path join_all path_join clean join
local_user_key-eq name h = elim (Bool-cases (name == "")) [
  | inl empty ↦ rw ((eq_iff name "").0 empty) refl
  | inr named ↦ elim (Bool-cases (name == ".")) [
    | inl dot ↦ rw ((eq_iff name ".").0 dot) refl
    | inr other ↦ elim (Bool-cases (name == "..")) [
      | inl dots ↦ rw ((eq_iff name "..").0 dots) refl
      | inr plain ↦
          rw (named, user_path-relative name, user_path-split name h, named, other, plain)
            (rw (← user_path-eq name, user_path-ne_empty name) refl)
    ]
  ]
]

user_path-inj : (name other : String) → user_path name ≡ user_path other → name ≡ other
user_path-inj name other h =
    append_cancel_left "/" name other
      (append_cancel_left users_dir (append "/" name) (append "/" other) h)

-- Of the names without a slash, only the administrator's has the administrator's key.
pub local_user_key-apart :
    (name : String)
    → is_free b'/' name ≡ true
    → (name == "admin") ≡ false
    → (local_user_key name == local_user_key "admin") ≡ false
unfolding local_user_key get_path
local_user_key-apart name h other =
    rw (local_user_key-eq name h) (elim (Bool-cases (name == "" || name == ".")) [
      | inl short ↦ rw short refl
      | inr longer ↦ elim (Bool-cases (name == "..")) [
        | inl dots ↦ rw (longer, dots) refl
        | inr plain ↦
            rw (longer, plain)
              (elim (Bool-cases (user_path name == user_path "admin")) [
                | inr apart ↦ apart
                | inl same ↦ cc (
                  (eq_iff name "admin").1 (user_path-inj name "admin" ((eq_iff _ _).0 same)),
                  other,
                )
              ])
      ]
    ])

-- No authorization has the administrator's key.
pub authz_key-apart : (uuid : String) → (authz_key uuid == local_user_key "admin") ≡ false
unfolding authz_key local_user_key get_path has_prefix strip_prefix
authz_key-apart uuid = elim (Bool-cases (authz_key uuid == "auth_proxy/local_users/admin")) [
  | inr apart ↦ apart
  | inl same ↦
      let rest : String = append "/" uuid in
      let tails : append "authorizations" rest ≡ "local_users/admin" =
        append_cancel_left "auth_proxy/" _ "local_users/admin"
          (sym (append_assoc "auth_proxy/" "authorizations" rest) ∙ (eq_iff _ _).0 same) in
      let heads : false ≡ true =
        ap (λ s. has_prefix s "l") (sym (append.cons "a" "uthorizations" rest) ∙ tails) in
      cc heads
]
