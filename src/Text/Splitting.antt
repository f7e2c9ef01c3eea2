-- ===== src/Text/Splitting.antt =====
-- Splitting what was joined gives the parts back.
use Prim.Native.Char.{Char}
use Prim.Native.String.{[], ◌∷◌}
use Prim.Native.String.append
use mathlib.Core.List.{[] as nil, ◌∷◌ as cons}
use auth_proxy.Prelude.{
  ℕ, Bool, true, not, ◌&&◌, Bool-cases, inl, inr, ◌≡◌, refl, String, code, append, List, nat_eq,
  All, ap, ◌∙◌,
}
use auth_proxy.Text.{join, split}

-- No character of the text is the separator.
unfoldable pub is_free : ℕ → String → Bool
is_free sep [] = true
is_free sep (c ∷ s) = not (nat_eq (code c) sep) && is_free sep s

pub char-append : (c : Char) (s : String) → append (c ∷ "") s ≡ c ∷ s
char-append c s = append.cons c [] s ∙ ap (λ t. c ∷ t) (append.nil s)

pub split-free : (s : String) (sep : ℕ) → is_free sep s ≡ true → split s sep ≡ cons s nil
unfolding is_free split
split-free [] sep h = refl
split-free (c ∷ s) sep h = elim (Bool-cases (nat_eq (code c) sep)) [
  | inl is ↦ cc (rw is at h)
  | inr other ↦ rw (other, split-free s sep (rw other at h), char-append c s) refl
]

-- A text without the separator stays whole in front of the first separator.
pub split-append :
    (s d : String) (rest : List String) (sep : ℕ)
    → is_free sep s ≡ true
    → split d sep ≡ cons "" rest
    → split (append s d) sep ≡ cons s rest
unfolding is_free split
split-append [] d rest sep h first = rw (append.nil d) first
split-append (c ∷ s) d rest sep h first = elim (Bool-cases (nat_eq (code c) sep)) [
  | inl is ↦ cc (rw is at h)
  | inr other ↦
      rw
        (append.cons c s d, other, split-append s d rest sep (rw other at h) first, char-append c s)
        refl
]

split-separator : (d : String) → split (append ";" d) b';' ≡ cons "" (split d b';')
unfolding split
split-separator d = rw (char-append _ d) refl

-- The parts that were joined by ";" come back, in order, if there is one and none contains ";".
pub split-join :
    (p : String) (ps : List String)
    → All (λ q. is_free b';' q ≡ true) (cons p ps)
    → split (join (cons p ps) ";") b';' ≡ cons p ps
unfolding join
split-join p nil (h, _) = split-free p b';' h
split-join p (cons q ps) (h, hs) =
    split-append p (append ";" (join (cons q ps) ";")) (cons q ps) b';' h
      (split-separator (join (cons q ps) ";") ∙ ap (λ l. cons "" l) (split-join q ps hs))
