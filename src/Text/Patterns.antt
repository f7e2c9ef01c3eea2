-- ===== src/Text/Patterns.antt =====
-- The two regular expressions of proxy/helpers.go.
use Prim.Native.String.{[] as empty, ◌∷◌ as char}
use auth_proxy.Prelude.{
  ◌≡◌, refl, ℕ, zero, suc, Bool, true, false, not, ◌&&◌, ◌||◌, String, code, List, [], ◌∷◌, ◌++◌,
  leb, nat_eq, if◌then◌else◌,
}

-- `[A-Za-z0-9\_\-\.\@]`
unfoldable pub is_username_char : ℕ → Bool
is_username_char c =
    leb b'A' c && leb c b'Z'
    || leb b'a' c && leb c b'z'
    || leb b'0' c && leb c b'9'
    || nat_eq c b'_'
    || nat_eq c b'-'
    || nat_eq c b'.'
    || nat_eq c b'@'

unfoldable pub all_username_chars : String → Bool
unfolding is_username_char
all_username_chars empty = true
all_username_chars (char c s) = is_username_char (code c) && all_username_chars s

-- `usernamePattern.MatchString`
unfoldable pub matches_username : String → Bool
unfolding all_username_chars
matches_username empty = false
matches_username (char c s) = all_username_chars (char c s)

-- A matcher takes a text to what it can leave unread.
abbrev Matcher : Type 0
Matcher = String → List String

one : (ℕ → Bool) → Matcher
one p empty = []
one p (char c s) = if p (code c) then s ∷ [] else []

option : Matcher → Matcher
option m s = m s ++ s ∷ []

gather : Matcher → List String → List String
gather m [] = []
gather m (s ∷ ss) = m s ++ gather m ss

seq : Matcher → Matcher → Matcher
unfolding gather
seq m n s = gather n (m s)

between : ℕ → ℕ → ℕ → Bool
between lo hi c = leb lo c && leb c hi

-- `[01]?[0-9][0-9]?|2[0-4][0-9]|25[0-5]`
octet : Matcher
unfolding one option seq between
octet s =
    seq (option (one (between b'0' b'1')))
      (seq (one (between b'0' b'9')) (option (one (between b'0' b'9')))) s
    ++ (seq (one (between b'2' b'2')) (seq (one (between b'0' b'4')) (one (between b'0' b'9'))) s
        ++ seq (one (between b'2' b'2')) (seq (one (between b'5' b'5')) (one (between b'0' b'5')))
            s)

-- `.|$`: any character but a line feed, or the end of the text
separator : Matcher
unfolding one
separator empty = empty ∷ []
separator (char c s) = one (λ d. not (nat_eq d 10)) (char c s)

repeated : ℕ → Matcher → Matcher
unfolding seq
repeated zero m s = s ∷ []
repeated (suc n) m s = seq m (repeated n m) s

abbrev is_matched : List String → Bool
is_matched [] = false
is_matched (_ ∷ _) = true

-- `re.MatchString`, with `re` compiled from `ipAddrPattern`
unfoldable pub matches_ip : String → Bool
unfolding octet separator repeated
matches_ip s = is_matched (repeated 4 (seq octet separator) s)

-- `.` stands for any character, so that host names match too.
matches_ip_tests :
    (matches_ip "10.0.0.1" ≡ true)
    × (matches_ip "ldap.example.com" ≡ false)
    × (matches_ip "1a2b3c4d.example.com" ≡ true)
unfolding matches_ip
matches_ip_tests = (refl, refl, refl)
