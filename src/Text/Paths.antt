-- ===== src/Text/Paths.antt =====
-- `path.Join` of two elements.
use auth_proxy.Prelude.{Bool, ◌||◌, String, append, List, [], ◌∷◌, ◌==◌, if◌then◌else◌}
use mathlib.Core.List.{reverse}
use auth_proxy.Text.{split, join, has_prefix}

-- ".." removes the element before it; at the root it is dropped, elsewhere it is kept.
unfoldable pub pop_part : Bool → List String → List String
pop_part rooted [] = if rooted then [] else ".." ∷ []
pop_part rooted (part ∷ stack) = if part == ".." then ".." ∷ part ∷ stack else stack

-- One element of `path.Clean`; the stack has the last element of the output at its head.
unfoldable pub clean_part : Bool → List String → String → List String
unfolding pop_part
clean_part rooted stack part =
    if part == "" || part == "."
    then stack
    else if part == ".."
    then pop_part rooted stack
    else part ∷ stack

unfoldable pub clean_parts : Bool → List String → List String → List String
unfolding clean_part
clean_parts rooted stack [] = reverse stack
clean_parts rooted stack (part ∷ parts) = clean_parts rooted (clean_part rooted stack part) parts

abbrev clean_output : Bool → String → String
clean_output rooted out = if rooted then append "/" out else if out == "" then "." else out

-- `path.Clean`
unfoldable pub clean : String → String
unfolding clean_parts split join has_prefix
clean p =
    let rooted = has_prefix p "/" in
    clean_output rooted (join (clean_parts rooted [] (split p b'/')) "/")

-- `path.Join(a, b)`
unfoldable pub path_join : String → String → String
unfolding clean
path_join a b =
    if a == ""
    then (if b == "" then "" else clean b)
    else if b == ""
    then clean a
    else clean (append a (append "/" b))
