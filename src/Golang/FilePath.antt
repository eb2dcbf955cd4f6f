-- ===== src/Golang/FilePath.antt =====
-- path/filepath on Unix: Clean, Join, Base and Ext.
use sharm.Common.{
  ℕ, Bool, false, ◌||◌, ◌&&◌, List, [], ◌∷◌, ◌++◌, Text, text, ◌==◌, nat_eq, text_eq, if◌then◌else◌,
  not,
}
use mathlib.Core.List.{reverse}

abbrev slash : ℕ
slash = b'/'

-- One more byte in front of the elements that follow it.
unfoldable pub push_byte : ℕ → List Text → List Text
push_byte c [] = (c ∷ []) ∷ []
push_byte c (e ∷ es) = if c == slash then [] ∷ e ∷ es else (c ∷ e) ∷ es

-- The elements of a path between its slashes.
unfoldable pub split_slash : Text → List Text
unfolding push_byte
split_slash [] = [] ∷ []
split_slash (c ∷ s) = push_byte c (split_slash s)

unfoldable pub join_slash : List Text → Text
join_slash [] = []
join_slash (e ∷ []) = e
join_slash (e ∷ f ∷ es) = e ++ slash ∷ join_slash (f ∷ es)

-- One element against the stack of those kept, its top at the head.
unfoldable pub resolve : Bool → List Text → Text → List Text
resolve rooted [] e =
    if e == [] || e == text "." then [] else if e == text ".." && rooted then [] else e ∷ []
resolve rooted (top ∷ stack) e =
    if e == [] || e == text "."
    then top ∷ stack
    else if e == text ".." && not (top == text "..")
    then stack
    else e ∷ top ∷ stack

unfoldable pub resolve_all : Bool → List Text → List Text → List Text
unfolding resolve
resolve_all rooted stack [] = stack
resolve_all rooted stack (e ∷ es) = resolve_all rooted (resolve rooted stack e) es

abbrev is_rooted : Text → Bool
is_rooted [] = false
is_rooted (c ∷ s) = c == slash

unfoldable pub clean : Text → Text
unfolding split_slash join_slash resolve_all
clean path =
    let rooted = is_rooted path in
    let kept = join_slash (reverse (resolve_all rooted [] (split_slash path))) in
    if rooted then slash ∷ kept else if kept == [] then text "." else kept

-- Join(a, b)
unfoldable pub join : Text → Text → Text
unfolding clean
join [] [] = []
join [] (c ∷ b) = clean (c ∷ b)
join (c ∷ a) b = clean (c ∷ a ++ slash ∷ b)

-- The bytes after the last slash of a reversed path.
unfoldable pub until_slash : Text → Text
until_slash [] = []
until_slash (c ∷ s) = let rest = until_slash s in if c == slash then [] else c ∷ rest

unfoldable pub skip_slashes : Text → Text
skip_slashes [] = []
skip_slashes (c ∷ s) = let rest = skip_slashes s in if c == slash then rest else c ∷ s

unfoldable pub base : Text → Text
unfolding until_slash skip_slashes
base [] = text "."
base (c ∷ s) =
    let name = reverse (until_slash (skip_slashes (reverse (c ∷ s)))) in
    if name == [] then slash ∷ [] else name

-- The extension of a reversed path, reversed: nothing where a slash or the start comes first.
unfoldable pub ext_from : Text → Text → Text
ext_from seen [] = []
ext_from seen (c ∷ s) =
    let further = ext_from (c ∷ seen) s in
    if c == slash then [] else if c == b'.' then c ∷ seen else further

unfoldable pub ext : Text → Text
unfolding ext_from
ext path = ext_from [] (reverse path)
