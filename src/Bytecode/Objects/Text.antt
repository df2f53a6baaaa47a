-- ===== src/Bytecode/Objects/Text.antt =====
-- The `str` methods that vm/rust/lana-bytecode/src/objects.rs calls, over UTF-8 bytes, and its
-- own tests of names. The characters that they look for are ASCII, so bytes serve for them.
use Prim.Native.Char.{code}
use Prim.Native.String.{String}
use mathlib.Core.Option
use lana.Prelude.{
  ℕ, Bool, true, false, not, ◌&&◌, ◌||◌, leb, ◌==◌, if◌then◌else◌, Option, some, none, List, [],
  ◌∷◌, length, ◌≡◌, ◌≢◌, arith,
}

abbrev pub Str : Type 0
Str = List ℕ

-- The bytes of an ASCII literal of the source.
abbrev pub lit : String → Str
lit String.[] = []
lit (String.◌∷◌ c s) = code c ∷ lit s

unfoldable pub str_eq : Str → Str → Bool
str_eq [] [] = true
str_eq (x ∷ xs) (y ∷ ys) = x == y && str_eq xs ys
str_eq _ _ = false

-- `matches!(s, "…" | …)`
unfoldable pub one_of : Str → List Str → Bool
unfolding str_eq
one_of s [] = false
one_of s (t ∷ ts) = str_eq s t || one_of s ts

-- `split_once`: around the first separator.
unfoldable pub split_once : ℕ → Str → Option (Str × Str)
split_once sep [] = none
split_once sep (c ∷ s) =
    let rest = Option.map {B = Str × Str} (λ r. (c ∷ r.0, r.1)) (split_once sep s) in
    if c == sep then some ([], s) else rest

-- `rsplit_once`: around the last separator.
unfoldable pub rsplit_once : ℕ → Str → Option (Str × Str)
rsplit_once sep [] = none
rsplit_once sep (c ∷ s) = elim (rsplit_once sep s) [
  | some (before, after) ↦ some (c ∷ before, after)
  | none ↦ if c == sep then some ([], s) else none
]

-- The piece before the first separator, and the pieces after it.
unfoldable pub pieces : ℕ → Str → Str × List Str
pieces sep [] = ([], [])
pieces sep (c ∷ s) =
    let (piece, more) = pieces sep s in if c == sep then ([], piece ∷ more) else (c ∷ piece, more)

-- `split`, which has one piece at least
unfoldable pub split : ℕ → Str → List Str
unfolding pieces
split sep s = let (piece, more) = pieces sep s in piece ∷ more

unfoldable pub strip_prefix : Str → Str → Option Str
strip_prefix [] s = some s
strip_prefix (p ∷ ps) [] = none
strip_prefix (p ∷ ps) (c ∷ s) = let rest = strip_prefix ps s in if p == c then rest else none

-- `strip_suffix` of one byte
unfoldable pub strip_last : ℕ → Str → Option Str
strip_last b [] = none
strip_last b (c ∷ []) = if c == b then some [] else none
strip_last b (c ∷ d ∷ s) = Option.map (λ r. c ∷ r) (strip_last b (d ∷ s))

unfoldable pub contains : Str → ℕ → Bool
contains [] b = false
contains (c ∷ s) b = c == b || contains s b

abbrev is_letter : ℕ → Bool
is_letter c = leb b'a' c && leb c b'z' || leb b'A' c && leb c b'Z'

abbrev is_digit : ℕ → Bool
is_digit c = leb b'0' c && leb c b'9'

all_word : Str → Bool
all_word [] = true
all_word (c ∷ s) = (c == b'_' || (is_letter c || is_digit c)) && all_word s

unfoldable pub identifier : Str → Bool
unfolding all_word
identifier [] = false
identifier (c ∷ s) = (c == b'_' || is_letter c) && all_word s

-- The loop over the components of a module path: `none` is its `return false`, and otherwise the
-- flag `path_started` at the end. `relative` says that the prefix allows leading `..`.
components : Bool → Bool → List Str → Option Bool
components relative started [] = some started
components relative started (c ∷ cs) =
    let up = str_eq c (lit "..") in
    let rest = components relative (started || not up) cs in
    if str_eq c [] || str_eq c (lit ".")
    then none
    else if up && (not relative || started)
    then none
    else rest

path_ok : Str → Str → Bool
unfolding components one_of split str_eq
path_ok origin path =
    elim (components (one_of origin (lit "file" ∷ lit "project" ∷ [])) false (split b'/' path)) [
      | none ↦ false
      | some started ↦
          started && (not (str_eq origin (lit "pkg")) || leb 3 (length (split b'/' path)))
    ]

abbrev origins : List Str
origins = lit "file" ∷ lit "project" ∷ lit "std" ∷ lit "pkg" ∷ []

module_ok : Str → Bool
unfolding split_once path_ok one_of str_eq contains
module_ok path = elim (split_once b'/' path) [
  | none ↦ false
  | some (origin, rest) ↦ one_of origin origins && (not (str_eq rest []) && path_ok origin rest)
]

unfoldable pub qualified : Str → Bool
unfolding rsplit_once identifier module_ok contains
qualified name = elim (rsplit_once b'/' name) [
  | none ↦ false
  | some (path, last) ↦
      identifier last
      && (not (contains path 0x5c || (contains path 0 || contains path b':')) && module_ok path)
]

-- The module part of a qualified name. The source unwraps `rsplit_once`, of names that passed
-- `qualified` only.
unfoldable pub module_of : Str → Str
unfolding rsplit_once
module_of name = elim (rsplit_once b'/' name) [ none ↦ [] | some (path, _) ↦ path ]

-- The unwrap of `module_of` is of a `some`.
pub qualified-rsplit_once : (name : Str) → qualified name ≡ true → rsplit_once b'/' name ≢ none
unfolding qualified
qualified-rsplit_once name h e = ground arith
