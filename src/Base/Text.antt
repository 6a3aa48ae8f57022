-- ===== src/Base/Text.antt =====
-- Python's `str` operations that the validators use, over the code points of a text.
use Prim.Native.Nat.{ℕ}
use Prim.Native.Char.{Char, code}
use Prim.Native.String.{String}
use mathlib.Core.Bool.{Bool, true, false, ◌&&◌, ◌||◌}
use mathlib.Core.List.{List, [], ◌∷◌, reverse}
use peoplebot_releases.Base.Tests.{leb, ltb, eqb, if◌then◌else◌}
use peoplebot_releases.Base.Lists.{any, all, length}

-- The code points of a text. `String` has its own `[]` and `∷`.
abbrev pub codes : String → List ℕ
codes String.[] = []
codes (String.◌∷◌ c s) = code c ∷ codes s

abbrev pub between : ℕ → ℕ → ℕ → Bool
between lo hi c = leb lo c && leb c hi

-- str.isspace of one character: what str.strip() removes.
unfoldable pub is_space : ℕ → Bool
is_space c =
    between 9 13 c
    || between 28 32 c
    || eqb c 0x85
    || eqb c 0xa0
    || eqb c 0x1680
    || between 0x2000 0x200a c
    || between 0x2028 0x2029 c
    || eqb c 0x202f
    || eqb c 0x205f
    || eqb c 0x3000

abbrev pub starts_with_space : List ℕ → Bool
starts_with_space [] = false
starts_with_space (c ∷ cs) = is_space c

-- value != value.strip(): the text begins or ends with white space.
unfoldable pub has_outer_space : String → Bool
unfolding is_space
has_outer_space s = starts_with_space (codes s) || starts_with_space (reverse (codes s))

-- ord(character) < 32 or ord(character) == 127
unfoldable pub is_control : ℕ → Bool
is_control c = ltb c 32 || eqb c 127

-- character in value
unfoldable pub contains_code : ℕ → String → Bool
contains_code c s = any (eqb c) (codes s)

-- [0-9a-f]
unfoldable pub is_lower_hex : ℕ → Bool
is_lower_hex c = between b'0' b'9' c || between b'a' b'f' c

-- re.compile(r"^[0-9a-f]{40}$").fullmatch
unfoldable pub is_object_id : String → Bool
unfolding is_lower_hex
is_object_id s = eqb (length (codes s)) 40 && all is_lower_hex (codes s)

-- [A-Za-z0-9]
unfoldable pub is_alphanumeric : ℕ → Bool
is_alphanumeric c = between b'A' b'Z' c || between b'a' b'z' c || between b'0' b'9' c

-- [A-Za-z0-9._:@/-]
unfoldable pub is_identifier_code : ℕ → Bool
unfolding is_alphanumeric
is_identifier_code c =
    is_alphanumeric c
    || eqb c b'.'
    || eqb c b'_'
    || eqb c b':'
    || eqb c b'@'
    || eqb c b'/'
    || eqb c b'-'

abbrev pub identifier_codes : List ℕ → Bool
identifier_codes [] = false
identifier_codes (c ∷ cs) = is_alphanumeric c && leb (length cs) 127 && all is_identifier_code cs

-- str.strip()
lstrip : String → String
unfolding is_space
lstrip String.[] = String.[]
lstrip (String.◌∷◌ c s) = let rest = lstrip s in if is_space (code c) then rest else String.◌∷◌ c s

rstrip_onto : Char → String → String
unfolding is_space
rstrip_onto c String.[] = if is_space (code c) then String.[] else String.◌∷◌ c String.[]
rstrip_onto c (String.◌∷◌ d s) = String.◌∷◌ c (String.◌∷◌ d s)

rstrip : String → String
unfolding rstrip_onto
rstrip String.[] = String.[]
rstrip (String.◌∷◌ c s) = rstrip_onto c (rstrip s)

unfoldable pub strip : String → String
unfolding lstrip rstrip
strip s = rstrip (lstrip s)

-- re.fullmatch(r"[0-9a-f]{40,64}", value)
unfoldable pub is_tree_id : String → Bool
unfolding is_lower_hex
is_tree_id s = between 40 64 (length (codes s)) && all is_lower_hex (codes s)

-- The characters that str.splitlines() splits at.
is_newline : ℕ → Bool
is_newline c = between 10 13 c || between 28 30 c || eqb c 0x85 || eqb c 0x2028 || eqb c 0x2029

onto_line : Char → List String → List String
onto_line c [] = String.◌∷◌ c String.[] ∷ []
onto_line c (l ∷ ls) = String.◌∷◌ c l ∷ ls

starts_with_code : ℕ → String → Bool
starts_with_code n String.[] = false
starts_with_code n (String.◌∷◌ c s) = eqb (code c) n

-- str.splitlines(); "\r\n" is one end of line.
unfoldable pub split_lines : String → List String
unfolding is_newline onto_line starts_with_code
split_lines String.[] = []
split_lines (String.◌∷◌ c s) =
    let rest = split_lines s in
    if eqb (code c) 13 && starts_with_code 10 s
    then rest
    else if is_newline (code c)
    then String.[] ∷ rest
    else onto_line c rest

onto_word : Bool → Char → List String → List String
onto_word true c (w ∷ ws) = String.◌∷◌ c w ∷ ws
onto_word _ c ws = String.◌∷◌ c String.[] ∷ ws

goes_on : String → Bool
unfolding is_space
goes_on String.[] = false
goes_on (String.◌∷◌ c s) = if is_space (code c) then false else true

-- str.split(): the words between white space.
unfoldable pub split_words : String → List String
unfolding onto_word goes_on is_space
split_words String.[] = []
split_words (String.◌∷◌ c s) =
    let rest = split_words s in if is_space (code c) then rest else onto_word (goes_on s) c rest
