-- ===== src/State/GitPath.antt =====
-- `_validate_git_path` of peoplebot/state.py, with the parts of `PurePosixPath` that it reads.
pub mod Canonical
use peoplebot_releases.Base.{
  ℕ, String, Bool, true, false, not, ◌&&◌, ◌||◌, List, [], ◌∷◌, ◌++◌, eqb, codes, contains_code,
  any, keep, ◌==◌, if◌then◌else◌,
}
use peoplebot_releases.Base.Result.{Result, ok, err, value_error, raise_if, ◌>>=◌, ◌>>◌}
use peoplebot_releases.Json.{Value, str}

abbrev pub Codes : Type 0
Codes = List ℕ

unfoldable pub same_codes : Codes → Codes → Bool
same_codes [] [] = true
same_codes [] (d ∷ ds) = false
same_codes (c ∷ cs) [] = false
same_codes (c ∷ cs) (d ∷ ds) = eqb c d && same_codes cs ds

abbrev pub onto_head : ℕ → List Codes → List Codes
onto_head c [] = (c ∷ []) ∷ []
onto_head c (p ∷ ps) = (c ∷ p) ∷ ps

-- The components between slashes, the empty ones too.
unfoldable pub split_slash : Codes → List Codes
split_slash [] = [] ∷ []
split_slash (c ∷ cs) =
    let rest = split_slash cs in if eqb c b'/' then [] ∷ rest else onto_head c rest

abbrev pub dot : Codes
dot = b'.' ∷ []

abbrev pub dot_dot : Codes
dot_dot = b'.' ∷ b'.' ∷ []

-- PurePosixPath keeps the components that are neither empty nor ".".
unfoldable pub is_part : Codes → Bool
unfolding same_codes
is_part p = not (same_codes p []) && not (same_codes p dot)

unfoldable pub parts : Codes → List Codes
unfolding split_slash is_part
parts cs = keep is_part (split_slash cs)

unfoldable pub join_slash : List Codes → Codes
join_slash [] = []
join_slash (p ∷ []) = p
join_slash (p ∷ q ∷ ps) = p ++ b'/' ∷ join_slash (q ∷ ps)

-- str(parsed) of a relative path
posix_text : List Codes → Codes
unfolding join_slash
posix_text [] = dot
posix_text (p ∷ ps) = join_slash (p ∷ ps)

abbrev pub is_absolute : Codes → Bool
is_absolute [] = false
is_absolute (c ∷ cs) = eqb c b'/'

-- What `_validate_git_path` refuses after its tests of the characters.
unfoldable pub not_canonical : Codes → Bool
unfolding parts posix_text
not_canonical cs =
    same_codes cs dot
    || is_absolute cs
    || not (same_codes (posix_text (parts cs)) cs)
    || any (λ p. same_codes p dot || same_codes p dot_dot) (parts cs)

unfoldable pub validate_git_path : Value → Result String
unfolding not_canonical
validate_git_path (str value) = do
  raise_if (value == "") (value_error "path must be a non-empty string when provided")
  raise_if (contains_code b'\\' value || contains_code 0 value)
      (value_error "path must use canonical POSIX separators and contain no NUL")
  raise_if (not_canonical (codes value)) (value_error "path must be a canonical relative Git path")
  ok value
validate_git_path _ = err (value_error "path must be a non-empty string when provided")
