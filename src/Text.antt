-- ===== src/Text.antt =====
-- Trimming, prefixes and suffixes, splitting and joining of src/common/utils/string_utils.h. A text is the list of its bytes.
pub mod Split
pub mod Trim
pub mod Tests
use Prim.Native.Nat.{ℕ, zero, suc, ◌-◌}
use fcitx5_vinput.Base.{
  ◌&&◌, ◌||◌, leb, is_empty, take, drop, Bool, true, false, List, [], ◌∷◌, ◌++◌, Option, none, some,
  if◌then◌else◌, length, ◌==◌,
}

abbrev pub Text : Type 0
Text = List ℕ

abbrev pub prepend : ℕ → Option (Text × Text) → Option (Text × Text)
prepend c none = none
prepend c (some (before, after)) = some (c ∷ before, after)

-- SplitOnce
unfoldable pub split_once : Text → ℕ → Option (Text × Text)
split_once [] delimiter = none
split_once (c ∷ text) delimiter =
    if c == delimiter then some ([], text) else prepend c (split_once text delimiter)

-- RSplitOnce: at the last delimiter.
unfoldable pub rsplit_once : Text → ℕ → Option (Text × Text)
rsplit_once [] delimiter = none
rsplit_once (c ∷ text) delimiter = elim (rsplit_once text delimiter) [
  | some (before, after) ↦ some (c ∷ before, after)
  | none ↦ if c == delimiter then some ([], text) else none
]

-- The loop of Split; each turn takes a delimiter away, so one turn more than the text is long is
-- enough.
unfoldable pub split_at : (Text → List Text) → Text → Option (Text × Text) → List Text
split_at loop text none = text ∷ []
split_at loop text (some (token, rest)) = token ∷ loop rest

unfoldable pub split_loop : ℕ → ℕ → Text → List Text
split_loop zero delim text = []
split_loop (suc fuel) delim text = split_at (split_loop fuel delim) text (split_once text delim)

unfoldable pub split : Text → ℕ → List Text
split text delim = split_loop (suc (length text)) delim text

unfoldable pub join_rest : List Text → Text → Text
join_rest [] delimiter = []
join_rest (e ∷ elements) delimiter = delimiter ++ e ++ join_rest elements delimiter

-- Join
unfoldable pub join : List Text → Text → Text
join [] delimiter = []
join (e ∷ elements) delimiter = e ++ join_rest elements delimiter

-- `std::isspace` on a byte, in the C locale.
unfoldable pub is_space : ℕ → Bool
is_space c = c == 32 || (leb 9 c && leb c 13)

-- From the first byte that is no space.
unfoldable pub skip_space : Text → Text
skip_space [] = []
skip_space (c ∷ text) = let rest = skip_space text in if is_space c then rest else c ∷ text

-- Up to the last byte that is no space.
unfoldable pub strip_space : Text → Text
strip_space [] = []
strip_space (c ∷ text) =
    let rest = strip_space text in if is_empty rest && is_space c then [] else c ∷ rest

-- Trim
unfoldable pub trim : Text → Text
trim text = strip_space (skip_space text)

-- `text.starts_with(prefix)`
unfoldable pub starts_with : Text → Text → Bool
starts_with text [] = true
starts_with [] (p ∷ prefix) = false
starts_with (c ∷ text) (p ∷ prefix) = (c == p) && starts_with text prefix

-- `text.ends_with(suffix)`
unfoldable pub ends_with : Text → Text → Bool
ends_with text suffix =
    leb (length suffix) (length text)
    && starts_with (drop (length text - length suffix) text) suffix

-- StripSuffix
unfoldable pub strip_suffix : Text → Text → Text
strip_suffix text suffix =
    if ends_with text suffix then take (length text - length suffix) text else text
