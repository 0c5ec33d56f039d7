-- ===== src/Postprocess/Candidates.antt =====
-- ExtractCandidatesAuto (src/daemon/postprocess/candidate_parser.cpp). The JSON reader is a parameter:
-- for a content that is an object with an array under "candidates", its items, `none` for one that is
-- no string; for every other content, `none`.
pub mod Bounds
pub mod Tests
use Prim.Native.Nat.{ℕ, zero, suc, ◌-◌}
use fcitx5_vinput.Base.{
  Bool, true, false, ◌&&◌, ◌||◌, List, [], ◌∷◌, map, Option, none, some, if◌then◌else◌, length,
  drop, take, is_empty, leb, ◌==◌, ℤ, pos, negsuc,
}
use fcitx5_vinput.Text.{Text, trim, starts_with, ends_with, split_once, split}

abbrev pub newline : ℕ
newline = 10

-- "```"
abbrev pub fence : Text
fence = 96 ∷ 96 ∷ 96 ∷ []

-- The part behind the first line of a fenced text.
unfoldable pub fenced_body : Text → Option (Text × Text) → Text
fenced_body text none = text
fenced_body text (some (first, body)) =
    let trimmed = trim body in
    if ends_with trimmed fence then trim (take (length trimmed - 3) trimmed) else text

-- StripMarkdownFence
unfoldable pub strip_markdown_fence : Text → Text
strip_markdown_fence raw =
    let text = trim raw in
    if starts_with text fence then fenced_body text (split_once text newline) else text

-- `std::isdigit`
unfoldable pub is_digit : ℕ → Bool
is_digit c = leb 48 c && leb c 57

-- One digit, or two, with ". " behind.
unfoldable pub is_numbered : Text → Bool
is_numbered [] = false
is_numbered (c ∷ line) = is_digit c && starts_with line (46 ∷ 32 ∷ [])

unfoldable pub is_numbered_twice : Text → Bool
is_numbered_twice [] = false
is_numbered_twice (c ∷ line) = is_digit c && is_numbered line

-- StripBulletOrNumber, with "- " and "* ".
unfoldable pub strip_bullet_or_number : Text → Text
strip_bullet_or_number line =
    if starts_with line (45 ∷ 32 ∷ []) || starts_with line (42 ∷ 32 ∷ [])
    then trim (drop 2 line)
    else if is_numbered line
    then trim (drop 3 line)
    else if is_numbered_twice line
    then trim (drop 4 line)
    else line

-- Both loops: a candidate that is not empty is pushed, until there are enough. The first argument is
-- the number of places left.
unfoldable pub collect_candidates : ℕ → List Text → List Text
collect_candidates left [] = []
collect_candidates left (t ∷ ts) =
    let skipped = collect_candidates left ts in
    let rest = collect_candidates (left - 1) ts in
    if is_empty t then skipped else (if leb left 1 then t ∷ [] else t ∷ rest)

-- The items that are strings.
unfoldable pub string_items : List (Option Text) → List Text
string_items [] = []
string_items (none ∷ items) = string_items items
string_items (some t ∷ items) = t ∷ string_items items

unfoldable pub line_candidate : Text → Text
line_candidate line = strip_bullet_or_number (trim line)

-- The three formats, for a content that is not empty.
unfoldable pub parsed_candidates : ℕ → Text → Option (List (Option Text)) → List Text
parsed_candidates max content (some items) = collect_candidates max (map trim (string_items items))
parsed_candidates max content none =
    if max == 1
    then (let text = trim content in if is_empty text then [] else text ∷ [])
    else collect_candidates max (map line_candidate (split content newline))

module _ (read_candidates : Text → Option (List (Option Text))) where
  unfoldable pub extract_candidates : ℕ → Text → List Text
  extract_candidates zero raw = []
  extract_candidates (suc n) raw =
      let content = strip_markdown_fence raw in
      if is_empty content then [] else parsed_candidates (suc n) content (read_candidates content)

  -- ExtractCandidatesAuto
  unfoldable pub extract_candidates_auto : Text → ℤ → List Text
  extract_candidates_auto raw (pos n) = extract_candidates n raw
  extract_candidates_auto raw (negsuc n) = []
