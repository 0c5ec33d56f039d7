-- ===== src/Postprocess/Candidates/Tests.antt =====
-- ExtractCandidatesAuto on two lines with bullets.
use fcitx5_vinput.Base.{◌≡◌, refl, List, [], ◌∷◌, Option, none, pos}
use fcitx5_vinput.Text.{
  Text, trim, skip_space, strip_space, is_space, starts_with, ends_with, split_once, split,
  split_loop, split_at,
}
use fcitx5_vinput.Postprocess.Candidates.{
  strip_markdown_fence, fenced_body, is_digit, is_numbered, is_numbered_twice,
  strip_bullet_or_number, line_candidate, collect_candidates, parsed_candidates, extract_candidates,
  extract_candidates_auto,
}
use fcitx5_vinput.Postprocess.Candidates.Bounds.{
  AreCandidates, places, extract_candidates_auto-AreCandidates,
}

abbrev no_json : Text → Option (List (Option Text))
no_json content = none

-- " - a\n1. b\n"
abbrev answer : Text
answer = 32 ∷ 45 ∷ 32 ∷ 97 ∷ 10 ∷ 49 ∷ 46 ∷ 32 ∷ 98 ∷ 10 ∷ []

two_lines : extract_candidates_auto no_json answer (pos 3) ≡ ((97 ∷ []) ∷ (98 ∷ []) ∷ [])
unfolding trim skip_space strip_space is_space starts_with ends_with split_once split split_loop
    split_at strip_markdown_fence fenced_body is_digit is_numbered is_numbered_twice
    strip_bullet_or_number line_candidate collect_candidates parsed_candidates extract_candidates
    extract_candidates_auto
two_lines = refl

extract_candidates_auto-AreCandidates_example :
    AreCandidates (places (pos 1)) (extract_candidates_auto no_json answer (pos 1))
extract_candidates_auto-AreCandidates_example =
    extract_candidates_auto-AreCandidates no_json answer (pos 1)
