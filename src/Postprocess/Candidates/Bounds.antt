-- ===== src/Postprocess/Candidates/Bounds.antt =====
-- ExtractCandidatesAuto: how many candidates there are, and what each of them is.
use Prim.Native.Nat.{ℕ, zero, suc, ◌-◌, ◌≤◌}
use fcitx5_vinput.Base.{
  ◌≡◌, false, ◌||◌, List, [], ◌∷◌, map, Option, none, some, if◌then◌else◌, if_both, length, drop,
  is_empty, leb, ◌==◌, ℤ, pos, negsuc, All, arith,
}
use fcitx5_vinput.Text.{Text, trim, starts_with, split}
use fcitx5_vinput.Text.Trim.{trim_idem}
use fcitx5_vinput.Postprocess.Candidates.{
  newline, strip_markdown_fence, is_numbered, is_numbered_twice, strip_bullet_or_number,
  line_candidate, collect_candidates, string_items, parsed_candidates, extract_candidates,
  extract_candidates_auto,
}

-- Something is left of it, and no space around it.
pub record IsCandidate (t : Text) : Type 0 where
  pub filled : is_empty t ≡ false
  pub trimmed : trim t ≡ t

pub record AreCandidates (places : ℕ) (ts : List Text) : Type 0 where
  pub count : length ts ≤ places
  pub all : All IsCandidate ts

-- `max_candidates`, of which a negative one is none.
abbrev pub places : ℤ → ℕ
places (pos n) = n
places (negsuc n) = 0

abbrev IsTrimmed : Text → Type 0
IsTrimmed t = trim t ≡ t

trims : (ts : List Text) → All IsTrimmed (map trim ts)
trims [] = tt
trims (t ∷ ts) = (trim_idem t, trims ts)

strip_bullet_or_number-IsTrimmed :
    (line : Text) → IsTrimmed line → IsTrimmed (strip_bullet_or_number line)
unfolding strip_bullet_or_number
strip_bullet_or_number-IsTrimmed line e =
    if_both IsTrimmed (starts_with line (45 ∷ 32 ∷ []) || starts_with line (42 ∷ 32 ∷ []))
      (trim (drop 2 line))
      (if is_numbered line
        then trim (drop 3 line)
        else if is_numbered_twice line
        then trim (drop 4 line)
        else line)
      (λ h. trim_idem (drop 2 line))
      (λ h.
        if_both IsTrimmed (is_numbered line) (trim (drop 3 line))
          (if is_numbered_twice line then trim (drop 4 line) else line)
          (λ k. trim_idem (drop 3 line))
          (λ k.
            if_both IsTrimmed (is_numbered_twice line) (trim (drop 4 line)) line
              (λ l. trim_idem (drop 4 line)) (λ l. e)))

line_candidate-IsTrimmed : (lines : List Text) → All IsTrimmed (map line_candidate lines)
unfolding line_candidate
line_candidate-IsTrimmed [] = tt
line_candidate-IsTrimmed (line ∷ lines) =
    (strip_bullet_or_number-IsTrimmed (trim line) (trim_idem line), line_candidate-IsTrimmed lines)

collect_candidates-AreCandidates :
    (left : ℕ) (ts : List Text)
    → 1 ≤ left
    → All IsTrimmed ts
    → AreCandidates left (collect_candidates left ts)
unfolding collect_candidates
collect_candidates-AreCandidates left [] l a = record { count = omega arith; all = tt }
collect_candidates-AreCandidates left (t ∷ ts) l a =
    let skipped = collect_candidates left ts in
    let rest = collect_candidates (left - 1) ts in
    if_both (AreCandidates left) (is_empty t) skipped (if leb left 1 then t ∷ [] else t ∷ rest)
      (λ h. collect_candidates-AreCandidates left ts l a.1)
      (λ h.
        let c : IsCandidate t = record { filled = h; trimmed = a.0 } in
        if_both (AreCandidates left) (leb left 1) (t ∷ []) (t ∷ rest)
          (λ k. record { count = omega (arith, l); all = (c, tt) })
          (λ k.
            let more : 2 ≤ left = ground (arith, k) in
            let r = collect_candidates-AreCandidates (left - 1) ts (omega (arith, more)) a.1 in
            record { count = omega (arith, r.count, more); all = (c, r.all) }))

parsed_candidates-AreCandidates :
    (n : ℕ) (content : Text) (items : Option (List (Option Text)))
    → AreCandidates (suc n) (parsed_candidates (suc n) content items)
unfolding parsed_candidates
parsed_candidates-AreCandidates n content (some items) =
    collect_candidates-AreCandidates (suc n) (map trim (string_items items)) (omega arith)
      (trims (string_items items))
parsed_candidates-AreCandidates n content none =
    let text = trim content in
    let lines = map line_candidate (split content newline) in
    if_both (AreCandidates (suc n)) (suc n == 1) (if is_empty text then [] else text ∷ [])
      (collect_candidates (suc n) lines)
      (λ h.
        if_both (AreCandidates (suc n)) (is_empty text) [] (text ∷ [])
          (λ k. record { count = omega arith; all = tt })
          (λ k. record {
            count = omega arith;
            all = (record { filled = k; trimmed = trim_idem content }, tt);
          }))
      (λ h.
        collect_candidates-AreCandidates (suc n) lines (omega arith)
          (line_candidate-IsTrimmed (split content newline)))

module _ (read_candidates : Text → Option (List (Option Text))) where
  extract_candidates-AreCandidates :
      (n : ℕ) (raw : Text) → AreCandidates n (extract_candidates read_candidates n raw)
  unfolding extract_candidates
  extract_candidates-AreCandidates zero raw = record { count = omega arith; all = tt }
  extract_candidates-AreCandidates (suc n) raw =
      let content = strip_markdown_fence raw in
      if_both (AreCandidates (suc n)) (is_empty content) []
        (parsed_candidates (suc n) content (read_candidates content))
        (λ h. record { count = omega arith; all = tt })
        (λ h. parsed_candidates-AreCandidates n content (read_candidates content))

  -- Whatever the answer is and however it is read, there are at most as many candidates as asked for,
  -- none for a bound that is not positive, and each is not empty and has no space around it.
  pub extract_candidates_auto-AreCandidates :
      (raw : Text) (max : ℤ)
      → AreCandidates (places max) (extract_candidates_auto read_candidates raw max)
  unfolding extract_candidates_auto
  extract_candidates_auto-AreCandidates raw (pos n) = extract_candidates-AreCandidates n raw
  extract_candidates_auto-AreCandidates raw (negsuc n) = record { count = omega arith; all = tt }
