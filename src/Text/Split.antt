-- ===== src/Text/Split.antt =====
-- Split and Join undo each other.
use Prim.Native.Nat.{ℕ, zero, suc}
use mathlib.Core.List.{append-nil}
use fcitx5_vinput.Base.{
  ◌≡◌, refl, ap, ◌∙◌, Bool, true, false, ◌||◌, List, [], ◌∷◌, ◌++◌, Option, none, some, arith,
  if_both, length, ltb, ◌==◌, All, is_empty,
}
use fcitx5_vinput.Text.{Text, prepend, split_once, split_at, split_loop, split, join_rest, join}

-- Whether a byte occurs in a text.
unfoldable pub occurs : ℕ → Text → Bool
occurs d [] = false
occurs d (c ∷ text) = (c == d) || occurs d text

-- What SplitOnce says of a text.
Cuts : ℕ → Text → Option (Text × Text) → Type 0
Cuts d text none = occurs d text ≡ false
Cuts d text (some (before, after)) =
    (before ++ d ∷ after ≡ text)
    × (occurs d before ≡ false)
    × (ltb (length after) (length text) ≡ true)

prepend-Cuts :
    (c d : ℕ) (text : Text) (r : Option (Text × Text))
    → (c == d) ≡ false
    → Cuts d text r
    → Cuts d (c ∷ text) (prepend c r)
unfolding Cuts occurs
prepend-Cuts c d text none n h = ground (arith, n, h)
prepend-Cuts c d text (some (before, after)) n (e, o, l) =
    (ap (λ t. c ∷ t) e, ground (arith, n, o), ground (arith, l))

split_once-Cuts : (text : Text) (d : ℕ) → Cuts d text (split_once text d)
unfolding Cuts split_once occurs
split_once-Cuts [] d = refl
split_once-Cuts (c ∷ text) d =
    if_both (Cuts d (c ∷ text)) (c == d) _ _ (λ e. (ground (arith, e), refl, ground arith))
      (λ n. prepend-Cuts c d text (split_once text d) n (split_once-Cuts text d))

join_rest_lem :
    (d : ℕ) (tokens : List Text)
    → is_empty tokens ≡ false
    → join_rest tokens (d ∷ []) ≡ d ∷ join tokens (d ∷ [])
unfolding join_rest join
join_rest_lem d [] n = ground arith
join_rest_lem d (t ∷ tokens) n = refl

-- Tokens of a text: they give the text back and have no delimiter in them.
record AreTokens (d : ℕ) (text : Text) (tokens : List Text) : Type 0 where
  some_token : is_empty tokens ≡ false
  joined : join tokens (d ∷ []) ≡ text
  free : All (λ t. occurs d t ≡ false) tokens

split_at-AreTokens :
    (loop : Text → List Text) (d : ℕ) (text : Text) (r : Option (Text × Text))
    → Cuts d text r
    → ((rest : Text) → ltb (length rest) (length text) ≡ true → AreTokens d rest (loop rest))
    → AreTokens d text (split_at loop text r)
unfolding Cuts split_at join join_rest
split_at-AreTokens loop d text none c h = record {
  some_token = refl;
  joined = append-nil text;
  free = (c, tt);
}
split_at-AreTokens loop d text (some (token, rest)) (e, o, l) h =
    let t = h rest l in
    record {
      some_token = refl;
      joined =
          ap (λ u. token ++ u) (join_rest_lem d (loop rest) t.some_token)
          ∙ ap (λ u. token ++ d ∷ u) t.joined
          ∙ e;
      free = (o, t.free);
    }

split_loop-AreTokens :
    (fuel d : ℕ) (text : Text)
    → ltb (length text) fuel ≡ true
    → AreTokens d text (split_loop fuel d text)
unfolding split_loop
split_loop-AreTokens zero d text l = ground arith
split_loop-AreTokens (suc fuel) d text l =
    split_at-AreTokens (split_loop fuel d) d text (split_once text d) (split_once-Cuts text d)
      (λ rest k. split_loop-AreTokens fuel d rest (ground (arith, l, k)))

-- Split cuts every text into one token or more, none with the delimiter in it, that Join with the
-- delimiter puts together to the text again.
pub join-split :
    (text : Text) (d : ℕ)
    → (join (split text d) (d ∷ []) ≡ text)
      × All (λ t. occurs d t ≡ false) (split text d)
      × (is_empty (split text d) ≡ false)
unfolding split
join-split text d =
    let t = split_loop-AreTokens (suc (length text)) d text (ground arith) in
    (t.joined, t.free, t.some_token)
