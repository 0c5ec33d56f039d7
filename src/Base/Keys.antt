-- ===== src/Base/Keys.antt =====
-- Sets of texts (`std::set<std::string>`), as lists of the texts inserted so far.
use Prim.Native.String.{String}
use mathlib.Core.Path.{◌≡◌}
use mathlib.Core.Bool.{Bool, false, ◌||◌}
use mathlib.Core.List.{List, [], ◌∷◌, ◌++◌}
use native.Mathlib.Omega.{arith}
use fcitx5_vinput.Base.Texts.{str_eq, str_eq_iff, str_empty}

-- `seen.contains(s)`
abbrev pub contains : List String → String → Bool
contains [] s = false
contains (t ∷ seen) s = str_eq t s || contains seen s

-- Texts that are not empty, distinct, and not in a set.
abbrev pub Fresh : List String → List String → Type 0
Fresh seen [] = Unit {0}
Fresh seen (s ∷ ss) = (str_empty s ≡ false) × (contains seen s ≡ false) × Fresh (s ∷ seen) ss

-- Every text of one set is in the other.
abbrev pub Within : List String → List String → Type 0
Within small large = (s : String) → contains large s ≡ false → contains small s ≡ false

pub Fresh-mono :
    (small large ss : List String) → Within small large → Fresh large ss → Fresh small ss
Fresh-mono small large [] w f = tt
Fresh-mono small large (s ∷ ss) w (e, c, f) =
    (e, w s c, Fresh-mono (s ∷ small) (s ∷ large) ss (λ t h. ground (arith, w t)) f)

-- A new text may be added at the end.
pub Fresh-append :
    (seen ss : List String) (s : String)
    → Fresh seen ss
    → str_empty s ≡ false
    → contains seen s ≡ false
    → contains ss s ≡ false
    → Fresh seen (ss ++ s ∷ [])
Fresh-append seen [] s f e c d = (e, c, tt)
Fresh-append seen (t ∷ ss) s (e', c', f) e c d =
    (e', c', Fresh-append (t ∷ seen) ss s f e (ground (arith, str_eq_iff t s)) (ground arith))
