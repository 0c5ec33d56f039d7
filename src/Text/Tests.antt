-- ===== src/Text/Tests.antt =====
-- Split and Join on a small text.
use fcitx5_vinput.Base.{◌≡◌, refl, false, [], ◌∷◌, All, is_empty}
use fcitx5_vinput.Text.{Text, split_once, split_at, split_loop, split, join}
use fcitx5_vinput.Text.Split.{occurs, join-split}

-- "a,,b" in small numbers, with 9 for the comma
abbrev listed : Text
listed = 1 ∷ 9 ∷ 9 ∷ 2 ∷ []

three : split listed 9 ≡ (1 ∷ []) ∷ [] ∷ (2 ∷ []) ∷ []
unfolding split split_loop split_at split_once
three = refl

join-split_example :
    (join (split listed 9) (9 ∷ []) ≡ listed)
    × All (λ t. occurs 9 t ≡ false) (split listed 9)
    × (is_empty (split listed 9) ≡ false)
join-split_example = join-split listed 9
