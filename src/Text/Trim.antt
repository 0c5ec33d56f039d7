-- ===== src/Text/Trim.antt =====
-- Trim and StripSuffix of src/common/utils/string_utils.h.
use fcitx5_vinput.Base.{◌≡◌, refl, ap, ◌∙◌, Bool, true, not, [], ◌∷◌, arith}
use fcitx5_vinput.Text.{Text, is_space, skip_space, strip_space, trim}

-- No space stands first.
starts_firmly : Text → Bool
starts_firmly [] = true
starts_firmly (c ∷ text) = not (is_space c)

skip_space_firmly : (text : Text) → starts_firmly (skip_space text) ≡ true
unfolding skip_space starts_firmly
skip_space_firmly [] = refl
skip_space_firmly (c ∷ text) = ground (arith, skip_space_firmly text)

skip_space_firm : (text : Text) → starts_firmly text ≡ true → skip_space text ≡ text
unfolding skip_space starts_firmly
skip_space_firm [] f = refl
skip_space_firm (c ∷ text) f = ground (arith, f)

strip_space_firmly :
    (text : Text) → starts_firmly text ≡ true → starts_firmly (strip_space text) ≡ true
unfolding strip_space starts_firmly
strip_space_firmly [] f = refl
strip_space_firmly (c ∷ text) f = ground (arith, f)

strip_space_idem : (text : Text) → strip_space (strip_space text) ≡ strip_space text
unfolding strip_space
strip_space_idem [] = refl
strip_space_idem (c ∷ text) = ground (arith, strip_space_idem text)

pub trim_idem : (text : Text) → trim (trim text) ≡ trim text
unfolding trim
trim_idem text =
    let firm = strip_space_firmly (skip_space text) (skip_space_firmly text) in
    ap strip_space (skip_space_firm (strip_space (skip_space text)) firm)
    ∙ strip_space_idem (skip_space text)
