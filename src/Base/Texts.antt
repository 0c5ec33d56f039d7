-- ===== src/Base/Texts.antt =====
-- Texts: the native `String` where the program only compares whole texts, a list of bytes where it
-- walks them.
use Prim.Native.Char.{code}
use Prim.Native.Nat.{ℕ}
use Prim.Native.String.{String}
use mathlib.Core.Bool.{Bool, true, false}
use mathlib.Core.List.{List, [], ◌∷◌}
use mathlib.Core.Logic.{◌↔◌}
use mathlib.Core.Path.{◌≡◌, refl, ap}
use native.Mathlib.Omega.{arith}
use text.Mathlib.Text.{◌==◌ as eq}
use text.Mathlib.TextEquality.{eq_iff}

abbrev pub Bytes : Type 0
Bytes = List ℕ

-- The code points of a text: its bytes, if it is ASCII.
abbrev pub codes : String → Bytes
codes String.[] = []
codes (String.◌∷◌ c s) = code c ∷ codes s

-- `a == b` on `std::string`
abbrev pub str_eq : String → String → Bool
str_eq a b = eq a b

pub str_eq_iff : (a b : String) → (str_eq a b ≡ true) ↔ (a ≡ b)
str_eq_iff a b = eq_iff a b

-- `s.empty()`
abbrev pub str_empty : String → Bool
str_empty String.[] = true
str_empty (String.◌∷◌ c s) = false

pub str_empty_iff : (s : String) → (str_empty s ≡ true) ↔ (s ≡ "")
str_empty_iff String.[] = ((λ h. refl), (λ h. refl))
str_empty_iff (String.◌∷◌ c s) = ((λ h. cc), (λ h. ap str_empty h))

pub str_eq-empty : (s : String) → str_empty s ≡ false → str_eq "" s ≡ false
str_eq-empty s h = ground (arith, str_eq_iff "" s, str_empty_iff s)
