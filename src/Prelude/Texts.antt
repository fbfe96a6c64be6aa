-- ===== src/Prelude/Texts.antt =====
-- Texts: equality, the order of `sort.Strings` (byte order, which for UTF-8 is the order of the
-- code points), and membership in a list of texts.
use Prim.Native.Nat.{ℕ}
use Prim.Native.Char.{code}
use Prim.Native.String
use Prim.Native.String.{String}
use mathlib.Core.Path.{◌≡◌, refl, ap₂}
use mathlib.Core.Bool.{Bool, true, false}
use mathlib.Core.List.{List, [], ◌∷◌}
use native.Mathlib.Omega.{arith}
use text.Mathlib.TextEquality.{Char-path}
use star_car.Prelude.Tests.{ltb, if◌then◌else◌}
pub use text.Mathlib.Text.{◌==◌}
pub use text.Mathlib.TextEquality.{eq_iff}
pub use text.Mathlib.TextPositions.{eq_refl}

abbrev pub codes : String → List ℕ
codes String.[] = []
codes (String.◌∷◌ c s) = code c ∷ codes s

unfoldable pub codes_less : List ℕ → List ℕ → Bool
codes_less [] [] = false
codes_less [] (d ∷ t) = true
codes_less (c ∷ s) [] = false
codes_less (c ∷ s) (d ∷ t) =
    let rest = codes_less s t in if ltb c d then true else if ltb d c then false else rest

-- `s < t`
unfoldable pub str_less : String → String → Bool
unfolding codes_less
str_less s t = codes_less (codes s) (codes t)

codes-injective : (s t : String) → codes s ≡ codes t → s ≡ t
codes-injective String.[] String.[] h = refl
codes-injective String.[] (String.◌∷◌ d t) h = absurd (cc)
codes-injective (String.◌∷◌ c s) String.[] h = absurd (cc)
codes-injective (String.◌∷◌ c s) (String.◌∷◌ d t) h =
    ap₂ String.◌∷◌ (Char-path c d (cc)) (codes-injective s t (cc))

codes_less_asym : (s t : List ℕ) → codes_less s t ≡ true → codes_less t s ≡ false
unfolding codes_less
codes_less_asym [] [] h = refl
codes_less_asym [] (d ∷ t) h = refl
codes_less_asym (c ∷ s) [] h = cc
codes_less_asym (c ∷ s) (d ∷ t) h = ground (arith, codes_less_asym s t)

codes_less_trans :
    (s t u : List ℕ) → codes_less t s ≡ false → codes_less u t ≡ false → codes_less u s ≡ false
unfolding codes_less
codes_less_trans s [] [] h k = h
codes_less_trans s (d ∷ t) [] h k = cc
codes_less_trans [] t (e ∷ u) h k = refl
codes_less_trans (c ∷ s) [] (e ∷ u) h k = ground arith
codes_less_trans (c ∷ s) (d ∷ t) (e ∷ u) h k = ground (arith, codes_less_trans s t u)

codes_less_antisymm : (s t : List ℕ) → codes_less s t ≡ false → codes_less t s ≡ false → s ≡ t
unfolding codes_less
codes_less_antisymm [] [] h k = refl
codes_less_antisymm [] (d ∷ t) h k = cc
codes_less_antisymm (c ∷ s) [] h k = cc
codes_less_antisymm (c ∷ s) (d ∷ t) h k = ground (arith, codes_less_antisymm s t)

abbrev pub StrLe : String → String → Type 0
StrLe s t = str_less t s ≡ false

pub str_less_asym : (s t : String) → str_less s t ≡ true → str_less t s ≡ false
unfolding str_less
str_less_asym s t = codes_less_asym (codes s) (codes t)

pub StrLe-trans : (s t u : String) → StrLe s t → StrLe t u → StrLe s u
unfolding str_less
StrLe-trans s t u = codes_less_trans (codes s) (codes t) (codes u)

pub StrLe-antisymm : (s t : String) → StrLe s t → StrLe t s → s ≡ t
unfolding str_less
StrLe-antisymm s t h k = codes-injective s t (codes_less_antisymm (codes s) (codes t) k h)

-- The texts put together in a row, as `fmt.Sprintf` does with its verbs filled in.
unfoldable pub sprint : List String → String
sprint [] = ""
sprint (s ∷ rest) = String.◌++◌ s (sprint rest)

-- `strings.Join`
unfoldable pub join : String → List String → String
join sep [] = ""
join sep (s ∷ []) = s
join sep (s ∷ t ∷ rest) = String.◌++◌ s (String.◌++◌ sep (join sep (t ∷ rest)))
