-- ===== src/Paths.antt =====
-- `filepath.Ext` on a system whose separator is '/', and prefixes of texts.
use Prim.Native.Char.{code}
use star_car.Prelude.{◌≡◌, refl, String, ◌==◌, Bool, true, false, ◌&&◌, eqb, if◌then◌else◌}

-- The suffix that begins at the last dot.
unfoldable pub ext : String → String
ext String.[] = ""
ext (String.◌∷◌ c s) =
    let rest = ext s in
    if rest == "" then if eqb (code c) b'.' then String.◌∷◌ c s else "" else rest

ext_test : ext "a.b.json" ≡ ".json"
unfolding ext
ext_test = refl

-- `strings.HasPrefix`
unfoldable pub has_prefix : String → String → Bool
has_prefix s String.[] = true
has_prefix String.[] (String.◌∷◌ d t) = false
has_prefix (String.◌∷◌ c s) (String.◌∷◌ d t) = eqb (code c) (code d) && has_prefix s t

-- `strings.TrimPrefix` of a prefix that is there: what follows it.
unfoldable pub trim_prefix : String → String → String
trim_prefix s String.[] = s
trim_prefix String.[] (String.◌∷◌ d t) = ""
trim_prefix (String.◌∷◌ c s) (String.◌∷◌ d t) = trim_prefix s t
