-- ===== src/Prelude/Order.antt =====
-- The order of `String` in Rust: by bytes of UTF-8, which is the order by code points.
use Prim.Native.Char.{code}
use Prim.Native.String.{String}
use Prim.Native.Nat.{compare, Ordering}
use mathlib.Core.Path.{◌≡◌, refl}
use mathlib.Core.Bool.{Bool, true, false}
use native.Mathlib.Omega.{arith}
use text.Mathlib.TextEquality.{Char-path}

-- One clause for each way in which the first characters compare.
abbrev by_first : Ordering → Bool → Bool
by_first Ordering.lt rest = true
by_first Ordering.eq rest = rest
by_first Ordering.gt rest = false

unfoldable pub str_ltb : String → String → Bool
str_ltb String.[] String.[] = false
str_ltb String.[] (String.◌∷◌ d t) = true
str_ltb (String.◌∷◌ c s) String.[] = false
str_ltb (String.◌∷◌ c s) (String.◌∷◌ d t) =
    let rest = str_ltb s t in by_first (compare (code c) (code d)) rest

pub str_ltb_irrefl : (s : String) → str_ltb s s ≡ false
unfolding str_ltb
str_ltb_irrefl String.[] = refl
str_ltb_irrefl (String.◌∷◌ c s) = ground (arith, str_ltb_irrefl s)

pub str_ltb_trans : (s t u : String) → str_ltb s t ≡ true → str_ltb t u ≡ true → str_ltb s u ≡ true
unfolding str_ltb
str_ltb_trans String.[] String.[] u h k = cc
str_ltb_trans String.[] (String.◌∷◌ d t) String.[] h k = cc
str_ltb_trans String.[] (String.◌∷◌ d t) (String.◌∷◌ e u) h k = refl
str_ltb_trans (String.◌∷◌ c s) String.[] u h k = cc
str_ltb_trans (String.◌∷◌ c s) (String.◌∷◌ d t) String.[] h k = cc
str_ltb_trans (String.◌∷◌ c s) (String.◌∷◌ d t) (String.◌∷◌ e u) h k =
    ground (arith, str_ltb_trans s t u)

-- Of two texts that differ one is below the other.
pub str_ltb_total : (s t : String) → str_ltb s t ≡ false → str_ltb t s ≡ false → s ≡ t
unfolding str_ltb
str_ltb_total String.[] String.[] h k = refl
str_ltb_total String.[] (String.◌∷◌ d t) h k = cc
str_ltb_total (String.◌∷◌ c s) String.[] h k = cc
str_ltb_total (String.◌∷◌ c s) (String.◌∷◌ d t) h k =
    ground (arith, str_ltb_total s t, Char-path c d)
