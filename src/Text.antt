-- ===== src/Text.antt =====
-- `strings.TrimSpace` of Go's standard library, as the code uses it: white space is Unicode's.
use Prim.Native.Char.{code}
use tidegauge_backend.Prelude.{
  ℕ, String, Bool, true, false, ◌||◌, ◌&&◌, leb, nat_eq, if◌then◌else◌, ◌≡◌, refl,
}

abbrev within : ℕ → ℕ → ℕ → Bool
within lo hi c = leb lo c && leb c hi

abbrev is_space : ℕ → Bool
is_space c =
    within 0x09 0x0d c
    || nat_eq c 0x20
    || nat_eq c 0x85
    || nat_eq c 0xa0
    || nat_eq c 0x1680
    || within 0x2000 0x200a c
    || within 0x2028 0x2029 c
    || nat_eq c 0x202f
    || nat_eq c 0x205f
    || nat_eq c 0x3000

trim_left : String → String
trim_left String.[] = String.[]
trim_left (String.◌∷◌ c s) = if is_space (code c) then trim_left s else String.◌∷◌ c s

abbrev is_empty : String → Bool
is_empty String.[] = true
is_empty (String.◌∷◌ c s) = false

trim_right : String → String
trim_right String.[] = String.[]
trim_right (String.◌∷◌ c s) =
    let rest = trim_right s in
    if is_space (code c) && is_empty rest then String.[] else String.◌∷◌ c rest

unfoldable pub trim_space : String → String
unfolding trim_left trim_right
trim_space s = trim_right (trim_left s)

trim_space_runs : trim_space " a b  " ≡ "a b"
unfolding trim_space
trim_space_runs = refl
