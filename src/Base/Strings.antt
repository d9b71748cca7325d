-- ===== src/Base/Strings.antt =====
-- Go strings: the list of the code points of a valid UTF-8 text, and the functions of package
-- strings that the program calls.
use Prim.Native.Char.{code}
use Prim.Native.Nat.{ℕ, ◌+◌}
use Prim.Native.String.{String}
use mathlib.Core.Path.{◌≡◌, refl}
use mathlib.Core.Logic.{◌↔◌}
use mathlib.Core.Bool.{Bool, true, false, ◌&&◌, ◌||◌}
use mathlib.Core.List.{List, [], ◌∷◌, ◌++◌, map, reverse}
use native.Mathlib.Omega.{arith}
use workspace_service.Base.Tests.{leb, ◌==◌, if◌then◌else◌}
use workspace_service.Base.Lists.{is_empty}

abbrev pub Text : Type 0
Text = List ℕ

-- A literal of the source.
abbrev pub codes : String → Text
codes String.[] = []
codes (String.◌∷◌ c s) = code c ∷ codes s

unfoldable pub text_eq : Text → Text → Bool
text_eq [] [] = true
text_eq [] (d ∷ t) = false
text_eq (c ∷ s) [] = false
text_eq (c ∷ s) (d ∷ t) = c == d && text_eq s t

-- unicode.IsSpace
unfoldable pub is_space : ℕ → Bool
is_space c =
    (leb 9 c && leb c 13)
    || c == 32
    || c == 0x85
    || c == 0xA0
    || c == 0x1680
    || (leb 0x2000 c && leb c 0x200A)
    || c == 0x2028
    || c == 0x2029
    || c == 0x202F
    || c == 0x205F
    || c == 0x3000

unfoldable pub trim_left : Text → Text
trim_left [] = []
trim_left (c ∷ s) = let rest = trim_left s in if is_space c then rest else c ∷ s

unfoldable pub trim_right : Text → Text
trim_right [] = []
trim_right (c ∷ s) = let rest = trim_right s in if is_space c && is_empty rest then [] else c ∷ rest

-- strings.TrimSpace
unfoldable pub trim_space : Text → Text
unfolding trim_left trim_right is_space
trim_space s = trim_right (trim_left s)

-- strings.HasPrefix(s, prefix), with the prefix first
unfoldable pub has_prefix : Text → Text → Bool
has_prefix [] s = true
has_prefix (c ∷ p) [] = false
has_prefix (c ∷ p) (d ∷ s) = c == d && has_prefix p s

-- strings.HasSuffix(s, suffix), with the suffix first
unfoldable pub has_suffix : Text → Text → Bool
unfolding has_prefix
has_suffix p s = has_prefix (reverse p) (reverse s)

-- unicode.ToLower on ASCII, and on the other code points whose lower case is ASCII. The rest are
-- left alone: the program compares the result with ASCII texts only.
unfoldable pub to_lower_rune : ℕ → ℕ
to_lower_rune c =
    if leb b'A' c && leb c b'Z'
    then c + 32
    else if c == 0x212A
    then b'k'
    else if c == 0x130
    then b'i'
    else c

-- strings.ToLower
unfoldable pub to_lower : Text → Text
unfolding to_lower_rune
to_lower s = map to_lower_rune s

unfoldable pub contains : ℕ → Text → Bool
contains c [] = false
contains c (d ∷ s) = c == d || contains c s

pub contains-append :
    (x : ℕ) (s t : Text) → contains x s ≡ false → contains x t ≡ false → contains x (s ++ t) ≡ false
unfolding contains
contains-append x [] t h k = k
contains-append x (d ∷ s) t h k = ground (arith, contains-append x s t)

-- strings.ContainsAny(s, chars), with the characters first
unfoldable pub contains_any : Text → Text → Bool
unfolding contains
contains_any [] s = false
contains_any (c ∷ cs) s = contains c s || contains_any cs s

-- strings.ReplaceAll(s, old, new) for an old text of one character
unfoldable pub replace_all : ℕ → Text → Text → Text
replace_all old new [] = []
replace_all old new (c ∷ s) =
    let rest = replace_all old new s in if c == old then new ++ rest else c ∷ rest

pub text_eq_iff : (s t : Text) → (text_eq s t ≡ true) ↔ (s ≡ t)
unfolding text_eq
text_eq_iff [] [] = (λ _. refl, λ _. refl)
text_eq_iff [] (d ∷ t) = (λ h. cc, λ h. cc)
text_eq_iff (c ∷ s) [] = (λ h. cc, λ h. cc)
text_eq_iff (c ∷ s) (d ∷ t) =
    (λ h. ground (arith, text_eq_iff s t), λ h. ground (arith, text_eq_iff s t))

pub text_eq_refl : (s : Text) → text_eq s s ≡ true
text_eq_refl s = (text_eq_iff s s).1 refl
