-- ===== src/GatewayClient/Paths/Segments.antt =====
-- An escaped id is one segment of a path, and its bytes can be read back.
use Prim.Native.Nat.{◌/◌, ◌%◌}
use workspace_service.Base.{
  ◌≡◌, refl, ap, ◌∙◌, ℕ, ◌+◌, ◌*◌, ◌-◌, ◌<◌, Bool, true, false, ◌||◌, ◌&&◌, ◌==◌, ltb, List, [],
  ◌∷◌, ◌++◌, Text, contains, if◌then◌else◌, arith,
}
use workspace_service.FilePath.{separator}
use workspace_service.GatewayClient.Paths.{
  utf8, upper_hex, is_plain_byte, escape_bytes, path_escape, session_path, sessions_endpoint,
  kernel_path, kernels_endpoint,
}

-- The value of a digit of an escape.
unfoldable pub unhex : ℕ → ℕ
unhex c = if ltb c 58 then c - 48 else c - 55

-- The phases of reading: outside of an escape, before its first digit, before its second one with
-- the value of the first.
pub data Phase : Type 0 where
  outside : Phase
  first : Phase
  second : ℕ → Phase

unfoldable pub unescape_in : Phase → Text → List ℕ
unfolding unhex
unescape_in phase [] = []
unescape_in outside (c ∷ s) =
    let in_escape = unescape_in first s in
    let rest = unescape_in outside s in if c == 37 then in_escape else c ∷ rest
unescape_in first (c ∷ s) = unescape_in (second (unhex c)) s
unescape_in (second high) (c ∷ s) = (16 * high + unhex c) ∷ unescape_in outside s

-- url.PathUnescape of a text that is escaped, as bytes.
unfoldable pub path_unescape : Text → List ℕ
unfolding unescape_in
path_unescape s = unescape_in outside s

-- The bytes of a text.
unfoldable pub bytes_of : Text → List ℕ
unfolding utf8
bytes_of [] = []
bytes_of (c ∷ s) = utf8 c ++ bytes_of s

contains-append : (c : ℕ) (s t : Text) → contains c (s ++ t) ≡ (contains c s || contains c t)
unfolding contains
contains-append c [] t = refl
contains-append c (d ∷ s) t = ground (arith, contains-append c s t)

contains-escape_bytes : (bytes : List ℕ) → contains separator (escape_bytes bytes) ≡ false
unfolding contains escape_bytes is_plain_byte upper_hex
contains-escape_bytes [] = refl
contains-escape_bytes (b ∷ bytes) = ground (arith, contains-escape_bytes bytes)

contains-path_escape : (s : Text) → contains separator (path_escape s) ≡ false
unfolding path_escape contains
contains-path_escape [] = refl
contains-path_escape (c ∷ s) = ground (
  arith,
  contains-append separator (escape_bytes (utf8 c)) (path_escape s),
  contains-escape_bytes (utf8 c),
  contains-path_escape s,
)

unhex-upper_hex : (n : ℕ) → n < 16 → unhex (upper_hex n) ≡ n
unfolding unhex upper_hex
unhex-upper_hex n h = ground arith

are_bytes : List ℕ → Bool
are_bytes [] = true
are_bytes (b ∷ bytes) = ltb b 256 && are_bytes bytes

utf8-are_bytes : (c : ℕ) → c < 0x110000 → are_bytes (utf8 c) ≡ true
unfolding utf8 are_bytes
utf8-are_bytes c h = ground arith

escaped_byte :
    (b : ℕ) (t : Text)
    → b < 256
    → unescape_in outside (37 ∷ upper_hex (b / 16) ∷ upper_hex (b % 16) ∷ t)
      ≡ b ∷ unescape_in outside t
unfolding unescape_in
escaped_byte b t h =
    let whole : 16 * (b / 16) + b % 16 ≡ b = omega arith in
    rw (unhex-upper_hex (b / 16) (omega arith), unhex-upper_hex (b % 16) (omega arith), whole) refl

unescape_in-escape_bytes :
    (bytes : List ℕ) (t : Text)
    → are_bytes bytes ≡ true
    → unescape_in outside (escape_bytes bytes ++ t) ≡ bytes ++ unescape_in outside t
unfolding unescape_in escape_bytes is_plain_byte are_bytes
unescape_in-escape_bytes [] t h = refl
unescape_in-escape_bytes (b ∷ bytes) t h =
    ground (arith, escaped_byte b (escape_bytes bytes ++ t), unescape_in-escape_bytes bytes t)

-- Every character is a code point of Unicode.
unfoldable pub are_runes : Text → Bool
are_runes [] = true
are_runes (c ∷ s) = ltb c 0x110000 && are_runes s

unescape_in-path_escape :
    (s : Text) → are_runes s ≡ true → unescape_in outside (path_escape s) ≡ bytes_of s
unfolding path_escape bytes_of are_runes unescape_in
unescape_in-path_escape [] h = refl
unescape_in-path_escape (c ∷ s) h =
    let small : c < 0x110000 = ground arith in
    unescape_in-escape_bytes (utf8 c) (path_escape s) (utf8-are_bytes c small)
    ∙ ap (λ t. utf8 c ++ t) (unescape_in-path_escape s (ground arith))

-- The path is the endpoint, a slash, and one segment that stands for the id.
abbrev pub IsOneSegment : Text → Text → Text → Type 0
IsOneSegment endpoint id path =
    (segment : Text) × (path ≡ endpoint ++ (separator ∷ segment))
    × (contains separator segment ≡ false)
    × (path_unescape segment ≡ bytes_of id)

-- For an id of Unicode code points, the paths of a session and of a kernel are the endpoint, a
-- slash, and one segment without a slash, from which the bytes of the id can be read back.
pub session_path-IsOneSegment :
    (id : Text)
    → are_runes id ≡ true
    → IsOneSegment sessions_endpoint id (session_path id)
      × IsOneSegment kernels_endpoint id (kernel_path id)
unfolding session_path kernel_path path_unescape
session_path-IsOneSegment id h =
    let unescaped = unescape_in-path_escape id h in
    (
      (path_escape id, refl, contains-path_escape id, unescaped),
      (path_escape id, refl, contains-path_escape id, unescaped),
    )
