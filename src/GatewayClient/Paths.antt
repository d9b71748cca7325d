-- ===== src/GatewayClient/Paths.antt =====
-- The paths of the gateway: singleJoiningSlash of internal/infra/gateway/websocket_proxy.go, sessionPath
-- and kernelPath of client.go, and url.PathEscape.
pub mod Segments
use Prim.Native.Nat.{◌/◌, ◌%◌}
use workspace_service.Base.{
  ℕ, ◌+◌, ◌*◌, Bool, false, ◌||◌, ◌&&◌, ◌==◌, ltb, leb, List, [], ◌∷◌, ◌++◌, Text, codes,
  if◌then◌else◌, contains,
}
use workspace_service.FilePath.{separator}

-- Whether the last character is a slash.
unfoldable pub ends_with_slash : Text → Bool
ends_with_slash [] = false
ends_with_slash (c ∷ []) = c == separator
ends_with_slash (c ∷ d ∷ s) = ends_with_slash (d ∷ s)

-- singleJoiningSlash
unfoldable pub single_joining_slash : Text → Text → Text
unfolding ends_with_slash
single_joining_slash [] b = b
single_joining_slash (c ∷ a) [] = c ∷ a
single_joining_slash (c ∷ a) (d ∷ b) =
    if ends_with_slash (c ∷ a)
    then (if d == separator then (c ∷ a) ++ b else (c ∷ a) ++ (d ∷ b))
    else if d == separator
    then (c ∷ a) ++ (d ∷ b)
    else (c ∷ a) ++ (separator ∷ d ∷ b)

-- The bytes of a code point in UTF-8.
unfoldable pub utf8 : ℕ → List ℕ
utf8 c =
    if ltb c 0x80
    then c ∷ []
    else if ltb c 0x800
    then (0xC0 + c / 64) ∷ (0x80 + c % 64) ∷ []
    else if ltb c 0x10000
    then (0xE0 + c / 4096) ∷ (0x80 + (c / 64) % 64) ∷ (0x80 + c % 64) ∷ []
    else (0xF0 + c / 262144)
      ∷ (0x80 + (c / 4096) % 64)
      ∷ (0x80 + (c / 64) % 64)
      ∷ (0x80 + c % 64)
      ∷ []

-- A digit of an escape, of a number below 16.
unfoldable pub upper_hex : ℕ → ℕ
upper_hex n = if ltb n 10 then b'0' + n else 55 + n

-- The bytes that PathEscape leaves alone: letters, digits, -_.~ and $&+=:@
unfoldable pub is_plain_byte : ℕ → Bool
unfolding contains
is_plain_byte b =
    (leb b'a' b && leb b b'z')
    || (leb b'A' b && leb b b'Z')
    || (leb b'0' b && leb b b'9')
    || contains b (codes "-_.~$&+=:@")

unfoldable pub escape_bytes : List ℕ → Text
unfolding upper_hex is_plain_byte
escape_bytes [] = []
escape_bytes (b ∷ bytes) =
    let rest = escape_bytes bytes in
    if is_plain_byte b then b ∷ rest else 37 ∷ upper_hex (b / 16) ∷ upper_hex (b % 16) ∷ rest

-- url.PathEscape
unfoldable pub path_escape : Text → Text
unfolding escape_bytes utf8
path_escape [] = []
path_escape (c ∷ s) = escape_bytes (utf8 c) ++ path_escape s

abbrev pub kernels_endpoint : Text
kernels_endpoint = codes "/api/kernels"

abbrev pub sessions_endpoint : Text
sessions_endpoint = codes "/api/sessions"

abbrev pub kernel_specs_endpoint : Text
kernel_specs_endpoint = codes "/api/kernelspecs"

-- sessionPath
unfoldable pub session_path : Text → Text
unfolding path_escape
session_path session_id = sessions_endpoint ++ (separator ∷ path_escape session_id)

-- kernelPath
unfoldable pub kernel_path : Text → Text
unfolding path_escape
kernel_path kernel_id = kernels_endpoint ++ (separator ∷ path_escape kernel_id)
