-- ===== src/Base/Decimals.antt =====
-- strconv.FormatUint in base 10.
use Prim.Native.Nat.{ℕ, zero, suc, ◌+◌, ◌/◌, ◌%◌}
use mathlib.Core.List.{[], ◌∷◌}
use workspace_service.Base.Strings.{Text}
use workspace_service.Base.Tests.{ltb, if◌then◌else◌}

-- The digits of a number below 10 ^ fuel, the last one in front.
unfoldable pub digits_from : ℕ → ℕ → Text
digits_from zero n = []
digits_from (suc fuel) n =
    let rest = digits_from fuel (n / 10) in
    if ltb n 10 then (b'0' + n) ∷ [] else (b'0' + n % 10) ∷ rest

-- strconv.FormatUint(n, 10), with the last digit in front: a uint64 has at most 20 digits.
unfoldable pub format_reversed : ℕ → Text
unfolding digits_from
format_reversed n = digits_from 20 n

unfoldable pub reverse_onto : Text → Text → Text
reverse_onto acc [] = acc
reverse_onto acc (c ∷ s) = reverse_onto (c ∷ acc) s

-- strconv.FormatUint(n, 10)
unfoldable pub format_uint : ℕ → Text
unfolding format_reversed reverse_onto
format_uint n = reverse_onto [] (format_reversed n)
