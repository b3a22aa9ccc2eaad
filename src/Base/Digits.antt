-- ===== src/Base/Digits.antt =====
-- `to_string` and `parse` of unsigned integers.
use Prim.Native.Nat.{ℕ, zero, suc, ◌+◌, ◌-◌, ◌*◌, ◌/◌, ◌%◌}
use mathlib.Core.Path.{◌≡◌, refl}
use mathlib.Core.Bool.{Bool, ◌&&◌}
use mathlib.Core.Option.{Option, none, some}
use mathlib.Core.List.{[], ◌∷◌}
use containerd_wasm.Base.Tests.{◌==◌, leb, ltb, if◌then◌else◌}
use containerd_wasm.Base.Bytes.{Text, codes}

digits_from : ℕ → ℕ → Text → Text
digits_from zero n acc = acc
digits_from (suc fuel) n acc =
    let acc' = (b'0' + n % 10) ∷ acc in
    let more = digits_from fuel (n / 10) acc' in if ltb n 10 then acc' else more

-- `n.to_string()`. Twenty rounds print every 64-bit number.
unfoldable pub print_nat : ℕ → Text
unfolding digits_from
print_nat n = digits_from 20 n []

is_digit : ℕ → Bool
is_digit c = leb b'0' c && leb c b'9'

parse_from : ℕ → ℕ → Text → Option ℕ
unfolding is_digit
parse_from max acc [] = some acc
parse_from max acc (c ∷ s) =
    let acc' = acc * 10 + (c - b'0') in
    let rest = parse_from max acc' s in if is_digit c && leb acc' max then rest else none

abbrev parse_unsigned : ℕ → Text → Option ℕ
unfolding parse_from
parse_unsigned max [] = none
parse_unsigned max (c ∷ s) = parse_from max 0 (c ∷ s)

-- `s.parse::<uN>().ok()` for the type whose greatest value is `max`: digits behind at most one `+`.
unfoldable pub parse_nat : ℕ → Text → Option ℕ
unfolding parse_unsigned
parse_nat max [] = none
parse_nat max (c ∷ s) = if c == b'+' then parse_unsigned max s else parse_unsigned max (c ∷ s)

parse_nat_examples :
    (parse_nat 255 (codes "255") ≡ some 255)
    × (parse_nat 255 (codes "256") ≡ none)
    × (parse_nat 255 (codes "+7") ≡ some 7)
    × (parse_nat 255 (codes "") ≡ none)
    × (print_nat 1207 ≡ codes "1207")
unfolding parse_nat print_nat
parse_nat_examples = (refl, refl, refl, refl, refl)
