-- ===== src/Base/Number.antt =====
-- `Number(bigint)` and the sum of two numbers: the double that is nearest to a natural number, and the
-- even one of two that are as near.
use Prim.Native.Nat.{ℕ, zero, suc, ◌+◌, ◌*◌, ◌/◌, ◌%◌, ◌^◌, ◌<◌}
use mathlib.Core.Path.{◌≡◌, refl}
use agon_protocol.Base.Test.{ltb, if◌then◌else◌, lt→ltb}

-- How far apart the doubles around a number are. A double has at most 971 bits behind its 53.
unfoldable pub spacing_loop : ℕ → ℕ → ℕ → ℕ
spacing_loop zero value spacing = spacing
spacing_loop (suc rounds) value spacing =
    let rest = spacing_loop rounds value (spacing * 2) in
    if ltb value (2 ^ 53 * spacing) then spacing else rest

-- The multiple of the spacing that is nearest.
unfoldable pub nearest_multiple : ℕ → ℕ → ℕ
nearest_multiple spacing value =
    let quotient = value / spacing in
    let twice = value % spacing * 2 in
    if ltb twice spacing
    then quotient * spacing
    else if ltb spacing twice
    then (quotient + 1) * spacing
    else (quotient + quotient % 2) * spacing

unfoldable pub as_number : ℕ → ℕ
as_number value =
    if ltb value (2 ^ 53) then value else nearest_multiple (spacing_loop 971 value 1) value

pub as_number_safe : (value : ℕ) → value < 2 ^ 53 → as_number value ≡ value
unfolding as_number
as_number_safe value h = rw (lt→ltb value (2 ^ 53) h) refl
