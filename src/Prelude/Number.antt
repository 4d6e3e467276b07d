-- ===== src/Prelude/Number.antt =====
-- JavaScript numbers as the options carry them: every finite double is a fraction.
use Prim.Native.Nat.{ℕ, suc, ◌-◌, ◌*◌, ◌/◌, max}
use mathlib.Core.Bool.{Bool, true, false}
use mathlib.Core.Option.{Option, none, some}
use weisley_rpc_framework.Prelude.Branch.{ltb, leb, if◌then◌else◌}

-- `fraction n d` is n / (d + 1), and `negative n d` is -(n + 1) / (d + 1).
pub data Number : Type 0 where
  nan infinity neg_infinity : Number
  fraction negative : ℕ → ℕ → Number

abbrev pub integer : ℕ → Number
integer n = fraction n 0

-- `Number.isFinite(x)`
abbrev pub is_finite : Number → Bool
is_finite (fraction n d) = true
is_finite (negative n d) = true
is_finite _ = false

-- `Math.max(lo, Math.floor(x))` of a finite number x, for a lower limit that is not negative.
abbrev pub floor_at_least : ℕ → Number → ℕ
floor_at_least lo (fraction n d) = max lo (n / suc d)
floor_at_least lo _ = lo

-- `Math.max(lo, Math.floor(x))` where that is a natural number: not for NaN and Infinity, which
-- stay what they are.
abbrev pub limit_at_least : ℕ → Number → Option ℕ
limit_at_least lo nan = none
limit_at_least lo infinity = none
limit_at_least lo (fraction n d) = some (max lo (n / suc d))
limit_at_least lo _ = some lo

-- `n < x`
abbrev pub nat_lt : ℕ → Number → Bool
nat_lt n (fraction m d) = ltb (n * suc d) m
nat_lt n infinity = true
nat_lt n _ = false

-- `x <= 0`
abbrev pub is_nonpositive : Number → Bool
is_nonpositive (fraction n d) = leb n 0
is_nonpositive (negative n d) = true
is_nonpositive neg_infinity = true
is_nonpositive _ = false

-- `n >= x`
abbrev pub nat_ge : ℕ → Number → Bool
nat_ge n (fraction m d) = leb m (n * suc d)
nat_ge n (negative m d) = true
nat_ge n neg_infinity = true
nat_ge n _ = false

-- `Math.floor(x)` of a finite number x that is not negative.
abbrev pub floor : Number → ℕ
floor (fraction n d) = n / suc d
floor _ = 0

-- `x * f` for a whole number f above 0, without rounding.
abbrev pub scale : ℕ → Number → Number
scale f (fraction n d) = fraction (n * f) d
scale f (negative n d) = negative (suc n * f - 1) d
scale f x = x

-- `Math.min(x, y)`
abbrev pub min_number : Number → Number → Number
min_number nan y = nan
min_number infinity y = y
min_number neg_infinity nan = nan
min_number neg_infinity y = neg_infinity
min_number (fraction n d) (fraction m c) =
    if ltb (m * suc d) (n * suc c) then fraction m c else fraction n d
min_number (fraction n d) infinity = fraction n d
min_number (fraction n d) y = y
min_number (negative n d) (negative m c) =
    if ltb (suc n * suc c) (suc m * suc d) then negative m c else negative n d
min_number (negative n d) nan = nan
min_number (negative n d) neg_infinity = neg_infinity
min_number (negative n d) y = negative n d

-- `n > x`
abbrev pub nat_gt : ℕ → Number → Bool
nat_gt n (fraction m d) = ltb m (n * suc d)
nat_gt n (negative m d) = true
nat_gt n neg_infinity = true
nat_gt n _ = false

-- `!x`
abbrev pub is_falsy : Number → Bool
is_falsy nan = true
is_falsy (fraction n d) = leb n 0
is_falsy _ = false
