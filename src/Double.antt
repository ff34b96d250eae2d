-- ===== src/Double.antt =====
-- The `double` of the program's costs and balances, as IEEE 754 has it: a finite double is a whole
-- number of units of 2^-1074, and a result is the exact one rounded to 53 significant bits, to even in
-- the middle. Infinities, NaN and the sign of zero have no counterpart here.
use stock_app.Common.{
  ◌≡◌, refl, ℕ, zero, suc, ◌+◌, ◌*◌, ◌/◌, ◌%◌, ◌^◌, Bool, true, false, ltb, if◌then◌else◌,
}
use stock_app.Common.Int.{ℤ, pos, negsuc, ◌+ℤ◌, ◌-ℤ◌, ◌*ℤ◌, abs_ℤ, int_laws}

abbrev pub Double : Type 0
Double = ℤ

abbrev pub units : ℕ
units = 2 ^ 1074

-- By how many bits a number is too long. The fuel is above the 2098 bits of the largest double and
-- the 31 more of its product with an int32.
unfoldable pub excess : ℕ → ℕ → ℕ
excess zero n = 0
excess (suc fuel) n = elim (ltb n (2 ^ 53)) [ true ↦ 0 | false ↦ suc (excess fuel (n / 2)) ]

-- The nearest multiple of a power of two, which is `unit`.
abbrev nearest : ℕ → ℕ → ℕ
nearest unit n =
    if ltb (2 * (n % unit)) unit
    then n / unit * unit
    else if ltb unit (2 * (n % unit))
    then (n / unit + 1) * unit
    else (n / unit + n / unit % 2) * unit

unfoldable pub rounded : ℤ → Double
unfolding excess
rounded (pos n) = pos (nearest (2 ^ excess 2200 n) n)
rounded (negsuc n) = pos 0 -ℤ pos (nearest (2 ^ excess 2200 (suc n)) (suc n))

infixl 65 ◌+ᵈ◌ ◌-ᵈ◌
unfoldable pub ◌+ᵈ◌ : Double → Double → Double
unfolding rounded
a +ᵈ b = rounded (a +ℤ b)

unfoldable pub ◌-ᵈ◌ : Double → Double → Double
unfolding rounded
a -ᵈ b = rounded (a -ℤ b)

-- An `int32_t` where a `double` is expected: no rounding is needed.
abbrev pub of_int : ℤ → Double
of_int n = n *ℤ pos units

-- The product of an `int32_t` and a `double`.
unfoldable pub times_int : ℤ → Double → Double
unfolding rounded
times_int n x = rounded (n *ℤ x)

-- EPSILON, the double that 1e-6 is
unfoldable pub epsilon : ℕ
epsilon = 4_722_366_482_869_645 * 2 ^ 1002

-- `std::fabs(a - b) < EPSILON`
unfoldable pub near : Double → Double → Bool
unfolding epsilon ◌-ᵈ◌
near a b = ltb (abs_ℤ (a -ᵈ b)) epsilon

-- 0.01
unfoldable pub hundredth : Double
hundredth = pos (5_764_607_523_034_235 * 2 ^ 1015)

-- A cost is near itself.
pub near_self : (x : Double) → near x x ≡ true
unfolding near ◌-ᵈ◌ rounded excess epsilon
near_self x = let nothing : x -ℤ x ≡ pos 0 = omega int_laws in rw nothing refl
