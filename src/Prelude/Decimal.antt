-- ===== src/Prelude/Decimal.antt =====
-- The decimal print of an integer, as `printf` writes `%u` and a `%d` that is not negative: at most
-- ten digits, those of a 32-bit integer.
use native.Mathlib.Nat.{pow-suc}
use proto_rpc.Prelude.Lists.{length, length-append}
use Prim.Native.Nat.{ℕ, zero, suc, ◌+◌, ◌-◌, ◌*◌, ◌/◌, ◌%◌, ◌^◌, ◌≤◌, ◌<◌}
use mathlib.Core.Path.{◌≡◌, refl}
use mathlib.Core.List.{List, [], ◌∷◌, ◌++◌}
use native.Mathlib.Omega.{arith}
use proto_rpc.Prelude.Tests.{ltb, if◌then◌else◌}

digits : ℕ → ℕ → List ℕ
digits zero n = []
digits (suc k) n = if ltb n 10 then (48 + n) ∷ [] else digits k (n / 10) ++ ((48 + n % 10) ∷ [])

pub decimal : ℕ → List ℕ
unfolding digits
decimal n = digits 10 n

-- The number that a text of digits stands for.
value_from : ℕ → List ℕ → ℕ
value_from acc [] = acc
value_from acc (c ∷ cs) = value_from (acc * 10 + (c - 48)) cs

pub value : List ℕ → ℕ
unfolding value_from
value cs = value_from 0 cs

value_from-append :
    (acc c : ℕ) (cs : List ℕ) → value_from acc (cs ++ (c ∷ [])) ≡ value_from acc cs * 10 + (c - 48)
unfolding value_from
value_from-append acc c [] = refl
value_from-append acc c (d ∷ cs) = value_from-append (acc * 10 + (d - 48)) c cs

value-digits : (k n : ℕ) → n < 10 ^ suc k → value_from 0 (digits (suc k) n) ≡ n
unfolding value_from digits
value-digits zero n h = ground arith
value-digits (suc k) n h = ground (
  arith,
  value_from-append 0 (48 + n % 10) (digits (suc k) (n / 10)),
  value-digits k (n / 10) (omega (arith, pow-suc 10 (suc k), pow-suc 10 k)),
)

-- The print of a number of ten digits at most is read back.
pub value-decimal : (n : ℕ) → n < 10 ^ 10 → value (decimal n) ≡ n
unfolding value decimal
value-decimal n h = value-digits 9 n h

length-digits : (k m n : ℕ) → n < 10 ^ suc m → length (digits k n) ≤ suc m
unfolding digits
length-digits zero m n h = omega arith
length-digits (suc k) zero n h = ground arith
length-digits (suc k) (suc m) n h = ground (
  arith,
  length-append (digits k (n / 10)) ((48 + n % 10) ∷ []),
  length-digits k m (n / 10) (omega (arith, pow-suc 10 (suc m), pow-suc 10 m)),
)

-- A number below 10^(m+1) has at most m + 1 digits.
pub length-decimal : (m n : ℕ) → n < 10 ^ suc m → length (decimal n) ≤ suc m
unfolding decimal
length-decimal m n h = length-digits 10 m n h
