-- ===== src/Prelude/Strings.antt =====
-- Strings as lists of character codes: comparison, and `snprintf` into a buffer.
use Prim.Native.Nat.{ℕ, ◌-◌}
use mathlib.Core.Path.{◌≡◌, refl, ap₂}
use mathlib.Core.Bool.{Bool, true, false, ◌&&◌}
use mathlib.Core.List.{List, [], ◌∷◌, ◌++◌}
use proto_rpc.Prelude.Lists.{take}
use proto_rpc.Prelude.Tests.{◌==◌, ==_refl, ==_iff}

pub equal_bytes : List ℕ → List ℕ → Bool
equal_bytes [] [] = true
equal_bytes (x ∷ xs) (y ∷ ys) = x == y && equal_bytes xs ys
equal_bytes _ _ = false

pub equal_bytes_refl : (xs : List ℕ) → equal_bytes xs xs ≡ true
unfolding equal_bytes
equal_bytes_refl [] = refl
equal_bytes_refl (x ∷ xs) = rw (==_refl x) (equal_bytes_refl xs)

pub equal_bytes→eq : (xs ys : List ℕ) → equal_bytes xs ys ≡ true → xs ≡ ys
unfolding equal_bytes
equal_bytes→eq [] [] h = refl
equal_bytes→eq [] (y ∷ ys) h = absurd (cc)
equal_bytes→eq (x ∷ xs) [] h = absurd (cc)
equal_bytes→eq (x ∷ xs) (y ∷ ys) h = by_head (x == y) (==_iff x y).0 (λ k. equal_bytes→eq xs ys k) h
  where
    by_head :
        (b : Bool)
        → (b ≡ true → x ≡ y)
        → (equal_bytes xs ys ≡ true → xs ≡ ys)
        → (b && equal_bytes xs ys) ≡ true
        → x ∷ xs ≡ y ∷ ys
    by_head true e f h = ap₂ ◌∷◌ (e refl) (f h)
    by_head false e f h = cc

-- What `snprintf` leaves in a buffer of `size` bytes: one is for the end of the string.
abbrev pub snprintf : ℕ → List ℕ → List ℕ
snprintf size text = take (size - 1) text

pub append-cancel_left : (xs ys zs : List ℕ) → xs ++ ys ≡ xs ++ zs → ys ≡ zs
append-cancel_left [] ys zs h = h
append-cancel_left (x ∷ xs) ys zs h = append-cancel_left xs ys zs (tails h)
  where
    tails : {us vs : List ℕ} → x ∷ us ≡ x ∷ vs → us ≡ vs
    tails h = cc
