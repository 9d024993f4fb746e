-- ===== src/Prelude/Ids.antt =====
-- The numbers that a counter gives out, from one on.
use Prim.Native.Nat.{ℕ, ◌+◌, ◌≤◌}
use mathlib.Core.Path.{◌≡◌}
use mathlib.Core.Bool.{◌&&◌}
use native.Mathlib.Omega.{arith}
use proto_rpc.Prelude.Tests.{ltb, leb, ◌==◌, if◌then◌else◌}

-- Whether the number `k` was given out, where `next` is the next one.
abbrev pub made : ℕ → ℕ → ℕ
made k next = if leb 1 k && ltb k next then 1 else 0

pub made_next : (k n : ℕ) → 1 ≤ n → made k (n + 1) ≡ made k n + (if n == k then 1 else 0)
made_next k n h = ground arith

pub made_self : (n : ℕ) → made n n ≡ 0
made_self n = ground arith

pub made_none : (k : ℕ) → made k 1 ≡ 0
made_none k = ground arith
