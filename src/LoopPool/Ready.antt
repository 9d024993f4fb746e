-- ===== src/LoopPool/Ready.antt =====
-- When `getNextLoop` of network/src/EventLoopThreadPool.cc has a loop to hand out.
use proto_rpc.Prelude.{
  ℕ, zero, suc, ◌+◌, ◌<◌, ◌≡◌, refl, ◌⊎◌, inl, inr, true, false, some, List, [], ◌∷◌, arith, length,
  leb, if◌then◌else◌, ◌==◌,
}
use proto_rpc.LoopPool.{LoopPool, loop_at, get_next_loop}

pub record IsReady (p : LoopPool) : Type 0 where
  pub on : p.started ≡ true
  pub in_range : (p.next < length p.loops) ⊎ (length p.loops ≡ 0)

loop_at-some : (i : ℕ) (ls : List ℕ) → i < length ls → (l : ℕ) × (loop_at i ls ≡ some l)
unfolding loop_at
loop_at-some i [] h = absurd (omega arith)
loop_at-some zero (l ∷ ls) h = (l, refl)
loop_at-some (suc i) (l ∷ ls) h = loop_at-some i ls (omega arith)

pub get_next_loop-IsReady :
    (p : LoopPool)
    → IsReady p
    → (l : ℕ) × (p' : LoopPool) × (get_next_loop p ≡ some (l, p')) × IsReady p'
unfolding get_next_loop
get_next_loop-IsReady p r = elim r.in_range [
  | inr e ↦ (p.base_loop, p, rw (r.on, e) refl, r)
  | inl h ↦ (
    (loop_at-some p.next p.loops h).0,
    record p { next = if leb (length p.loops) (p.next + 1) then 0 else p.next + 1 },
    rw (r.on, not_empty h, (loop_at-some p.next p.loops h).1) refl,
    record { on = r.on; in_range = inl (stays h) },
  )
]
  where
    not_empty : p.next < length p.loops → (length p.loops == 0) ≡ false
    not_empty h = ground arith

    stays :
        p.next < length p.loops
        → (if leb (length p.loops) (p.next + 1) then 0 else p.next + 1) < length p.loops
    stays h = ground arith
