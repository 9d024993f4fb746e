-- ===== src/LoopPool/Rounds.antt =====
-- The loops are handed out in turn, and a hash always finds one.
use proto_rpc.Prelude.{
  ℕ, zero, suc, ◌+◌, ◌<◌, ◌≡◌, refl, sym, ap, ◌∙◌, Bool, true, Option, some, List, [], ◌∷◌, ◌++◌,
  arith, length, length-append, append_assoc, ◌>>=◌, leb, if◌then◌else◌, ◌==◌,
}
use proto_rpc.LoopPool.{LoopPool, loop_at, get_next_loop}

-- The loops of `n` calls of `getNextLoop`, and the pool after them.
pub hand_out : ℕ → LoopPool → Option (List ℕ × LoopPool)
hand_out zero p = some ([], p)
hand_out (suc n) p =
    get_next_loop p >>= λ (l, p'). hand_out n p' >>= λ (ls, p''). some (l ∷ ls, p'')

loop_at-append :
    (pre : List ℕ) (l : ℕ) (ls : List ℕ) → loop_at (length pre) (pre ++ (l ∷ ls)) ≡ some l
unfolding loop_at
loop_at-append [] l ls = refl
loop_at-append (k ∷ pre) l ls = loop_at-append pre l ls

module _ (p : LoopPool) (on : p.started ≡ true) where
  -- Where the next call goes after the loop behind `pre`.
  turn :
      (pre : List ℕ) (l : ℕ) (ls : List ℕ)
      → p.loops ≡ pre ++ (l ∷ ls)
      → get_next_loop (record p { next = length pre })
        ≡ some (
          l,
          record p { next = if leb (length p.loops) (length pre + 1) then 0 else length pre + 1 },
        )
  unfolding get_next_loop
  turn pre l ls e = rw (on, more, at) refl
    where
      more : (length p.loops == 0) ≡ Bool.false
      more = ground (arith, ap length e, length-append pre (l ∷ ls))

      at : loop_at (length pre) p.loops ≡ some l
      at = ap (loop_at (length pre)) e ∙ loop_at-append pre l ls

  rest_of_round :
      (pre : List ℕ) (l : ℕ) (ls : List ℕ)
      → p.loops ≡ pre ++ (l ∷ ls)
      → hand_out (suc (length ls)) (record p { next = length pre })
        ≡ some (l ∷ ls, record p { next = 0 })
  unfolding hand_out
  rest_of_round pre l [] e = rw (turn pre l [] e, last) refl
    where
      last : leb (length p.loops) (length pre + 1) ≡ true
      last = ground (arith, ap length e, length-append pre (l ∷ []))
  rest_of_round pre l (k ∷ ks) e =
      rw
        (
          turn pre l (k ∷ ks) e,
          more,
          sym longer,
          rest_of_round (pre ++ (l ∷ [])) k ks (e ∙ sym (append_assoc pre (l ∷ []) (k ∷ ks))),
        )
        refl
    where
      more : leb (length p.loops) (length pre + 1) ≡ Bool.false
      more = ground (arith, ap length e, length-append pre (l ∷ (k ∷ ks)))

      longer : length (pre ++ (l ∷ [])) ≡ length pre + 1
      longer = length-append pre (l ∷ [])

-- On a started pool with at least one loop whose next loop is the first, as many calls of
-- `getNextLoop` as there are loops do not abort, hand out each of the loops once, in order, and
-- leave the pool as it was.
hand_out-round :
    (p : LoopPool)
    → p.started ≡ true
    → p.next ≡ 0
    → 0 < length p.loops
    → hand_out (length p.loops) p ≡ some (p.loops, p)
hand_out-round p on z some_loop = by_loops p.loops refl
  where
    at_first : record p { next = 0 } ≡ p
    at_first = ap (λ k. record p { next = k }) (sym z)

    by_loops : (ls : List ℕ) → p.loops ≡ ls → hand_out (length p.loops) p ≡ some (p.loops, p)
    by_loops [] e = absurd (omega (arith, ap length e))
    by_loops (l ∷ ls) e =
        ap (λ q. hand_out (length p.loops) q) (sym at_first)
        ∙ ap (λ xs. hand_out (length xs) (record p { next = 0 })) e
        ∙ rest_of_round p on [] l ls e
        ∙ ap (λ xs. some (xs, record p { next = 0 })) (sym e)
        ∙ ap (λ q. some (p.loops, q)) at_first
