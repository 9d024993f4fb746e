-- ===== src/EventLoop/Progress.antt =====
-- A round of the loop's thread (network/src/EventLoop.cc) among the interleaved threads.
use proto_rpc.Prelude.{
  ℕ, ◌≡◌, refl, sym, ap, subst, ◌∙◌, List, [], ◌∷◌, ◌++◌, append_assoc, append-nil, true,
}
use proto_rpc.EventLoop.{EventLoop, queue_in_loop, swap_functors, finish_calling}
use proto_rpc.EventLoop.Threads.{
  Threads, polling, calling, LoopStep, poll_returns, swaps, runs, functor_queues, finishes, Reach,
  Reach-ordered, taken, queue_in_loop-executed,
}

-- The steps of the loop's thread alone.
pub data Runs (body : ℕ → List ℕ) (t : Threads) : Threads → Type 0 where
  stays : Runs body t t
  goes : {u u' : Threads} → Runs body t u → LoopStep body u u' → Runs body t u'

-- Where the loop's thread has called all that it took.
finish_own :
    (body : ℕ → List ℕ) (own rest : List ℕ) (t : Threads) (l : EventLoop) (k n : ℕ) (log : List ℕ)
    → Runs body t
        (record { loop = l; place = calling own rest; waking = k; early = n; pushed = log })
    → (l' : EventLoop) × (log' : List ℕ) × Runs body t
        (record { loop = l'; place = calling [] rest; waking = k; early = n; pushed = log' })
      × (l'.executed ≡ l.executed)
finish_own body [] rest t l k n log r = (l, log, r, refl)
finish_own body (g ∷ own) rest t l k n log r =
    let (l', log', r', e) =
      finish_own body own rest t (queue_in_loop true g l) k n (log ++ (g ∷ []))
        (goes r (functor_queues g own rest)) in
    (l', log', r', e ∙ queue_in_loop-executed g l)

finish_rest :
    (body : ℕ → List ℕ) (rest : List ℕ) (t : Threads) (l : EventLoop) (k n : ℕ) (log : List ℕ)
    → Runs body t
        (record { loop = l; place = calling [] rest; waking = k; early = n; pushed = log })
    → (l' : EventLoop) × (log' : List ℕ) × Runs body t
        (record { loop = l'; place = polling; waking = k; early = n; pushed = log' })
      × (l'.executed ≡ l.executed ++ rest)
unfolding finish_calling
finish_rest body [] t l k n log r =
    (finish_calling l, log, goes r finishes, sym (append-nil l.executed))
finish_rest body (f ∷ rest) t l k n log r =
    let (l₁, log₁, r₁, e₁) =
      finish_own body (body f) rest t (record l { executed = l.executed ++ (f ∷ []) }) k n log
        (goes r (runs f rest)) in
    let (l₂, log₂, r₂, e₂) = finish_rest body rest t l₁ k n log₁ r₁ in
    (l₂, log₂, r₂, e₂ ∙ ap (λ u. u ++ rest) e₁ ∙ append_assoc l.executed (f ∷ []) rest)

-- From any state that the interleaved threads reach in which the loop's thread is in `poll`, steps
-- of the loop's thread alone lead back to `poll` with every functor executed that had been pushed
-- before, in order, and nothing else.
pub polling-Runs :
    {body : ℕ → List ℕ} {t : Threads}
    → Reach body t
    → t.place ≡ polling
    → (u : Threads) × Runs body t u × (u.place ≡ polling) × (u.loop.executed ≡ t.pushed)
unfolding taken swap_functors
polling-Runs {body} {t} h e =
    let (l', log', r, q) =
      finish_rest body t.loop.pending_functors t (swap_functors t.loop) t.waking 0 t.pushed (
        goes (goes (subst (λ p. Runs body t (record t { place = p })) e stays) poll_returns)
          swaps) in
    (
      record { loop = l'; place = polling; waking = t.waking; early = 0; pushed = log' },
      r,
      refl,
      q
          ∙ subst (λ p. t.loop.executed ++ (taken p ++ t.loop.pending_functors) ≡ t.pushed) e
              (Reach-ordered h),
    )
