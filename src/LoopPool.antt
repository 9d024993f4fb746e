-- ===== src/LoopPool.antt =====
-- network/include/network/EventLoopThreadPool.h and network/src/EventLoopThreadPool.cc: the event
-- loops of a server and the round robin on them. A loop is a number. The threads are not modelled:
-- what `startLoop` of the i-th thread gives is an argument.
pub mod Rounds
pub mod Ready
use proto_rpc.Prelude.{
  ℕ, zero, suc, ◌+◌, ◌%◌, Bool, true, false, not, ◌&&◌, Option, none, some, List, [], ◌∷◌, ◌++◌,
  ltb, leb, ◌==◌, if◌then◌else◌, length, ◌>>=◌, ◌>>◌, assert,
}

-- `initialised` logs the loops that the pool itself ran the callback on.
pub record LoopPool : Type 0 where
  pub base_loop : ℕ
  pub started : Bool
  pub num_threads : ℕ
  pub next : ℕ
  pub loops : List ℕ
  pub initialised : List ℕ

unfoldable pub new_loop_pool : ℕ → LoopPool
new_loop_pool base_loop = record {
  base_loop = base_loop;
  started = false;
  num_threads = 0;
  next = 0;
  loops = [];
  initialised = [];
}

unfoldable pub set_thread_num : ℕ → LoopPool → LoopPool
set_thread_num n p = record p { num_threads = n }

-- The loops of `n` threads, from the i-th.
unfoldable pub start_threads : (ℕ → ℕ) → ℕ → ℕ → List ℕ
start_threads start_loop i zero = []
start_threads start_loop i (suc n) = start_loop i ∷ start_threads start_loop (suc i) n

unfoldable pub start : (ℕ → ℕ) → Bool → LoopPool → Option LoopPool
start start_loop has_callback p = do
  assert (not p.started)
  some (record p {
    started = true;
    loops = p.loops ++ start_threads start_loop 0 p.num_threads;
    initialised =
        if p.num_threads == 0 && has_callback
        then p.initialised ++ (p.base_loop ∷ [])
        else p.initialised;
  })

-- `loops_[i]`; past the end it is a fault.
pub loop_at : ℕ → List ℕ → Option ℕ
loop_at i [] = none
loop_at zero (l ∷ ls) = some l
loop_at (suc i) (l ∷ ls) = loop_at i ls

pub get_next_loop : LoopPool → Option (ℕ × LoopPool)
get_next_loop p =
    assert p.started
    >> (if length p.loops == 0
        then some (p.base_loop, p)
        else (loop_at p.next p.loops >>= λ l.
            some
              (l, record p { next = if leb (length p.loops) (p.next + 1) then 0 else p.next + 1 })))

pub get_loop_for_hash : ℕ → LoopPool → Option ℕ
get_loop_for_hash hash p =
    if length p.loops == 0 then some p.base_loop else loop_at (hash % length p.loops) p.loops

pub get_all_loops : LoopPool → Option (List ℕ)
get_all_loops p =
    assert p.started >> some (if length p.loops == 0 then p.base_loop ∷ [] else p.loops)
