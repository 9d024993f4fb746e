-- ===== src/Tests/ThreadTests.antt =====
-- A loop in `poll` that queued a functor before `loop()`, and to which another thread gave one functor that queues another one.
use proto_rpc.Prelude.{ℕ, ◌+◌, ◌≤◌, ◌≡◌, refl, List, [], ◌∷◌, ◌++◌, length, if◌then◌else◌, ◌==◌}
use proto_rpc.EventLoop.{new_event_loop, push_functor, wakeup, queue_in_loop}
use proto_rpc.EventLoop.Threads.{
  Threads, Reach, here, after, by_loop, queues_early, begins, other_pushes, other_wakes, polling,
  taken, polling-Awake, Reach-ordered,
}
use proto_rpc.EventLoop.Progress.{Runs, polling-Runs}

abbrev twice : ℕ → List ℕ
twice f = if◌then◌else◌ {A = List ℕ} (f == 1) (2 ∷ []) []

abbrev given : Threads
given = record {
  loop = wakeup (push_functor 1 (push_functor 3 new_event_loop));
  place = polling;
  waking = 0;
  early = 1;
  pushed = 3 ∷ 1 ∷ [];
}

given-Reach : Reach twice given
unfolding queue_in_loop push_functor wakeup new_event_loop
given-Reach =
    after (after (after (after here (by_loop (queues_early 3))) (by_loop begins)) (other_pushes 1))
      other_wakes

polling-Awake_example :
    length given.loop.pending_functors ≤ given.loop.wakeups + given.waking + given.early
polling-Awake_example = polling-Awake given-Reach refl

Reach-ordered_example :
    given.loop.executed ++ (taken given.place ++ given.loop.pending_functors) ≡ given.pushed
Reach-ordered_example = Reach-ordered given-Reach

polling-Runs_example :
    (u : Threads) × Runs twice given u × (u.place ≡ polling) × (u.loop.executed ≡ given.pushed)
polling-Runs_example = polling-Runs given-Reach refl
