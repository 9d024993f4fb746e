-- ===== src/EventLoop.antt =====
-- network/include/network/EventLoop.h and network/src/EventLoop.cc: the queue of functors of a loop
-- and its wakeups. A functor is a number, and `body` gives the functors that one queues when it
-- runs; handlers of channels are functions on the loop. `in_loop` says whether the caller runs in
-- the loop's thread. A method is one step, so calls of other threads fall between two of them.
pub mod Pending
pub mod Threads
pub mod Progress
pub mod Reactor
use proto_rpc.Prelude.{
  ℕ, ◌+◌, Bool, true, false, not, ◌||◌, List, [], ◌∷◌, ◌++◌, if◌then◌else◌, length, Option, some,
  ◌>>◌, assert,
}

-- `wakeups` is the counter of the eventfd, which `poll` returns for if it is not zero; `executed`
-- logs the functors that ran.
pub record EventLoop : Type 0 where
  pub looping : Bool
  pub quit_wanted : Bool
  pub event_handling : Bool
  pub calling_pending_functors : Bool
  pub iteration : ℕ
  pub wakeups : ℕ
  pub pending_functors : List ℕ
  pub executed : List ℕ

unfoldable pub new_event_loop : EventLoop
new_event_loop = record {
  looping = false;
  quit_wanted = false;
  event_handling = false;
  calling_pending_functors = false;
  iteration = 0;
  wakeups = 0;
  pending_functors = [];
  executed = [];
}

unfoldable pub wakeup : EventLoop → EventLoop
wakeup l = record l { wakeups = l.wakeups + 1 }

-- A read of the eventfd clears its counter.
pub handle_read : EventLoop → EventLoop
handle_read l = record l { wakeups = 0 }

-- The part of `queueInLoop` under the lock.
unfoldable pub push_functor : ℕ → EventLoop → EventLoop
push_functor functor l = record l { pending_functors = l.pending_functors ++ (functor ∷ []) }

unfoldable pub queue_in_loop : Bool → ℕ → EventLoop → EventLoop
queue_in_loop in_loop functor l =
    let queued = push_functor functor l in
    if not in_loop || l.calling_pending_functors then wakeup queued else queued

unfoldable pub quit : Bool → EventLoop → EventLoop
quit in_loop l = let l' = record l { quit_wanted = true } in if in_loop then l' else wakeup l'

-- `loop` before its first round, the test of each round, and its end.
unfoldable pub start_looping : EventLoop → Option EventLoop
start_looping l = assert (not l.looping) >> some (record l { looping = true; quit_wanted = false })

unfoldable pub goes_on : EventLoop → Bool
goes_on l = not l.quit_wanted

unfoldable pub stop_looping : EventLoop → EventLoop
stop_looping l = record l { looping = false }

pub queue_size : EventLoop → ℕ
queue_size l = length l.pending_functors

-- What a functor queues, from the loop's thread.
pub queue_all : List ℕ → EventLoop → EventLoop
queue_all [] l = l
queue_all (f ∷ fs) l = queue_all fs (queue_in_loop true f l)

pub handle_events : List (EventLoop → EventLoop) → EventLoop → EventLoop
handle_events [] l = l
handle_events (h ∷ hs) l = handle_events hs (h l)

-- `doPendingFunctors` before it runs the first functor, and after the last.
unfoldable pub swap_functors : EventLoop → EventLoop
swap_functors l = record l { calling_pending_functors = true; pending_functors = [] }

unfoldable pub finish_calling : EventLoop → EventLoop
finish_calling l = record l { calling_pending_functors = false }

module _ (body : ℕ → List ℕ) where
  pub run_functor : ℕ → EventLoop → EventLoop
  run_functor f l = queue_all (body f) (record l { executed = l.executed ++ (f ∷ []) })

  pub run_in_loop : Bool → ℕ → EventLoop → EventLoop
  run_in_loop in_loop f l = if in_loop then run_functor f l else queue_in_loop in_loop f l

  pub run_functors : List ℕ → EventLoop → EventLoop
  run_functors [] l = l
  run_functors (f ∷ fs) l = run_functors fs (run_functor f l)

  pub do_pending_functors : EventLoop → EventLoop
  do_pending_functors l = finish_calling (run_functors l.pending_functors (swap_functors l))

  -- One round of `loop`, after `poll` gave the channels with these handlers.
  pub loop_once : List (EventLoop → EventLoop) → EventLoop → EventLoop
  loop_once handlers l =
      let handled =
        handle_events handlers (record l { iteration = l.iteration + 1; event_handling = true }) in
      do_pending_functors (record handled { event_handling = false })
