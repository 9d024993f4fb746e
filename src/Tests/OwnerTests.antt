-- ===== src/Tests/OwnerTests.antt =====
-- A loop's thread that is started, and whose owner destroys it before the loop begins.
use proto_rpc.Prelude.{◌≡◌, refl, true, false, inr}
use proto_rpc.EventLoop.{quit, new_event_loop}
use proto_rpc.EventLoopThread.{
  LoopThread, entering, constructing, sleeping, sleeps, notified, publishes, starts, gets,
  quits_loop, returned, joining, destroyed, by_runner, by_owner, Reach, here, after,
  new_loop_thread,
}
use proto_rpc.EventLoopThread.Course.{Runs, keeps_quit, IsStuck, waiting-Runs, joining-Runs}

abbrev waits : LoopThread
waits = record new_loop_thread { runner = constructing; owner = sleeping }

waits-Reach : Reach waits
waits-Reach = after (after here (by_owner starts)) (by_owner sleeps)

abbrev started : LoopThread
started = record waits { published = true; runner = entering; owner = returned }

started-Reach : Reach started
unfolding notified
started-Reach = after (after waits-Reach (by_runner publishes)) (by_owner gets)

-- The destructor calls `quit` before `loop()` begins.
abbrev early : LoopThread
early = record started {
  exiting = true;
  loop = quit false new_event_loop;
  owner = joining;
  quits = 1;
}

early-Reach : Reach early
early-Reach = after started-Reach (by_owner quits_loop)

waiting-Runs_example : (u : LoopThread) × Runs waits u × (u.owner ≡ returned) × (u.published ≡ true)
waiting-Runs_example = waiting-Runs waits-Reach (inr refl)

joining-Runs_example :
    (keeps_quit early.runner early.loop ≡ true
      → (u : LoopThread) × Runs early u × (u.owner ≡ destroyed))
    × (keeps_quit early.runner early.loop ≡ false → (u : LoopThread) × Runs early u × IsStuck u)
joining-Runs_example = joining-Runs early-Reach refl
