-- ===== src/EventLoopThread.antt =====
-- network/include/network/EventLoopThread.h and network/src/EventLoopThread.cc: a thread that runs
-- an EventLoop on its stack, and the owner that starts it and destroys it. Both run step by step;
-- so may other threads, which call `quit` of the loop. A round of the loop is no step here.
pub mod Invariant
pub mod Course
use proto_rpc.Prelude.{ℕ, suc, ◌≡◌, ◌⊎◌, Bool, true, false, some}
use proto_rpc.EventLoop.{EventLoop, new_event_loop, quit, start_looping, goes_on, stop_looping}

-- Where `threadFunc` stands: not begun, before it sets `loop_`, before `loop.loop()` begins, in its
-- rounds, before it clears `loop_`, and at its end.
pub data Runner : Type 0 where
  unstarted constructing entering running clearing ended : Runner

-- Where the owner stands: before `startLoop`, at the test of `loop_` in it, asleep in `cv_.wait`,
-- after it, joining the thread in the
-- destructor, and after the destructor; or the program was ended, since a `std::thread` was
-- destroyed that can still be joined.
pub data Owner : Type 0 where
  fresh waiting sleeping returned joining destroyed terminated : Owner

-- `published` is `loop_ != NULL`, `quits` counts the calls of `quit`.
pub record LoopThread : Type 0 where
  pub published : Bool
  pub exiting : Bool
  pub loop : EventLoop
  pub runner : Runner
  pub owner : Owner
  pub quits : ℕ

abbrev pub new_loop_thread : LoopThread
new_loop_thread = record {
  published = false;
  exiting = false;
  loop = new_event_loop;
  runner = unstarted;
  owner = fresh;
  quits = 0;
}

-- `cv_.notify_all` wakes the owner if it sleeps; it then tests `loop_` again.
unfoldable pub notified : Owner → Owner
notified sleeping = waiting
notified owner = owner

-- `threadFunc`. It sets `loop_` and notifies under one lock of the mutex.
pub data RunnerStep : LoopThread → LoopThread → Type 0 where
  publishes :
      {p x : Bool} {l : EventLoop} {o : Owner} {q : ℕ}
      → RunnerStep
          (record {
            published = p;
            exiting = x;
            loop = l;
            runner = constructing;
            owner = o;
            quits = q;
          })
          (record {
            published = true;
            exiting = x;
            loop = l;
            runner = entering;
            owner = notified o;
            quits = q;
          })
  enters :
      {p x : Bool} {l l' : EventLoop} {o : Owner} {q : ℕ}
      → start_looping l ≡ some l'
      → RunnerStep
          (record { published = p; exiting = x; loop = l; runner = entering; owner = o; quits = q })
          (record { published = p; exiting = x; loop = l'; runner = running; owner = o; quits = q })
  leaves :
      {p x : Bool} {l : EventLoop} {o : Owner} {q : ℕ}
      → goes_on l ≡ false
      → RunnerStep
          (record { published = p; exiting = x; loop = l; runner = running; owner = o; quits = q })
          (record {
            published = p;
            exiting = x;
            loop = stop_looping l;
            runner = clearing;
            owner = o;
            quits = q;
          })
  clears :
      {p x : Bool} {l : EventLoop} {o : Owner} {q : ℕ}
      → RunnerStep
          (record { published = p; exiting = x; loop = l; runner = clearing; owner = o; quits = q })
          (record {
            published = false;
            exiting = x;
            loop = l;
            runner = ended;
            owner = o;
            quits = q;
          })

-- `startLoop`, which sleeps while it does not see `loop_`, and returns once it does; and the
-- destructor. `wait` gives the mutex up only when the owner sleeps, so the test and it are one step.
pub data OwnerStep : LoopThread → LoopThread → Type 0 where
  starts :
      {p x : Bool} {l : EventLoop} {r : Runner} {q : ℕ}
      → OwnerStep
          (record { published = p; exiting = x; loop = l; runner = r; owner = fresh; quits = q })
          (record {
            published = p;
            exiting = x;
            loop = l;
            runner = constructing;
            owner = waiting;
            quits = q;
          })
  gets :
      {x : Bool} {l : EventLoop} {r : Runner} {q : ℕ}
      → OwnerStep
          (record {
            published = true;
            exiting = x;
            loop = l;
            runner = r;
            owner = waiting;
            quits = q;
          })
          (record {
            published = true;
            exiting = x;
            loop = l;
            runner = r;
            owner = returned;
            quits = q;
          })
  sleeps :
      {x : Bool} {l : EventLoop} {r : Runner} {q : ℕ}
      → OwnerStep
          (record {
            published = false;
            exiting = x;
            loop = l;
            runner = r;
            owner = waiting;
            quits = q;
          })
          (record {
            published = false;
            exiting = x;
            loop = l;
            runner = r;
            owner = sleeping;
            quits = q;
          })
  quits_loop :
      {x : Bool} {l : EventLoop} {r : Runner} {q : ℕ}
      → OwnerStep
          (record {
            published = true;
            exiting = x;
            loop = l;
            runner = r;
            owner = returned;
            quits = q;
          })
          (record {
            published = true;
            exiting = true;
            loop = quit false l;
            runner = r;
            owner = joining;
            quits = suc q;
          })
  skips_thread :
      {x : Bool} {l : EventLoop} {r : Runner} {q : ℕ}
      → OwnerStep
          (record {
            published = false;
            exiting = x;
            loop = l;
            runner = r;
            owner = returned;
            quits = q;
          })
          (record {
            published = false;
            exiting = true;
            loop = l;
            runner = r;
            owner = terminated;
            quits = q;
          })
  skips_nothing :
      {p x : Bool} {l : EventLoop} {r : Runner} {q : ℕ}
      → OwnerStep
          (record { published = p; exiting = x; loop = l; runner = r; owner = fresh; quits = q })
          (record {
            published = p;
            exiting = true;
            loop = l;
            runner = r;
            owner = destroyed;
            quits = q;
          })
  joins :
      {p x : Bool} {l : EventLoop} {q : ℕ}
      → OwnerStep
          (record {
            published = p;
            exiting = x;
            loop = l;
            runner = ended;
            owner = joining;
            quits = q;
          })
          (record {
            published = p;
            exiting = x;
            loop = l;
            runner = ended;
            owner = destroyed;
            quits = q;
          })

-- Another thread has the loop from the owner, and uses it while it is there. A `wait` may also end
-- with no notification.
pub data Step : LoopThread → LoopThread → Type 0 where
  by_runner : {t t' : LoopThread} → RunnerStep t t' → Step t t'
  by_owner : {t t' : LoopThread} → OwnerStep t t' → Step t t'
  wakes :
      {p x : Bool} {l : EventLoop} {r : Runner} {q : ℕ}
      → Step
          (record { published = p; exiting = x; loop = l; runner = r; owner = sleeping; quits = q })
          (record { published = p; exiting = x; loop = l; runner = r; owner = waiting; quits = q })
  other_quits :
      {x : Bool} {l : EventLoop} {r : Runner} {o : Owner} {q : ℕ}
      → (o ≡ returned) ⊎ (o ≡ joining)
      → Step
          (record { published = true; exiting = x; loop = l; runner = r; owner = o; quits = q })
          (record {
            published = true;
            exiting = x;
            loop = quit false l;
            runner = r;
            owner = o;
            quits = suc q;
          })

pub data Reach : LoopThread → Type 0 where
  here : Reach new_loop_thread
  after : {t t' : LoopThread} → Reach t → Step t t' → Reach t'
