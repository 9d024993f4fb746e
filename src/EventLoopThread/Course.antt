-- ===== src/EventLoopThread/Course.antt =====
-- What becomes of the loop's thread and of its owner, whatever the order of their steps.
use proto_rpc.Prelude.{ℕ, ◌≡◌, refl, subst, Bool, true, false, not, inl, inr, ◌⊎◌, sym, ap, ◌∙◌}
use proto_rpc.EventLoop.{EventLoop, start_looping, goes_on, stop_looping}
use proto_rpc.EventLoopThread.{
  LoopThread, Runner, unstarted, constructing, entering, running, clearing, ended, Owner, waiting,
  sleeping, notified, returned, joining, destroyed, RunnerStep, publishes, enters, leaves, clears,
  OwnerStep, starts, gets, sleeps, quits_loop, skips_thread, skips_nothing, joins, Reach,
}
use proto_rpc.EventLoopThread.Invariant.{
  is_published, is_running, is_begun, is_past, is_ending, Fits, true-false, Reach-Inv,
}

-- Steps of the two threads alone.
pub data Runs (t : LoopThread) : LoopThread → Type 0 where
  stays : Runs t t
  runner_goes : {u u' : LoopThread} → Runs t u → RunnerStep u u' → Runs t u'
  owner_goes : {u u' : LoopThread} → Runs t u → OwnerStep u u' → Runs t u'

-- What `startLoop` returned is past its publication, and is there until somebody calls `quit`.
returned-Alive :
    {t : LoopThread}
    → Reach t
    → t.owner ≡ returned
    → (is_past t.runner ≡ true)
      × (t.quits ≡ 0 → (t.published ≡ true) × (t.loop.quit_wanted ≡ false))
unfolding Fits
returned-Alive {t} h e =
    let v = Reach-Inv h in
    let past = subst (λ o. Fits o t.runner t.quits) e v.fits in
    (past, λ z. (v.pointer ∙ by_place t.runner past (v.calm z).1, (v.calm z).0))
  where
    by_place : (r : Runner) → is_past r ≡ true → is_ending r ≡ false → is_published r ≡ true
    by_place unstarted p e = cc
    by_place constructing p e = cc
    by_place entering p e = refl
    by_place running p e = refl
    by_place clearing p e = cc
    by_place ended p e = cc

-- The two threads by their places.
abbrev at : Bool → Bool → EventLoop → Runner → Owner → ℕ → LoopThread
at p x l r o q = record { published = p; exiting = x; loop = l; runner = r; owner = o; quits = q }

Starts : LoopThread → Type 0
Starts t = (u : LoopThread) × Runs t u × (u.owner ≡ returned) × (u.published ≡ true)

from_waiting :
    (p x : Bool) (l : EventLoop) (r : Runner) (q : ℕ)
    → p ≡ is_published r
    → is_begun r ≡ true
    → is_ending r ≡ false
    → (u : LoopThread) × Runs (at p x l r waiting q) u × (u.owner ≡ returned) × (u.published ≡ true)
unfolding notified
from_waiting p x l unstarted q e b n = absurd (true-false (sym b))
from_waiting p x l constructing q e b n =
    (at true x l entering returned q, owner_goes (runner_goes stays publishes) gets, refl, refl)
from_waiting true x l entering q e b n =
    (at true x l entering returned q, owner_goes stays gets, refl, refl)
from_waiting true x l running q e b n =
    (at true x l running returned q, owner_goes stays gets, refl, refl)
from_waiting false x l entering q e b n = absurd (true-false (sym e))
from_waiting false x l running q e b n = absurd (true-false (sym e))
from_waiting p x l clearing q e b n = absurd (true-false n)
from_waiting p x l ended q e b n = absurd (true-false n)

-- Of a sleeping owner only the notification can make anything.
from_sleeping :
    (p x : Bool) (l : EventLoop) (r : Runner) (q : ℕ)
    → is_begun r ≡ true
    → is_ending r ≡ false
    → is_published r ≡ false
    → (u : LoopThread) × Runs (at p x l r sleeping q) u
      × (u.owner ≡ returned)
      × (u.published ≡ true)
unfolding notified
from_sleeping p x l constructing q b n e =
    (at true x l entering returned q, owner_goes (runner_goes stays publishes) gets, refl, refl)
from_sleeping p x l unstarted q b n e = absurd (true-false (sym b))
from_sleeping p x l entering q b n e = absurd (true-false e)
from_sleeping p x l running q b n e = absurd (true-false e)
from_sleeping p x l clearing q b n e = absurd (true-false e)
from_sleeping p x l ended q b n e = absurd (true-false n)

-- In whatever order the loop's thread, its owner and threads that call `quit` have run, with waits
-- that may end unnotified, if the owner is in `startLoop`, at the test of `loop_` or asleep in
-- `cv_.wait`, then steps of the loop's thread and the owner lead to its return with `loop_` set,
-- where a sleeping owner goes on only when it is notified.
pub waiting-Runs :
    {t : LoopThread}
    → Reach t
    → (t.owner ≡ waiting) ⊎ (t.owner ≡ sleeping)
    → (u : LoopThread) × Runs t u × (u.owner ≡ returned) × (u.published ≡ true)
unfolding Fits Starts
waiting-Runs {t} h (inl e) =
    let v = Reach-Inv h in
    let begun = subst (λ o. Fits o t.runner t.quits) e v.fits in
    subst (λ o. Starts (at t.published t.exiting t.loop t.runner o t.quits)) (sym e)
      (from_waiting t.published t.exiting t.loop t.runner t.quits v.pointer begun.0
        (v.calm begun.1).1)
waiting-Runs {t} h (inr e) =
    let v = Reach-Inv h in
    let begun = subst (λ o. Fits o t.runner t.quits) e v.fits in
    subst (λ o. Starts (at t.published t.exiting t.loop t.runner o t.quits)) (sym e)
      (from_sleeping t.published t.exiting t.loop t.runner t.quits begun.0 (v.calm begun.1).1
        begun.2)

-- Whether a `quit` that came before now will end the loop: `loop()` clears `quit_` when it begins.
unfoldable pub keeps_quit : Runner → EventLoop → Bool
keeps_quit entering l = false
keeps_quit running l = l.quit_wanted
keeps_quit _ l = true

RunnerStep-running :
    {t t' : LoopThread} → RunnerStep t t' → t.runner ≡ running → t.loop.quit_wanted ≡ true
unfolding goes_on
RunnerStep-running publishes e = cc
RunnerStep-running (enters h) e = cc
RunnerStep-running (leaves {l = l} h) e = by_flag l.quit_wanted h
  where
    by_flag : (b : Bool) → not b ≡ false → b ≡ true
    by_flag true e = refl
    by_flag false e = cc
RunnerStep-running clears e = cc

OwnerStep-joining : {t t' : LoopThread} → OwnerStep t t' → t.owner ≡ joining → t.runner ≡ ended
OwnerStep-joining starts e = cc
OwnerStep-joining gets e = cc
OwnerStep-joining sleeps e = cc
OwnerStep-joining quits_loop e = cc
OwnerStep-joining skips_thread e = cc
OwnerStep-joining skips_nothing e = cc
OwnerStep-joining joins e = refl

-- The owner waits for a thread that never ends.
pub IsStuck : LoopThread → Type 0
IsStuck t = (t.owner ≡ joining) × ((u : LoopThread) → RunnerStep t u ⊎ OwnerStep t u → ⊥)

Ends : LoopThread → Type 0
Ends t = (u : LoopThread) × Runs t u × (u.owner ≡ destroyed)

Hangs : LoopThread → Type 0
Hangs t = (u : LoopThread) × Runs t u × IsStuck u

running-IsStuck :
    (p x : Bool) (l : EventLoop) (q : ℕ)
    → l.quit_wanted ≡ false
    → IsStuck (at p x l running joining q)
unfolding IsStuck
running-IsStuck p x l q e = (
  refl,
  λ u s. elim s [
    | inl r ↦ true-false (sym (RunnerStep-running r refl) ∙ e)
    | inr o ↦ running_ended (OwnerStep-joining o refl)
  ],
)
  where
    running_ended : running ≡ ended → ⊥
    running_ended e = cc

Ends-at :
    (p x : Bool) (l : EventLoop) (r : Runner) (q : ℕ)
    → is_past r ≡ true
    → keeps_quit r l ≡ true
    → Ends (at p x l r joining q)
unfolding Ends keeps_quit goes_on
Ends-at p x l unstarted q past k = absurd (true-false (sym past))
Ends-at p x l constructing q past k = absurd (true-false (sym past))
Ends-at p x l entering q past k = absurd (true-false (sym k))
Ends-at p x l running q past k = (
  at false x (stop_looping l) ended destroyed q,
  owner_goes (runner_goes (runner_goes stays (leaves (ap not k))) clears) joins,
  refl,
)
Ends-at p x l clearing q past k =
    (at false x l ended destroyed q, owner_goes (runner_goes stays clears) joins, refl)
Ends-at p x l ended q past k = (at p x l ended destroyed q, owner_goes stays joins, refl)

Hangs-at :
    (p x : Bool) (l : EventLoop) (r : Runner) (q : ℕ)
    → l.looping ≡ is_running r
    → keeps_quit r l ≡ false
    → Hangs (at p x l r joining q)
unfolding Hangs keeps_quit start_looping
Hangs-at p x l entering q e k =
    let l' = record l { looping = true; quit_wanted = false } in
    (
      at p x l' running joining q,
      runner_goes stays (enters (rw e refl)),
      running-IsStuck p x l' q refl,
    )
Hangs-at p x l running q e k = (at p x l running joining q, stays, running-IsStuck p x l q k)
Hangs-at p x l unstarted q e k = absurd (true-false k)
Hangs-at p x l constructing q e k = absurd (true-false k)
Hangs-at p x l clearing q e k = absurd (true-false k)
Hangs-at p x l ended q e k = absurd (true-false k)

-- In whatever order the loop's thread, its owner and threads that call `quit` have run, if the
-- owner joins the thread in the destructor: it ends, by steps of the two, if the thread is past
-- its rounds, or in them with `quit_` set; but if `quit_` is not set in them, or `loop()` has not
-- begun, which will clear it, the two come to where the owner still waits and neither can move.
pub joining-Runs :
    {t : LoopThread}
    → Reach t
    → t.owner ≡ joining
    → (keeps_quit t.runner t.loop ≡ true → (u : LoopThread) × Runs t u × (u.owner ≡ destroyed))
      × (keeps_quit t.runner t.loop ≡ false → (u : LoopThread) × Runs t u × IsStuck u)
unfolding Fits Ends Hangs
joining-Runs {t} h e =
    let v = Reach-Inv h in
    let past = subst (λ o. Fits o t.runner t.quits) e v.fits in
    (
      λ k.
          subst (λ o. Ends (at t.published t.exiting t.loop t.runner o t.quits)) (sym e)
            (Ends-at t.published t.exiting t.loop t.runner t.quits past k),
      λ k.
          subst (λ o. Hangs (at t.published t.exiting t.loop t.runner o t.quits)) (sym e)
            (Hangs-at t.published t.exiting t.loop t.runner t.quits v.looping k),
    )
