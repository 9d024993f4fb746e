-- ===== src/EventLoop/Pending.antt =====
-- The functors of a loop run once each, in order, and none waits while the loop sleeps.
use proto_rpc.Prelude.{
  ℕ, ◌+◌, ◌≤◌, ◌≡◌, refl, sym, ap, subst, ◌∙◌, true, false, List, [], ◌∷◌, ◌++◌, arith,
  append_assoc, append-nil, length, length-append,
}
use proto_rpc.EventLoop.{
  EventLoop, wakeup, push_functor, queue_in_loop, swap_functors, finish_calling, queue_all,
  run_functor, run_functors, do_pending_functors, loop_once, handle_events, new_event_loop,
}

-- The eventfd counts at least the functors in the queue, so `poll` does not sleep on one.
pub Awake : EventLoop → Type 0
Awake l = length l.pending_functors ≤ l.wakeups

-- The functors that these queue, in order.
pub queued_by : (ℕ → List ℕ) → List ℕ → List ℕ
queued_by body [] = []
queued_by body (f ∷ fs) = body f ++ queued_by body fs

-- What happens while the pending functors are called: `ran` were run and `queued` were queued.
record Called (ran queued : List ℕ) (l l' : EventLoop) : Type 0 where
  calling : l'.calling_pending_functors ≡ true
  logged : l'.executed ≡ l.executed ++ ran
  waiting : l'.pending_functors ≡ l.pending_functors ++ queued
  awake : Awake l'

-- The loop after one was queued.
woken : ℕ → EventLoop → EventLoop
woken f l = wakeup (push_functor f l)

queue_in_loop-calling :
    (f : ℕ) (l : EventLoop) → l.calling_pending_functors ≡ true → queue_in_loop true f l ≡ woken f l
unfolding queue_in_loop woken
queue_in_loop-calling f l c = rw c refl

queue_all-Called :
    (fs : List ℕ) (l : EventLoop)
    → l.calling_pending_functors ≡ true
    → Awake l
    → Called [] fs l (queue_all fs l)
unfolding queue_all Awake woken wakeup push_functor
queue_all-Called [] l c a = record {
  calling = c;
  logged = sym (append-nil l.executed);
  waiting = sym (append-nil l.pending_functors);
  awake = a;
}
queue_all-Called (f ∷ fs) l c a =
    let r =
      queue_all-Called fs (woken f l) c
        (omega (arith, a, length-append l.pending_functors (f ∷ []))) in
    rw (queue_in_loop-calling f l c) (record {
      calling = r.calling;
      logged = r.logged;
      waiting = r.waiting ∙ append_assoc l.pending_functors (f ∷ []) fs;
      awake = r.awake;
    })

run_functors-Called :
    (body : ℕ → List ℕ) (fs : List ℕ) (l : EventLoop)
    → l.calling_pending_functors ≡ true
    → Awake l
    → Called fs (queued_by body fs) l (run_functors body fs l)
unfolding run_functors run_functor queued_by Awake
run_functors-Called body [] l c a = record {
  calling = c;
  logged = sym (append-nil l.executed);
  waiting = sym (append-nil l.pending_functors);
  awake = a;
}
run_functors-Called body (f ∷ fs) l c a =
    let ran = record l { executed = l.executed ++ (f ∷ []) } in
    let q = queue_all-Called (body f) ran c a in
    let r = run_functors-Called body fs (queue_all (body f) ran) q.calling q.awake in
    record {
      calling = r.calling;
      logged =
          r.logged
          ∙ ap (λ t. t ++ fs) (q.logged ∙ append-nil (l.executed ++ (f ∷ [])))
          ∙ append_assoc l.executed (f ∷ []) fs;
      waiting =
          r.waiting
          ∙ ap (λ t. t ++ queued_by body fs) q.waiting
          ∙ append_assoc l.pending_functors (body f) (queued_by body fs);
      awake = r.awake;
    }

module _ (body : ℕ → List ℕ) (l : EventLoop) where
  swapped-Called :
      Called l.pending_functors
        (queued_by body l.pending_functors)
        (swap_functors l)
        (run_functors body l.pending_functors (swap_functors l))
  unfolding Awake swap_functors
  swapped-Called = run_functors-Called body l.pending_functors (swap_functors l) refl (omega arith)

  do_pending_functors-Awake : Awake (do_pending_functors body l)
  unfolding do_pending_functors Awake finish_calling
  do_pending_functors-Awake = swapped-Called.awake

  -- `doPendingFunctors` runs each functor that waits once, in order, whatever they queue, and
  -- afterwards just the functors that these queued wait, in the order in which they were queued.
  do_pending_functors_lem :
      ((do_pending_functors body l).executed ≡ l.executed ++ l.pending_functors)
      × ((do_pending_functors body l).pending_functors ≡ queued_by body l.pending_functors)
  unfolding do_pending_functors finish_calling swap_functors
  do_pending_functors_lem = (swapped-Called.logged, swapped-Called.waiting)

-- What happens to a loop: a round, or a call of `queueInLoop` from another thread between rounds.
pub data Step (body : ℕ → List ℕ) : EventLoop → EventLoop → Type 0 where
  rounds :
      {l l' : EventLoop} (handlers : List (EventLoop → EventLoop))
      → loop_once body handlers l ≡ l'
      → Step body l l'
  queues : {l l' : EventLoop} (f : ℕ) → queue_in_loop false f l ≡ l' → Step body l l'

pub data Reach (body : ℕ → List ℕ) : EventLoop → Type 0 where
  here : Reach body new_event_loop
  after : {l l' : EventLoop} → Reach body l → Step body l l' → Reach body l'

loop_once-Awake :
    (body : ℕ → List ℕ) (handlers : List (EventLoop → EventLoop)) (l : EventLoop)
    → Awake (loop_once body handlers l)
unfolding loop_once
loop_once-Awake body handlers l =
    do_pending_functors-Awake body
      (record (handle_events handlers
        (record l { iteration = l.iteration + 1; event_handling = true })) {
          event_handling = false;
        })

queue_in_loop-Awake : (f : ℕ) (l : EventLoop) → Awake l → Awake (queue_in_loop false f l)
unfolding Awake queue_in_loop wakeup push_functor
queue_in_loop-Awake f l a = omega (arith, a, length-append l.pending_functors (f ∷ []))

-- After any history of a new loop made of rounds, with any handlers, and of calls of `queueInLoop`
-- from other threads between them, the eventfd counts at least as many wakeups as functors wait,
-- so `poll` does not sleep while a functor waits.
Reach-Awake : {body : ℕ → List ℕ} {l : EventLoop} → Reach body l → Awake l
unfolding new_event_loop Awake
Reach-Awake here = omega arith
Reach-Awake {body = body} (after r (rounds {l = l} handlers e)) =
    subst Awake e (loop_once-Awake body handlers l)
Reach-Awake (after r (queues {l = l} f e)) = subst Awake e (queue_in_loop-Awake f l (Reach-Awake r))
