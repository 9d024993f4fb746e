-- ===== src/EventLoop/Threads.antt =====
-- A loop's thread and any number of other threads, one step at a time: calls of `queueInLoop` fall
-- anywhere into a round, and between the push of a functor and its wakeup.
use proto_rpc.Prelude.{
  ℕ, suc, ◌+◌, ◌≤◌, ◌≡◌, refl, sym, ap, subst, ◌∙◌, true, List, [], ◌∷◌, ◌++◌, arith, append_assoc,
  append-nil, length, length-append, Bool-cases, inl, inr,
}
use proto_rpc.EventLoop.{
  EventLoop, wakeup, handle_read, push_functor, queue_in_loop, swap_functors, finish_calling,
  new_event_loop,
}

-- Where the loop's thread stands: before `loop()`, in `poll`, in the handlers of the active channels, or in
-- `doPendingFunctors`, where the functor that runs has still to queue `own`, and `rest` have still
-- to run.
pub data Place : Type 0 where
  preparing polling handling : Place
  calling : (own rest : List ℕ) → Place

-- `waking` is the number of threads that pushed a functor and did not write to the eventfd yet;
-- `early` is the number of functors that the loop's thread queued before `loop()`, with no wakeup,
-- and that no round has swapped out yet; `pushed` logs the functors in the order in which they were pushed.
pub record Threads : Type 0 where
  pub loop : EventLoop
  pub place : Place
  pub waking : ℕ
  pub early : ℕ
  pub pushed : List ℕ

abbrev pub init : Threads
init = record { loop = new_event_loop; place = preparing; waking = 0; early = 0; pushed = [] }

pub data LoopStep (body : ℕ → List ℕ) : Threads → Threads → Type 0 where
  queues_early :
      {l : EventLoop} {k n : ℕ} {log : List ℕ} (f : ℕ)
      → LoopStep body
          (record { loop = l; place = preparing; waking = k; early = n; pushed = log })
          (record {
            loop = queue_in_loop true f l;
            place = preparing;
            waking = k;
            early = suc n;
            pushed = log ++ (f ∷ []);
          })
  begins :
      {l : EventLoop} {k n : ℕ} {log : List ℕ}
      → LoopStep body
          (record { loop = l; place = preparing; waking = k; early = n; pushed = log })
          (record { loop = l; place = polling; waking = k; early = n; pushed = log })
  poll_returns :
      {l : EventLoop} {k n : ℕ} {log : List ℕ}
      → LoopStep body
          (record { loop = l; place = polling; waking = k; early = n; pushed = log })
          (record { loop = l; place = handling; waking = k; early = n; pushed = log })
  wakeup_read :
      {l : EventLoop} {k n : ℕ} {log : List ℕ}
      → LoopStep body
          (record { loop = l; place = handling; waking = k; early = n; pushed = log })
          (record { loop = handle_read l; place = handling; waking = k; early = n; pushed = log })
  handler_queues :
      {l : EventLoop} {k n : ℕ} {log : List ℕ} (f : ℕ)
      → LoopStep body
          (record { loop = l; place = handling; waking = k; early = n; pushed = log })
          (record {
            loop = queue_in_loop true f l;
            place = handling;
            waking = k;
            early = n;
            pushed = log ++ (f ∷ []);
          })
  swaps :
      {l : EventLoop} {k n : ℕ} {log : List ℕ}
      → LoopStep body
          (record { loop = l; place = handling; waking = k; early = n; pushed = log })
          (record {
            loop = swap_functors l;
            place = calling [] l.pending_functors;
            waking = k;
            early = 0;
            pushed = log;
          })
  runs :
      {l : EventLoop} {k n : ℕ} {log : List ℕ} (f : ℕ) (rest : List ℕ)
      → LoopStep body
          (record { loop = l; place = calling [] (f ∷ rest); waking = k; early = n; pushed = log })
          (record {
            loop = record l { executed = l.executed ++ (f ∷ []) };
            place = calling (body f) rest;
            waking = k;
            early = n;
            pushed = log;
          })
  functor_queues :
      {l : EventLoop} {k n : ℕ} {log : List ℕ} (g : ℕ) (own rest : List ℕ)
      → LoopStep body
          (record { loop = l; place = calling (g ∷ own) rest; waking = k; early = n; pushed = log })
          (record {
            loop = queue_in_loop true g l;
            place = calling own rest;
            waking = k;
            early = n;
            pushed = log ++ (g ∷ []);
          })
  finishes :
      {l : EventLoop} {k n : ℕ} {log : List ℕ}
      → LoopStep body
          (record { loop = l; place = calling [] []; waking = k; early = n; pushed = log })
          (record { loop = finish_calling l; place = polling; waking = k; early = n; pushed = log })

-- A step of the loop's thread, or one of another thread in `queueInLoop`.
pub data Step (body : ℕ → List ℕ) : Threads → Threads → Type 0 where
  by_loop : {t t' : Threads} → LoopStep body t t' → Step body t t'
  other_pushes :
      {l : EventLoop} {p : Place} {k n : ℕ} {log : List ℕ} (f : ℕ)
      → Step body
          (record { loop = l; place = p; waking = k; early = n; pushed = log })
          (record {
            loop = push_functor f l;
            place = p;
            waking = suc k;
            early = n;
            pushed = log ++ (f ∷ []);
          })
  other_wakes :
      {l : EventLoop} {p : Place} {k n : ℕ} {log : List ℕ}
      → Step body
          (record { loop = l; place = p; waking = suc k; early = n; pushed = log })
          (record { loop = wakeup l; place = p; waking = k; early = n; pushed = log })

pub data Reach (body : ℕ → List ℕ) : Threads → Type 0 where
  here : Reach body init
  after : {t t' : Threads} → Reach body t → Step body t t' → Reach body t'

-- The functors that were swapped out and did not run yet.
unfoldable pub taken : Place → List ℕ
taken preparing = []
taken polling = []
taken handling = []
taken (calling own rest) = rest

-- The eventfd, the threads on the way to it and the functors queued early count at least the
-- functors that wait. In the handlers this may fail, since they clear the eventfd, but the functors
-- are swapped out next.
pub Awake : Place → EventLoop → ℕ → ℕ → Type 0
Awake handling l k n = Unit
Awake _ l k n = length l.pending_functors ≤ l.wakeups + k + n

IsCalling : Place → EventLoop → Type 0
IsCalling preparing l = Unit
IsCalling polling l = Unit
IsCalling handling l = Unit
IsCalling (calling own rest) l = l.calling_pending_functors ≡ true

record Inv (t : Threads) : Type 0 where
  awake : Awake t.place t.loop t.waking t.early
  flag : IsCalling t.place t.loop
  ordered : t.loop.executed ++ (taken t.place ++ t.loop.pending_functors) ≡ t.pushed

-- A push goes to the end of the order.
pushed_last :
    (done taken pending log : List ℕ) (f : ℕ)
    → done ++ (taken ++ pending) ≡ log
    → done ++ (taken ++ (pending ++ (f ∷ []))) ≡ log ++ (f ∷ [])
pushed_last done taken pending log f e =
    ap (◌++◌ done) (sym (append_assoc taken pending (f ∷ [])))
    ∙ sym (append_assoc done (taken ++ pending) (f ∷ []))
    ∙ ap (λ t. t ++ (f ∷ [])) e

pub queue_in_loop-executed :
    (f : ℕ) (l : EventLoop) → (queue_in_loop true f l).executed ≡ l.executed
unfolding queue_in_loop push_functor wakeup
queue_in_loop-executed f l = ground arith

queue_in_loop-pending :
    (f : ℕ) (l : EventLoop)
    → (queue_in_loop true f l).pending_functors ≡ l.pending_functors ++ (f ∷ [])
unfolding queue_in_loop push_functor wakeup
queue_in_loop-pending f l = ground arith

queue_in_loop-calling :
    (f : ℕ) (l : EventLoop)
    → l.calling_pending_functors ≡ true
    → (queue_in_loop true f l).calling_pending_functors ≡ true
unfolding queue_in_loop push_functor wakeup
queue_in_loop-calling f l c = ground arith

-- While functors are called, each push of the loop's thread comes with its wakeup.
queue_in_loop-Awake :
    (f : ℕ) (l : EventLoop) (k n : ℕ)
    → l.calling_pending_functors ≡ true
    → length l.pending_functors ≤ l.wakeups + k + n
    → length (queue_in_loop true f l).pending_functors ≤ (queue_in_loop true f l).wakeups + k + n
unfolding queue_in_loop push_functor wakeup
queue_in_loop-Awake f l k n c a = rw c (omega (arith, a, length-append l.pending_functors (f ∷ [])))

-- Before `loop()` it has none.
queue_in_loop-early :
    (f : ℕ) (l : EventLoop) (k n : ℕ)
    → length l.pending_functors ≤ l.wakeups + k + n
    → length (queue_in_loop true f l).pending_functors
      ≤ (queue_in_loop true f l).wakeups + k + suc n
unfolding queue_in_loop push_functor wakeup
queue_in_loop-early f l k n a = elim (Bool-cases l.calling_pending_functors) [
  | inl c ↦ rw c (omega (arith, a, length-append l.pending_functors (f ∷ [])))
  | inr c ↦ rw c (omega (arith, a, length-append l.pending_functors (f ∷ [])))
]

push-Awake :
    (p : Place) (f : ℕ) (l : EventLoop) (k n : ℕ)
    → Awake p l k n
    → Awake p (push_functor f l) (suc k) n
unfolding Awake push_functor
push-Awake handling f l k n a = tt
push-Awake preparing f l k n a = omega (arith, a, length-append l.pending_functors (f ∷ []))
push-Awake polling f l k n a = omega (arith, a, length-append l.pending_functors (f ∷ []))
push-Awake (calling own rest) f l k n a =
    omega (arith, a, length-append l.pending_functors (f ∷ []))

push-IsCalling :
    (p : Place) (f : ℕ) (l : EventLoop) → IsCalling p l → IsCalling p (push_functor f l)
unfolding IsCalling push_functor
push-IsCalling preparing f l c = tt
push-IsCalling polling f l c = tt
push-IsCalling handling f l c = tt
push-IsCalling (calling own rest) f l c = c

wakeup-Awake : (p : Place) (l : EventLoop) (k n : ℕ) → Awake p l (suc k) n → Awake p (wakeup l) k n
unfolding Awake wakeup
wakeup-Awake handling l k n a = tt
wakeup-Awake preparing l k n a = omega (arith, a)
wakeup-Awake polling l k n a = omega (arith, a)
wakeup-Awake (calling own rest) l k n a = omega (arith, a)

wakeup-IsCalling : (p : Place) (l : EventLoop) → IsCalling p l → IsCalling p (wakeup l)
unfolding IsCalling wakeup
wakeup-IsCalling preparing l c = tt
wakeup-IsCalling polling l c = tt
wakeup-IsCalling handling l c = tt
wakeup-IsCalling (calling own rest) l c = c

LoopStep-Inv : {body : ℕ → List ℕ} {t t' : Threads} → LoopStep body t t' → Inv t → Inv t'
unfolding Awake IsCalling taken handle_read swap_functors finish_calling
LoopStep-Inv (queues_early {l = l} {k = k} {n = n} {log = log} f) v = record {
  awake = queue_in_loop-early f l k n v.awake;
  flag = tt;
  ordered =
      rw (queue_in_loop-executed f l, queue_in_loop-pending f l)
        (pushed_last l.executed [] l.pending_functors log f v.ordered);
}
LoopStep-Inv begins v = record { awake = v.awake; flag = tt; ordered = v.ordered }
LoopStep-Inv poll_returns v = record { awake = tt; flag = tt; ordered = v.ordered }
LoopStep-Inv wakeup_read v = record { awake = tt; flag = tt; ordered = v.ordered }
LoopStep-Inv (handler_queues {l = l} {log = log} f) v = record {
  awake = tt;
  flag = tt;
  ordered =
      rw (queue_in_loop-executed f l, queue_in_loop-pending f l)
        (pushed_last l.executed [] l.pending_functors log f v.ordered);
}
LoopStep-Inv (swaps {l = l}) v = record {
  awake = omega arith;
  flag = refl;
  ordered = ap (◌++◌ l.executed) (append-nil l.pending_functors) ∙ v.ordered;
}
LoopStep-Inv (runs {l = l} f rest) v = record {
  awake = v.awake;
  flag = v.flag;
  ordered = append_assoc l.executed (f ∷ []) (rest ++ l.pending_functors) ∙ v.ordered;
}
LoopStep-Inv (functor_queues {l = l} {k = k} {n = n} {log = log} g own rest) v = record {
  awake = queue_in_loop-Awake g l k n v.flag v.awake;
  flag = queue_in_loop-calling g l v.flag;
  ordered =
      rw (queue_in_loop-executed g l, queue_in_loop-pending g l)
        (pushed_last l.executed rest l.pending_functors log g v.ordered);
}
LoopStep-Inv (finishes {l = l}) v = record { awake = v.awake; flag = tt; ordered = v.ordered }

Step-Inv : {body : ℕ → List ℕ} {t t' : Threads} → Step body t t' → Inv t → Inv t'
unfolding wakeup push_functor
Step-Inv (by_loop s) v = LoopStep-Inv s v
Step-Inv (other_pushes {l = l} {p = p} {k = k} {n = n} {log = log} f) v = record {
  awake = push-Awake p f l k n v.awake;
  flag = push-IsCalling p f l v.flag;
  ordered = pushed_last l.executed (taken p) l.pending_functors log f v.ordered;
}
Step-Inv (other_wakes {l = l} {p = p} {k = k} {n = n}) v = record {
  awake = wakeup-Awake p l k n v.awake;
  flag = wakeup-IsCalling p l v.flag;
  ordered = v.ordered;
}

Reach-Inv : {body : ℕ → List ℕ} {t : Threads} → Reach body t → Inv t
unfolding Awake IsCalling taken new_event_loop
Reach-Inv here = record { awake = omega arith; flag = tt; ordered = refl }
Reach-Inv (after h s) = Step-Inv s (Reach-Inv h)

-- With the loop's thread and any number of other threads interleaved step by step, from before
-- `loop()` on, where `queueInLoop` of another thread falls anywhere into a round and its wakeup
-- may come later than its push, whenever the loop's thread is in `poll` the functors that wait are
-- at most the wakeups that the eventfd counts, the threads that have still to write to it, and,
-- until the first round takes them, the functors that the loop's own thread queued before
-- `loop()`, which come with no wakeup.
pub polling-Awake :
    {body : ℕ → List ℕ} {t : Threads}
    → Reach body t
    → t.place ≡ polling
    → length t.loop.pending_functors ≤ t.loop.wakeups + t.waking + t.early
unfolding Awake
polling-Awake {t = t} h e = subst (λ p. Awake p t.loop t.waking t.early) e (Reach-Inv h).awake

-- With the loop's thread and any number of other threads interleaved step by step, the functors
-- that ran, then those that were swapped out and did not run yet, then those that wait, are at any
-- time just the functors that were pushed, in that order: none is lost, run twice or overtaken.
pub Reach-ordered :
    {body : ℕ → List ℕ} {t : Threads}
    → Reach body t
    → t.loop.executed ++ (taken t.place ++ t.loop.pending_functors) ≡ t.pushed
Reach-ordered h = (Reach-Inv h).ordered
