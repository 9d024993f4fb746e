-- ===== src/Acceptor/Descriptors.antt =====
-- The descriptors that an acceptor (network/src/Acceptor.cc) gets and gives away, counted over any
-- sequence of its operations.
use proto_rpc.Prelude.{
  ℕ, ◌+◌, ◌≡◌, refl, ◌∙◌, Bool, true, false, Option, none, some, List, [], ◌∷◌, ◌++◌, arith,
  if◌then◌else◌, ◌==◌, total, total-snoc, ◌>>=◌,
}
use proto_rpc.Channel.{enable_reading, none_event, disable_all}
use proto_rpc.Acceptor.{
  Acceptor, Effect, opened, closed, accepted, handed_over, listened, removed_channel, AcceptAnswer,
  got_fd, emfile, other_failure, log, new_acceptor, set_new_connection_callback, start_listening,
  close_fd, note, free_one, handle_read, destroy_acceptor,
}

module _ (fd : ℕ) where
  abbrev pub is_fd : ℕ → ℕ
  is_fd k = if k == fd then 1 else 0

  -- Gaining and giving away the descriptor.
  pub gains : Effect → ℕ
  gains (opened k) = is_fd k
  gains (accepted k) = is_fd k
  gains e = 0

  pub loses : Effect → ℕ
  loses (closed k) = is_fd k
  loses (handed_over k) = is_fd k
  loses e = 0

  pub holds : Option ℕ → ℕ
  holds none = 0
  holds (some k) = is_fd k

  -- The balance with what is held besides the listening socket.
  Counts : ℕ → Acceptor → Type 0
  Counts held a = total gains a.effects ≡ total loses a.effects + held

  log-Counts :
      (e : Effect) (a : Acceptor) (held held' : ℕ)
      → held + gains e ≡ loses e + held'
      → Counts held a
      → Counts held' (log e a)
  unfolding Counts
  log-Counts e a held held' h k =
      omega (arith, h, k, total-snoc gains a.effects e, total-snoc loses a.effects e)

  close_fd-Counts :
      (o : Option ℕ) (a : Acceptor) (held : ℕ)
      → Counts (holds o + held) a
      → Counts held (close_fd o a)
  unfolding gains loses holds Counts close_fd
  close_fd-Counts none a held k = omega (arith, k)
  close_fd-Counts (some f) a held k =
      omega (arith, k, total-snoc gains a.effects (closed f), total-snoc loses a.effects (closed f))

  opened-Counts :
      (o : Option ℕ) (a : Acceptor) (held : ℕ)
      → Counts held a
      → Counts (holds o + held) (note opened o a)
  unfolding gains loses holds Counts note
  opened-Counts none a held k = omega (arith, k)
  opened-Counts (some f) a held k =
      omega (arith, k, total-snoc gains a.effects (opened f), total-snoc loses a.effects (opened f))

  accepted-Counts :
      (o : Option ℕ) (a : Acceptor) (held : ℕ)
      → Counts held a
      → Counts (holds o + held) (note accepted o a)
  unfolding gains loses holds Counts note
  accepted-Counts none a held k = omega (arith, k)
  accepted-Counts (some f) a held k =
      omega
        (arith, k, total-snoc gains a.effects (accepted f), total-snoc loses a.effects (accepted f))

  unchanged :
      (held : ℕ) (a : Acceptor) (idle : Option ℕ)
      → Counts held a
      → Counts held (record a { idle_fd = idle })
  unfolding Counts
  unchanged held a idle k = k

  -- The spare descriptor and the listening socket.
  Holding : Acceptor → Type 0
  Holding a = Counts (holds a.idle_fd + is_fd a.accept_fd) a

  no_loss : (f : ℕ) → loses (accepted f) ≡ 0
  unfolding loses
  no_loss f = refl

  -- A descriptor that is accepted and then closed or handed over.
  passed_on :
      (e : Effect) (f : ℕ) (a : Acceptor)
      → gains e ≡ 0
      → loses e ≡ is_fd f
      → Holding a
      → Holding (log e (log (accepted f) a))
  unfolding Holding Counts gains
  passed_on e f a g l k = omega (
    arith,
    g,
    l,
    k,
    total-snoc gains a.effects (accepted f),
    total-snoc loses a.effects (accepted f),
    total-snoc gains (a.effects ++ (accepted f ∷ [])) e,
    total-snoc loses (a.effects ++ (accepted f ∷ [])) e,
    no_loss f,
  )

  close_fd-accept_fd : (o : Option ℕ) (a : Acceptor) → (close_fd o a).accept_fd ≡ a.accept_fd
  unfolding close_fd
  close_fd-accept_fd none a = refl
  close_fd-accept_fd (some f) a = refl

  note-accept_fd :
      (e : ℕ → Effect) (o : Option ℕ) (a : Acceptor) → (note e o a).accept_fd ≡ a.accept_fd
  unfolding note
  note-accept_fd e none a = refl
  note-accept_fd e (some f) a = refl

  note-idle_fd : (e : ℕ → Effect) (o : Option ℕ) (a : Acceptor) → (note e o a).idle_fd ≡ a.idle_fd
  unfolding note
  note-idle_fd e none a = refl
  note-idle_fd e (some f) a = refl

  free_one-Holding :
      (again null_fd : Option ℕ) (a : Acceptor) → Holding a → Holding (free_one again null_fd a)
  unfolding free_one Holding note
  free_one-Holding again null_fd a k =
      rw (note-idle_fd opened null_fd (record a₂ { idle_fd = null_fd }), same_accept)
        (opened-Counts null_fd (record a₂ { idle_fd = null_fd }) (is_fd a.accept_fd)
          (unchanged (is_fd a.accept_fd) a₂ null_fd counts₂))
    where
      a₁ : Acceptor
      a₁ = close_fd a.idle_fd a

      a₂ : Acceptor
      a₂ = close_fd again (note accepted again (record a₁ { idle_fd = again }))

      counts₂ : Counts (is_fd a.accept_fd) a₂
      counts₂ =
          close_fd-Counts again (note accepted again (record a₁ { idle_fd = again }))
            (is_fd a.accept_fd)
            (accepted-Counts again (record a₁ { idle_fd = again }) (is_fd a.accept_fd)
              (unchanged (is_fd a.accept_fd) a₁ again
                (close_fd-Counts a.idle_fd a (is_fd a.accept_fd) k)))

      same_accept : (note opened null_fd (record a₂ { idle_fd = null_fd })).accept_fd ≡ a.accept_fd
      same_accept =
          note-accept_fd opened null_fd (record a₂ { idle_fd = null_fd })
          ∙ close_fd-accept_fd again (note accepted again (record a₁ { idle_fd = again }))
          ∙ note-accept_fd accepted again (record a₁ { idle_fd = again })
          ∙ close_fd-accept_fd a.idle_fd a

  handle_read-Holding :
      (answer : AcceptAnswer) (again null_fd : Option ℕ) (a : Acceptor)
      → Holding a
      → Holding (handle_read answer again null_fd a)
  unfolding handle_read gains loses
  handle_read-Holding emfile again null_fd a k = free_one-Holding again null_fd a k
  handle_read-Holding (other_failure errno) again null_fd a k = k
  handle_read-Holding (got_fd f) again null_fd a k = by_callback a.has_callback
    where
      by_callback :
          (test : Bool)
          → Holding (
              if test
              then log (handed_over f) (log (accepted f) a)
              else log (closed f) (log (accepted f) a))
      by_callback true = passed_on (handed_over f) f a refl refl k
      by_callback false = passed_on (closed f) f a refl refl k

-- What happens to an acceptor.
pub data Op : Type 0 where
  sets_callback listens : Op
  reads : AcceptAnswer → Option ℕ → Option ℕ → Op

pub run_op : Op → Acceptor → Option Acceptor
run_op sets_callback a = some (set_new_connection_callback a)
run_op listens a = start_listening true a
run_op (reads answer again null_fd) a = some (handle_read answer again null_fd a)

pub run_ops : List Op → Acceptor → Option Acceptor
run_ops [] a = some a
run_ops (op ∷ ops) a = run_op op a >>= λ a'. run_ops ops a'

module _ (fd : ℕ) where
  run_op-Holding :
      (op : Op) (a : Acceptor)
      → Holding fd a
      → (a' : Acceptor) × (run_op op a ≡ some a') × Holding fd a'
  unfolding run_op set_new_connection_callback start_listening Holding Counts gains loses
  run_op-Holding sets_callback a k = (record a { has_callback = true }, refl, k)
  run_op-Holding listens a k = (
    log listened (record a { listening = true; events = enable_reading a.events }),
    refl,
    log-Counts fd listened (record a { listening = true; events = enable_reading a.events })
        (holds fd a.idle_fd + is_fd fd a.accept_fd) (holds fd a.idle_fd + is_fd fd a.accept_fd)
        (omega arith) k,
  )
  run_op-Holding (reads answer again null_fd) a k =
      (handle_read answer again null_fd a, refl, handle_read-Holding fd answer again null_fd a k)

  run_ops-Holding :
      (ops : List Op) (a : Acceptor)
      → Holding fd a
      → (a' : Acceptor) × (run_ops ops a ≡ some a') × Holding fd a'
  unfolding run_ops
  run_ops-Holding [] a k = (a, refl, k)
  run_ops-Holding (op ∷ ops) a k =
      let (a₁, e, k₁) = run_op-Holding op a k in
      let (a₂, f, k₂) = run_ops-Holding ops a₁ k₁ in (a₂, rw e f, k₂)

  destroy_acceptor-Counts :
      (a : Acceptor)
      → Holding fd a
      → total (gains fd) (destroy_acceptor a).effects
        ≡ total (loses fd) (destroy_acceptor a).effects
  unfolding destroy_acceptor Holding Counts gains loses
  destroy_acceptor-Counts a k = omega (
    arith,
    closed_idle,
    total-snoc (gains fd) (close_fd a.idle_fd b).effects (closed a.accept_fd),
    total-snoc (loses fd) (close_fd a.idle_fd b).effects (closed a.accept_fd),
  )
    where
      b : Acceptor
      b = log removed_channel (record a { events = disable_all a.events })

      held : ℕ
      held = holds fd a.idle_fd + is_fd fd a.accept_fd

      closed_idle : Counts fd (is_fd fd a.accept_fd) (close_fd a.idle_fd b)
      closed_idle = close_fd-Counts fd a.idle_fd b (is_fd fd a.accept_fd) (
          log-Counts fd removed_channel (record a { events = disable_all a.events }) held held
            (omega arith) k)

-- For an acceptor whose socket and spare descriptor could be opened, and any sequence in which the
-- callback is set, it listens, which succeeds, and `handleRead` runs with any answers of `accept`
-- and `open`, also on EMFILE: nothing aborts, each descriptor was opened or accepted as often as
-- it was closed or handed to the callback, and once more for each of the two that the acceptor
-- holds; and after the destructors just as often.
pub run_ops_lem :
    (fd socket_fd null_fd : ℕ) (ops : List Op)
    → (a : Acceptor) × (new_acceptor (some socket_fd) (some null_fd) ≡ some a)
      × (a' : Acceptor) × (run_ops ops a ≡ some a')
      × (total (gains fd) a'.effects
          ≡ total (loses fd) a'.effects + (holds fd a'.idle_fd + is_fd fd a'.accept_fd))
      × (total (gains fd) (destroy_acceptor a').effects
          ≡ total (loses fd) (destroy_acceptor a').effects)
unfolding new_acceptor Holding Counts gains loses holds
run_ops_lem fd socket_fd null_fd ops =
    let (a', e, k) = run_ops-Holding fd ops a (omega arith) in
    (a, refl, a', e, k, destroy_acceptor-Counts fd a' k)
  where
    a : Acceptor
    a = record {
      accept_fd = socket_fd;
      idle_fd = some null_fd;
      events = none_event;
      listening = false;
      has_callback = false;
      effects = opened socket_fd ∷ opened null_fd ∷ [];
    }
