-- ===== src/TcpClient/Moves.antt =====
-- The connector of a client (network/src/Connector.cc) through an event of its socket or a stop.
use proto_rpc.Prelude.{
  ℕ, ◌≡◌, refl, sym, subst, ◌++◌, ◌∷◌, [], ap, ◌∙◌, Bool, true, false, ◌||◌, Option, none, some,
  arith, if◌then◌else◌, ◌>>=◌, ◌⊎◌, inl, inr,
}
use proto_rpc.Connector.{
  Effect, Connector, State, disconnected, connecting, connected, log, removed, queued_reset, retry,
  remove_and_reset_channel, reset_channel, stop_in_loop, settle, handle_write, handle_error,
}
use proto_rpc.Connector.Sockets.{waiting}
use proto_rpc.Connector.Owned.{
  OwnedBy, Owned, opens, settles, quiet-OwnedBy, closed-OwnedBy, handed-OwnedBy,
}
use proto_rpc.Connector.Attempt.{IsIdle, IsBusy}

-- Either no socket waits, or one waits and no connection is up.
unfoldable pub Placed : Connector → Option ℕ → Type 0
Placed k up = IsIdle k ⊎ ((fd : ℕ) × IsBusy fd k × (up ≡ none))

-- What is left of a connector that took its socket off.
unfoldable pub IsSettled : Connector → Type 0
IsSettled k = waiting k.state ≡ 0

-- The connector's socket is off the loop.
taken_off : ℕ → Connector → Connector
taken_off fd k = log queued_reset (log (removed fd) k)

removes :
    (fd : ℕ) (k : Connector)
    → k.channel ≡ some fd
    → remove_and_reset_channel k ≡ some (fd, taken_off fd k)
unfolding remove_and_reset_channel taken_off
removes fd k e =
    ap (λ o. elim o [ none ↦ none | some fd ↦ some (fd, log queued_reset (log (removed fd) k)) ]) e

taken_off-OwnedBy :
    (fd : ℕ) (k : Connector) (o : Option ℕ)
    → OwnedBy k.effects o
    → OwnedBy (taken_off fd k).effects o
unfolding taken_off opens settles
taken_off-OwnedBy fd k o b =
    quiet-OwnedBy (k.effects ++ (removed fd ∷ [])) o queued_reset (λ f. (refl, refl))
      (quiet-OwnedBy k.effects o (removed fd) (λ f. (refl, refl)) b)

-- The socket that the channel has goes off the loop.
busy-OwnedBy :
    (fd : ℕ) (k : Connector)
    → k.channel ≡ some fd
    → Owned k
    → OwnedBy (taken_off fd k).effects (some fd)
busy-OwnedBy fd k e b = taken_off-OwnedBy fd k (some fd) (subst (OwnedBy k.effects) e b)

settle-OwnedBy :
    (failed self : Bool) (fd : ℕ) (k : Connector)
    → OwnedBy k.effects (some fd)
    → OwnedBy (settle failed self fd k).effects none
unfolding settle retry
settle-OwnedBy failed self fd k b = by_tests (failed || self) k.connect_wanted
  where
    by_tests :
        (bad wanted : Bool)
        → OwnedBy
            (if◌then◌else◌ {A = Connector} bad (retry fd k) (
              if wanted
              then log (Effect.new_connection fd) (record k { state = connected })
              else log (Effect.closed fd) (record k { state = connected }))).effects
            none
    by_tests true wanted = closed-OwnedBy fd k.effects b
    by_tests false true = handed-OwnedBy fd k.effects b
    by_tests false false = closed-OwnedBy fd k.effects b

settle-IsSettled :
    (failed self : Bool) (fd : ℕ) (k : Connector) → IsSettled (settle failed self fd k)
unfolding IsSettled settle retry waiting
settle-IsSettled failed self fd k = by_tests (failed || self) k.connect_wanted
  where
    by_tests :
        (bad wanted : Bool)
        → waiting
            (if◌then◌else◌ {A = Connector} bad (retry fd k) (
              if wanted
              then log (Effect.new_connection fd) (record k { state = connected })
              else log (Effect.closed fd) (record k { state = connected }))).state
          ≡ 0
    by_tests true wanted = refl
    by_tests false true = refl
    by_tests false false = refl

pub handle_write_lem :
    (failed self : Bool) (fd : ℕ) (k : Connector)
    → IsBusy fd k
    → Owned k
    → (k' : Connector) × (handle_write failed self k ≡ some k')
      × IsSettled k'
      × OwnedBy k'.effects none
unfolding handle_write
handle_write_lem failed self fd k b h = (
  settle failed self fd (taken_off fd k),
  ap
        (λ s. elim s [
          | connecting ↦ remove_and_reset_channel k >>= λ (fd, c'). some (settle failed self fd c')
          | disconnected ↦ some k
          | connected ↦ none
        ])
        b.waits
      ∙ ap (λ o. o >>= λ (fd, c'). some (settle failed self fd c')) (removes fd k b.on_socket),
  settle-IsSettled failed self fd (taken_off fd k),
  settle-OwnedBy failed self fd (taken_off fd k) (busy-OwnedBy fd k b.on_socket h),
)

pub handle_error_lem :
    (fd : ℕ) (k : Connector)
    → IsBusy fd k
    → Owned k
    → (k' : Connector) × (handle_error k ≡ some k') × IsSettled k' × OwnedBy k'.effects none
unfolding handle_error IsSettled retry waiting
handle_error_lem fd k b h = (
  retry fd (taken_off fd k),
  ap
        (λ s. elim s [
          | connecting ↦ remove_and_reset_channel k >>= λ (fd, c'). some (retry fd c')
          | _ ↦ some k
        ])
        b.waits
      ∙ ap (λ o. o >>= λ (fd, c'). some (retry fd c')) (removes fd k b.on_socket),
  refl,
  closed-OwnedBy fd (taken_off fd k).effects (busy-OwnedBy fd k b.on_socket h),
)

pub stop_in_loop_lem :
    (k : Connector) (up : Option ℕ)
    → Placed k up
    → Owned k
    → (k' : Connector) × (stop_in_loop k ≡ some k') × IsSettled k' × OwnedBy k'.effects none
unfolding Placed stop_in_loop IsSettled retry waiting
stop_in_loop_lem k up (inl i) h =
    (k, stays k.state i.not_waiting, i.not_waiting, subst (OwnedBy k.effects) i.no_channel h)
  where
    stays :
        (s : State)
        → waiting s ≡ 0
        → ◌≡◌ {A = Option Connector}
            (elim s [
              | connecting ↦
                  remove_and_reset_channel (record k { state = disconnected }) >>= λ (fd, c').
                  some (retry fd c')
              | _ ↦ some k
            ])
            (some k)
    stays disconnected w = refl
    stays connected w = refl
    stays connecting w = absurd (omega (arith, w))
stop_in_loop_lem k up (inr (fd, b, e)) h =
    let k₀ = record k { state = disconnected } in
    (
      retry fd (taken_off fd k₀),
      ap
            (λ s. elim s [
              | connecting ↦
                  remove_and_reset_channel (record k { state = disconnected }) >>= λ (fd, c').
                  some (retry fd c')
              | _ ↦ some k
            ])
            b.waits
          ∙ ap (λ o. o >>= λ (fd, c'). some (retry fd c')) (removes fd k₀ b.on_socket),
      refl,
      closed-OwnedBy fd (taken_off fd k₀).effects (busy-OwnedBy fd k₀ b.on_socket h),
    )

-- After `resetChannel` no socket waits.
pub reset-Placed : (k : Connector) (up : Option ℕ) → IsSettled k → Placed (reset_channel k) up
unfolding Placed IsSettled reset_channel
reset-Placed k up s = inl (record { not_waiting = s; no_channel = refl })

pub Placed-IsBusy :
    (fd : ℕ) (k : Connector) (up : Option ℕ)
    → Placed k up
    → k.channel ≡ some fd
    → IsBusy fd k × (up ≡ none)
unfolding Placed
Placed-IsBusy fd k up (inl i) e = absurd (none-some fd (sym i.no_channel ∙ e))
  where
    none-some : (fd : ℕ) → none ≡ some fd → ⊥
    none-some fd e = cc
Placed-IsBusy fd k up (inr (fd', b, n)) e = (record { waits = b.waits; on_socket = e }, n)
