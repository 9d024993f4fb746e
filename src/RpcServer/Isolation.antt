-- ===== src/RpcServer/Isolation.antt =====
-- The connections of a server next to each other: what happens to one of them is the same without
-- the others.
use Prim.Native.String.{String}
use proto_rpc.Prelude.{
  ℕ, ◌≡◌, refl, sym, ap, ◌∙◌, Bool, true, false, Option, none, some, List, [], ◌∷◌, ◌==◌, ==_refl,
  ==_iff, if◌then◌else◌, ◌>>=◌, inl, inr, Option-cases, Bool-cases,
}
use proto_rpc.StdMap.{find, assign, find-assign}
use proto_rpc.RpcCodec.{Wire}
use proto_rpc.RpcChannel.{Service}
use proto_rpc.RpcServer.{
  Peer, RpcServer, register_service, on_peer, on_connection, peer_up, peer_down, peer_reads,
  peer_done, server_message, service_done,
}

-- A service is registered; a connection comes up, or goes down; bytes of one arrive, at least one;
-- a service is done with a call of one.
pub data Event : Type 0 where
  registers : String → Service → Event
  comes_up : (conn start : ℕ) → Event
  goes_down : (conn : ℕ) → Event
  arrives : (conn byte : ℕ) → List ℕ → Event
  finishes : (conn : ℕ) → List ℕ → (call : ℕ) → Event

module _ (w : Wire) where
  unfoldable pub step : Event → RpcServer → Option RpcServer
  step (registers name service) s = some (register_service name service s)
  step (comes_up conn start) s = on_connection true conn start s
  step (goes_down conn) s = on_connection false conn 0 s
  step (arrives conn b bytes) s = server_message w conn (b ∷ bytes) s
  step (finishes conn bytes call) s = service_done w conn bytes call s

  unfoldable pub run : List Event → RpcServer → Option RpcServer
  run [] s = some s
  run (e ∷ es) s = step e s >>= λ s'. run es s'

-- The events of one connection; a registration is one of each.
unfoldable pub concerns : ℕ → Event → Bool
concerns k (registers name service) = true
concerns k (comes_up conn start) = conn == k
concerns k (goes_down conn) = conn == k
concerns k (arrives conn b bytes) = conn == k
concerns k (finishes conn bytes call) = conn == k

unfoldable pub events_of : ℕ → List Event → List Event
events_of k [] = []
events_of k (e ∷ es) = let rest = events_of k es in if concerns k e then e ∷ rest else rest

-- The server with one of its connections alone.
unfoldable pub only_peer : ℕ → Option Peer → List (ℕ × Peer)
only_peer k none = []
only_peer k (some p) = (k, p) ∷ []

unfoldable pub only : ℕ → RpcServer → RpcServer
only k s = record s { peers = only_peer k (find k s.peers) }

find-only_peer : (k : ℕ) (o : Option Peer) → find k (only_peer k o) ≡ o
unfolding find only_peer
find-only_peer k none = refl
find-only_peer k (some p) = rw (==_refl k) refl

assign-only_peer : (k : ℕ) (p : Peer) (o : Option Peer) → assign k p (only_peer k o) ≡ (k, p) ∷ []
unfolding assign only_peer
assign-only_peer k p none = refl
assign-only_peer k p (some q) = rw (==_refl k) refl

-- Only what stands at the connection matters to it.
assign-only :
    (k : ℕ) (p : Peer) (s : RpcServer)
    → only k (record s { peers = assign k p s.peers })
      ≡ record s { peers = assign k p (only_peer k (find k s.peers)) }
unfolding only only_peer
assign-only k p s =
    rw (find-assign k k p s.peers, ==_refl k, assign-only_peer k p (find k s.peers)) refl

assign-other :
    (k j : ℕ) (p : Peer) (s : RpcServer)
    → (j == k) ≡ false
    → only k (record s { peers = assign j p s.peers }) ≡ only k s
unfolding only
assign-other k j p s h = rw (find-assign j k p s.peers, h) refl

on_peer-only :
    (k : ℕ) (f : Peer → Option Peer) (s : RpcServer)
    → on_peer k f (only k s) ≡ (on_peer k f s >>= λ s'. some (only k s'))
unfolding on_peer only
on_peer-only k f s = rw (find-only_peer k (find k s.peers)) (by_found (find k s.peers) refl)
  where
    by_result :
        (o : Option Peer) (r : Option Peer)
        → find k s.peers ≡ o
        → (r >>= λ p'. some (record s { peers = assign k p' (only_peer k o) })) ≡ (
            (r >>= λ p'. some (record s { peers = assign k p' s.peers })) >>= λ s'.
            some (only k s'))
    by_result o none e = refl
    by_result o (some p) e =
        ap (λ o. some (record s { peers = assign k p (only_peer k o) })) (sym e)
        ∙ ap some (sym (assign-only k p s))

    by_found :
        (o : Option Peer)
        → find k s.peers ≡ o
        → (o >>= λ p. f p >>= λ p'. some (record s { peers = assign k p' (only_peer k o) })) ≡ (
            (o >>= λ p. f p >>= λ p'. some (record s { peers = assign k p' s.peers })) >>= λ s'.
            some (only k s'))
    by_found none e = refl
    by_found (some p) e = by_result (some p) (f p) e

register-only :
    (k : ℕ) (name : String) (service : Service) (s : RpcServer)
    → only k (register_service name service s) ≡ register_service name service (only k s)
unfolding only register_service
register-only k name service s = refl

on_connection-only :
    (k start : ℕ) (up : Bool) (s : RpcServer)
    → on_connection up k start (only k s) ≡ (on_connection up k start s >>= λ s'. some (only k s'))
unfolding on_connection only only_peer
on_connection-only k start false s = on_peer-only k (λ p. some (peer_down p)) s
on_connection-only k start true s = by_made (peer_up k start s.services)
  where
    by_made :
        (r : Option Peer)
        → (r >>= λ p. some (record (only k s) { peers = assign k p (only k s).peers }))
          ≡ ((r >>= λ p. some (record s { peers = assign k p s.peers })) >>= λ s'. some (only k s'))
    by_made none = refl
    by_made (some p) = ap some (sym (assign-only k p s))

assigned-other :
    (k j : ℕ) (r : Option Peer) (s s' : RpcServer)
    → (j == k) ≡ false
    → (r >>= λ p. some (record s { peers = assign j p s.peers })) ≡ some s'
    → only k s' ≡ only k s
assigned-other k j none s s' h e = cc
assigned-other k j (some p) s s' h e = ap (only k) (cc) ∙ assign-other k j p s h

on_peer-other :
    (k j : ℕ) (f : Peer → Option Peer) (s s' : RpcServer)
    → (j == k) ≡ false
    → on_peer j f s ≡ some s'
    → only k s' ≡ only k s
unfolding on_peer
on_peer-other k j f s s' h e = by_found (find j s.peers) e
  where
    by_found :
        (o : Option Peer)
        → (o >>= λ p. f p >>= λ p'. some (record s { peers = assign j p' s.peers })) ≡ some s'
        → only k s' ≡ only k s
    by_found none e = cc
    by_found (some p) e = assigned-other k j (f p) s s' h e

module _ (w : Wire) where
  -- A step of a connection is the same without the others, and leaves the others alone.
  step-only :
      (k : ℕ) (e : Event) (s : RpcServer)
      → concerns k e ≡ true
      → step w e (only k s) ≡ (step w e s >>= λ s'. some (only k s'))
  unfolding step concerns server_message service_done only
  step-only k (registers name service) s h = rw (register-only k name service s) refl
  step-only k (comes_up j start) s h = rw ((==_iff j k).0 h) (on_connection-only k start true s)
  step-only k (goes_down j) s h = rw ((==_iff j k).0 h) (on_connection-only k 0 false s)
  step-only k (arrives j b bytes) s h =
      rw ((==_iff j k).0 h) (on_peer-only k (peer_reads w k s.services (b ∷ bytes)) s)
  step-only k (finishes j bytes call) s h =
      rw ((==_iff j k).0 h) (on_peer-only k (peer_done w bytes call) s)

  step-other :
      (k : ℕ) (e : Event) (s s' : RpcServer)
      → concerns k e ≡ false
      → step w e s ≡ some s'
      → only k s' ≡ only k s
  unfolding step concerns server_message service_done on_connection
  step-other k (registers name service) s s' h e = cc
  step-other k (comes_up j start) s s' h e =
      assigned-other k j (peer_up j start s.services) s s' h e
  step-other k (goes_down j) s s' h e = on_peer-other k j (λ p. some (peer_down p)) s s' h e
  step-other k (arrives j b bytes) s s' h e =
      on_peer-other k j (peer_reads w j s.services (b ∷ bytes)) s s' h e
  step-other k (finishes j bytes call) s s' h e =
      on_peer-other k j (peer_done w bytes call) s s' h e

  subject : Event → ℕ
  subject (registers name service) = 0
  subject (comes_up conn start) = conn
  subject (goes_down conn) = conn
  subject (arrives conn b bytes) = conn
  subject (finishes conn bytes call) = conn

  concerns-subject : (e : Event) → concerns (subject e) e ≡ true
  unfolding concerns subject
  concerns-subject (registers name service) = refl
  concerns-subject (comes_up conn start) = ==_refl conn
  concerns-subject (goes_down conn) = ==_refl conn
  concerns-subject (arrives conn b bytes) = ==_refl conn
  concerns-subject (finishes conn bytes call) = ==_refl conn

  -- What the connection sees of a first step that was made.
  first_step :
      (k : ℕ) (e : Event) (es : List Event) (s s₁ : RpcServer)
      → step w e s ≡ some s₁
      → run w (events_of k (e ∷ es)) (only k s) ≡ run w (events_of k es) (only k s₁)
  unfolding run events_of
  first_step k e es s s₁ st = elim (Bool-cases (concerns k e)) [
    | inl c ↦
        (rw c refl)
        ∙ ap (λ o. o >>= λ s'. run w (events_of k es) s')
            (step-only k e s c ∙ ap (λ o. o >>= λ s'. some (only k s')) st)
    | inr c ↦ (rw c refl) ∙ ap (run w (events_of k es)) (sym (step-other k e s s₁ c st))
  ]

  step-runs :
      (e : Event) (es : List Event) (s a : RpcServer)
      → run w (events_of (subject e) (e ∷ es)) (only (subject e) s) ≡ some a
      → (s₁ : RpcServer) × (step w e s ≡ some s₁)
  unfolding run events_of
  step-runs e es s a h = elim (Option-cases (step w e s)) [
    | inl none_made ↦ absurd (none-some (aborts none_made ∙ h))
    | inr made ↦ made
  ]
    where
      aborts :
          step w e s ≡ none → none ≡ run w (events_of (subject e) (e ∷ es)) (only (subject e) s)
      aborts n =
          sym (
            ap (λ o. o >>= λ s'. run w (events_of (subject e) es) s')
              (step-only (subject e) e s (concerns-subject e)
                ∙ ap (λ o. o >>= λ s'. some (only (subject e) s')) n))
          ∙ sym (rw (concerns-subject e) refl)

      none-some : none ≡ some a → ⊥
      none-some e = cc

  -- The connections of an RPC server do not disturb each other: if for each connection the events
  -- that concern it (registrations of services, its coming up, the bytes that arrive on it, calls
  -- that services finish for it, its going down), run on the server with that connection alone, do
  -- not abort, then all the events run on the whole server without an abort, and each connection
  -- ends with the channel and the buffer that it has alone.
  pub run-alone :
      (es : List Event) (s : RpcServer) (alone : ℕ → RpcServer)
      → ((k : ℕ) → run w (events_of k es) (only k s) ≡ some (alone k))
      → (s' : RpcServer) × (run w es s ≡ some s') × ((k : ℕ) → only k s' ≡ alone k)
  unfolding run events_of
  run-alone [] s alone h = (s, refl, λ k. by_some (h k))
    where
      by_some : {a b : RpcServer} → some a ≡ some b → a ≡ b
      by_some e = cc
  run-alone (e ∷ es) s alone h =
      let (s₁, st) = step-runs e es s (alone (subject e)) (h (subject e)) in
      let (s', rest, eq) = run-alone es s₁ alone (λ k. sym (first_step k e es s s₁ st) ∙ h k) in
      (s', ap (λ o. o >>= λ s'. run w es s') st ∙ rest, eq)

  pub run-only :
      (k : ℕ) (es : List Event) (s s' : RpcServer)
      → run w es s ≡ some s'
      → run w (events_of k es) (only k s) ≡ some (only k s')
  unfolding run events_of
  run-only k [] s s' h = ap (λ o. o >>= λ t. some (only k t)) h
  run-only k (e ∷ es) s s' h = elim (Option-cases (step w e s)) [
    | inl n ↦ cc
    | inr (s₁, st) ↦
        first_step k e es s s₁ st
        ∙ run-only k es s₁ s' (sym (ap (λ o. o >>= λ t. run w es t) st) ∙ h)
  ]
