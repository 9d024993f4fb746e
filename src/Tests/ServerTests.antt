-- ===== src/Tests/ServerTests.antt =====
-- A listening server with two connections, and addresses that print as text.
use proto_rpc.Prelude.{
  made, ℕ, ◌+◌, ◌<◌, ◌≤◌, ◌≡◌, refl, false, Option, none, some, List, [], ◌∷◌, ◌++◌, arith, length,
  total, decimal, if◌then◌else◌, ◌||◌, ◌^◌,
}
use proto_rpc.Endian.{network_to_host}
use proto_rpc.Acceptor.{Acceptor, new_acceptor, destroy_acceptor, got_fd, emfile}
use proto_rpc.Acceptor.Descriptors.{
  Op, sets_callback, listens, reads, run_ops, gains, loses, holds, is_fd, run_ops_lem,
}
use proto_rpc.Address.{SockAddr, inet, port_of, ip_port_text, addr_of_ip, has_colon}
use proto_rpc.Address.Print.{joined, ip_port_text_lem, ip_port_text-addr_of_ip}
use proto_rpc.TcpServer.{Server, destroy_server}
use proto_rpc.TcpServer.Registry.{at, entry_at}
use proto_rpc.TcpServer.System.{System, Event, accepts, closes, removes, run, new_system, destroys}
use proto_rpc.TcpServer.Lifecycle.{started, run-new_system}

-- Four digits joined by dots stand for four small bytes; an IPv6 address prints as `::`.
abbrev dotted : List ℕ → List ℕ
dotted (a ∷ b ∷ c ∷ d ∷ []) = (48 + a) ∷ 46 ∷ (48 + b) ∷ 46 ∷ (48 + c) ∷ 46 ∷ (48 + d) ∷ []
dotted w = []

abbrev colons : List ℕ → List ℕ
colons w = 58 ∷ 58 ∷ []

abbrev one_address : List ℕ → Option (List ℕ)
one_address ip = some (1 ∷ 2 ∷ 3 ∷ 4 ∷ [])

short_dotted : (w : List ℕ) → length (dotted w) ≤ 15
short_dotted [] = omega arith
short_dotted (a ∷ []) = omega arith
short_dotted (a ∷ b ∷ []) = omega arith
short_dotted (a ∷ b ∷ c ∷ []) = omega arith
short_dotted (a ∷ b ∷ c ∷ d ∷ []) = omega arith
short_dotted (a ∷ b ∷ c ∷ d ∷ e ∷ w) = omega arith

short_colons : (w : List ℕ) → length (colons w) ≤ 45
short_colons w = omega arith

abbrev peer : SockAddr
peer = record {
  family = inet;
  port = 1 ∷ 2 ∷ [];
  word = 1 ∷ 2 ∷ 3 ∷ 4 ∷ [];
  addr6 = [];
  scope_id = 0;
}

peer-port : port_of peer < 2 ^ 16
unfolding port_of network_to_host
peer-port = omega arith

ip_port_text_lem_example :
    (ip_port_text dotted colons one_address one_address peer
      ≡ some (joined inet (dotted (1 ∷ 2 ∷ 3 ∷ 4 ∷ [])) (colons []) (decimal (port_of peer))))
    × (length (joined inet (dotted (1 ∷ 2 ∷ 3 ∷ 4 ∷ [])) (colons []) (decimal (port_of peer))) ≤ 53)
ip_port_text_lem_example =
    ip_port_text_lem dotted colons one_address one_address short_dotted short_colons peer peer-port

abbrev ip : List ℕ
ip = 49 ∷ 46 ∷ 50 ∷ 46 ∷ 51 ∷ 46 ∷ 52 ∷ []

no_colon :
    (if◌then◌else◌ {A = Option (List ℕ)} (false || has_colon ip) (one_address ip) (one_address ip))
    ≡ some (1 ∷ 2 ∷ 3 ∷ 4 ∷ [])
unfolding has_colon
no_colon = refl

prints :
    (if◌then◌else◌ {A = List ℕ}
      (false || has_colon ip)
      (colons (1 ∷ 2 ∷ 3 ∷ 4 ∷ []))
      (dotted (1 ∷ 2 ∷ 3 ∷ 4 ∷ [])))
    ≡ ip
unfolding has_colon
prints = refl

ip_port_text-addr_of_ip_example :
    (port_of (addr_of_ip dotted colons one_address one_address ip 8080 false) ≡ 8080)
    × (ip_port_text dotted colons one_address one_address
          (addr_of_ip dotted colons one_address one_address ip 8080 false)
        ≡ some (
            if false || has_colon ip
            then (91 ∷ ip) ++ (93 ∷ 58 ∷ decimal 8080)
            else ip ++ (58 ∷ decimal 8080)))
ip_port_text-addr_of_ip_example =
    ip_port_text-addr_of_ip dotted colons one_address one_address short_dotted short_colons ip
      (1 ∷ 2 ∷ 3 ∷ 4 ∷ []) 8080 false (omega arith) no_colon prints

-- Two connections come, and the first closes and is removed.
abbrev events : List Event
events = accepts 7 ∷ accepts 8 ∷ closes 0 ∷ removes 0 ∷ []

run-new_system_example :
    (s : Server) × (started (λ i. 10 + i) false 2 1 (115 ∷ []) ip ≡ some s)
    × (y : System) × (run events (new_system s) ≡ some y)
    × ((k : ℕ)
        → total (at k) y.up + total (at k) y.leaving ≡ total (entry_at k) y.server.connections)
    × ((k : ℕ)
        → total (entry_at k) y.server.connections + total (destroys k) y.server.tasks
          ≡ made k y.server.next_conn_id)
    × ((k : ℕ) → total (destroys k) (destroy_server y.server).tasks ≡ made k y.server.next_conn_id)
run-new_system_example =
    run-new_system (λ i. 10 + i) false 2 1 (115 ∷ []) ip events (omega arith) (omega arith)

-- A connection comes, and then there are no descriptors left.
abbrev ops : List Op
ops = sets_callback ∷ listens ∷ reads (got_fd 9) none none ∷ reads emfile (some 4) (some 4) ∷ []

run_ops_lem_example :
    (a : Acceptor) × (new_acceptor (some 3) (some 4) ≡ some a)
    × (a' : Acceptor) × (run_ops ops a ≡ some a')
    × (total (gains 4) a'.effects
        ≡ total (loses 4) a'.effects + (holds 4 a'.idle_fd + is_fd 4 a'.accept_fd))
    × (total (gains 4) (destroy_acceptor a').effects
        ≡ total (loses 4) (destroy_acceptor a').effects)
run_ops_lem_example = run_ops_lem 4 3 4 ops
