-- ===== src/TcpServer/Steps.antt =====
-- What holds of a server's connections after each step of the system.
use proto_rpc.Prelude.{
  made, made_next, made_self, ℕ, zero, suc, ◌+◌, ◌≤◌, ◌<◌, ◌≡◌, refl, ◌⊎◌, inl, inr, none, some,
  List, [], ◌∷◌, ◌++◌, arith, length, total, total-snoc, lt→ltb, ◌==◌, ==_refl, if◌then◌else◌,
  equal_bytes_refl,
}
use proto_rpc.LoopPool.{LoopPool, get_next_loop}
use proto_rpc.LoopPool.Ready.{IsReady, get_next_loop-IsReady}
use proto_rpc.TcpServer.{
  Conn, Server, connect_established, connect_destroyed, remove_connection_in_loop, give, conn_name,
  assign_conn, erase_conn, new_connection, remove_connection, run_remove_connection,
}
use proto_rpc.TcpServer.Names.{id_limit}
use proto_rpc.TcpServer.Registry.{
  Entry, at, entry_at, misnamed, wrong, assign_conn_lem, erase_conn_lem,
}
use proto_rpc.TcpServer.System.{
  System, accepts, closes, removes, pick, close_conn, remove_conn, step, destroys,
}

pick-total :
    (i : ℕ) (cs : List Conn)
    → (pick i cs ≡ none)
      ⊎ ((c : Conn) × (rest : List Conn) × (pick i cs ≡ some (c, rest))
          × ((f : Conn → ℕ) → total f cs ≡ f c + total f rest))
unfolding pick
pick-total i [] = inl refl
pick-total zero (c ∷ cs) = inr (c, cs, refl, λ f. refl)
pick-total (suc i) (c ∷ cs) = elim (pick-total i cs) [
  | inl e ↦ inl (rw e refl)
  | inr (d, rest, e, splits) ↦ inr (d, c ∷ rest, rw e refl, λ f. omega (arith, splits f))
]

-- Every connection of the map is up or leaving, each once; what was made is in the map or was
-- destroyed; and the names are those of the numbers.
pub record Inv (y : System) : Type 0 where
  pub ready : IsReady y.server.pool
  pub first : 1 ≤ y.server.next_conn_id
  pub placed :
      (k : ℕ) → total (at k) y.up + total (at k) y.leaving ≡ total (entry_at k) y.server.connections
  pub once :
      (k : ℕ)
      → total (entry_at k) y.server.connections + total (destroys k) y.server.tasks
        ≡ made k y.server.next_conn_id
  pub keys : total (wrong y.server.name y.server.ip_port) y.server.connections ≡ 0
  pub up_names : total (misnamed y.server.name y.server.ip_port) y.up ≡ 0
  pub leaving_names : total (misnamed y.server.name y.server.ip_port) y.leaving ≡ 0

at_number : (k : ℕ) (c : Conn) → at k c ≡ (if c.id == k then 1 else 0)
unfolding at
at_number k c = refl

at_self : (c : Conn) → at c.id c ≡ 1
unfolding at
at_self c = rw (==_refl c.id) refl

pub accepts-Inv :
    (sockfd : ℕ) (y : System)
    → length y.server.ip_port ≤ 53
    → y.server.next_conn_id < id_limit
    → Inv y
    → (y' : System) × (step (accepts sockfd) y ≡ some y')
      × Inv y'
      × (y'.server.ip_port ≡ y.server.ip_port)
      × (y'.server.next_conn_id ≡ y.server.next_conn_id + 1)
unfolding step new_connection destroys entry_at wrong misnamed
accepts-Inv sockfd y fits low v = by_loop (get_next_loop-IsReady y.server.pool v.ready)
  where
    s : Server
    s = y.server

    by_loop :
        (l : ℕ) × (p' : LoopPool) × (get_next_loop s.pool ≡ some (l, p')) × IsReady p'
        → (y' : System) × (step (accepts sockfd) y ≡ some y')
          × Inv y'
          × (y'.server.ip_port ≡ s.ip_port)
          × (y'.server.next_conn_id ≡ s.next_conn_id + 1)
    by_loop (l, p', e, r) = (
      y',
      rw e refl,
      record {
        ready = r;
        first = omega (arith, v.first);
        placed = λ k. omega (arith, v.placed k, added (entry_at k), total-snoc (at k) y.up c);
        once = λ k. omega (
          arith,
          v.once k,
          added (entry_at k),
          total-snoc (destroys k) s.tasks (l, connect_established c),
          made_next k s.next_conn_id v.first,
          at_number k c,
        );
        keys = omega (arith, added (wrong s.name s.ip_port), v.keys, well_named, key_same);
        up_names =
            omega (arith, v.up_names, total-snoc (misnamed s.name s.ip_port) y.up c, well_named);
        leaving_names = v.leaving_names;
      },
      refl,
      refl,
    )
      where
        c : Conn
        c = record {
          id = s.next_conn_id;
          name = conn_name s.name s.ip_port s.next_conn_id;
          loop = l;
          sockfd = sockfd;
        }

        y' : System
        y' = record {
          server = give l (connect_established c) (record s {
            pool = p';
            next_conn_id = s.next_conn_id + 1;
            connections = assign_conn c.name c s.connections;
          });
          up = y.up ++ (c ∷ []);
          leaving = y.leaving;
        }

        well_named : misnamed s.name s.ip_port c ≡ 0
        well_named = rw (equal_bytes_refl c.name, lt→ltb s.next_conn_id id_limit low) refl

        key_same : wrong s.name s.ip_port (c.name, c) ≡ 0
        key_same = rw (well_named, equal_bytes_refl c.name) refl

        is_new : total (entry_at c.id) s.connections ≡ 0
        is_new = omega (arith, v.once s.next_conn_id, made_self s.next_conn_id)

        added :
            (f : Entry → ℕ)
            → total f (assign_conn c.name c s.connections) ≡ total f s.connections + f (c.name, c)
        added = assign_conn_lem s.name s.ip_port fits c s.connections well_named v.keys is_new

-- What a step gives if it does not abort.
abbrev pub Kept : System → System → Type 0
Kept y y' =
    Inv y'
    × (y'.server.ip_port ≡ y.server.ip_port)
    × (y'.server.next_conn_id ≡ y.server.next_conn_id)

pub closes-Inv :
    (i : ℕ) (y : System) → Inv y → (y' : System) × (step (closes i) y ≡ some y') × Kept y y'
unfolding step close_conn remove_connection destroys
closes-Inv i y v = by_pick (pick-total i y.up)
  where
    by_pick :
        (pick i y.up ≡ none)
          ⊎ ((c : Conn) × (rest : List Conn) × (pick i y.up ≡ some (c, rest))
              × ((f : Conn → ℕ) → total f y.up ≡ f c + total f rest))
        → (y' : System) × (step (closes i) y ≡ some y') × Kept y y'
    by_pick (inl e) = (y, rw e refl, (v, refl, refl))
    by_pick (inr (c, rest, e, splits)) = (
      record { server = remove_connection c y.server; up = rest; leaving = y.leaving ++ (c ∷ []) },
      rw e refl,
      (
        record {
          ready = v.ready;
          first = v.first;
          placed = λ k. omega (arith, v.placed k, splits (at k), total-snoc (at k) y.leaving c);
          once = λ k. omega (
            arith,
            v.once k,
            total-snoc (destroys k) y.server.tasks (y.server.loop, remove_connection_in_loop c),
          );
          keys = v.keys;
          up_names = omega (arith, v.up_names, splits (misnamed y.server.name y.server.ip_port));
          leaving_names = omega (
            arith,
            v.leaving_names,
            v.up_names,
            splits (misnamed y.server.name y.server.ip_port),
            total-snoc (misnamed y.server.name y.server.ip_port) y.leaving c,
          );
        },
        refl,
        refl,
      ),
    )

pub removes-Inv :
    (i : ℕ) (y : System)
    → length y.server.ip_port ≤ 53
    → Inv y
    → (y' : System) × (step (removes i) y ≡ some y') × Kept y y'
unfolding step remove_conn run_remove_connection destroys
removes-Inv i y fits v = by_pick (pick-total i y.leaving)
  where
    s : Server
    s = y.server

    by_pick :
        (pick i y.leaving ≡ none)
          ⊎ ((c : Conn) × (rest : List Conn) × (pick i y.leaving ≡ some (c, rest))
              × ((f : Conn → ℕ) → total f y.leaving ≡ f c + total f rest))
        → (y' : System) × (step (removes i) y ≡ some y') × Kept y y'
    by_pick (inl e) = (y, rw e refl, (v, refl, refl))
    by_pick (inr (c, rest, e, splits)) = (
      y',
      rw (e, erased.0) refl,
      (
        record {
          ready = v.ready;
          first = v.first;
          placed = λ k. omega (arith, v.placed k, splits (at k), erased.2 k);
          once = λ k. omega (
            arith,
            v.once k,
            erased.2 k,
            total-snoc (destroys k) s.tasks (c.loop, connect_destroyed c),
          );
          keys = erased.1;
          up_names = v.up_names;
          leaving_names = omega (arith, v.leaving_names, splits (misnamed s.name s.ip_port));
        },
        refl,
        refl,
      ),
    )
      where
        y' : System
        y' = record {
          server =
              give c.loop (connect_destroyed c)
                (record s { connections = (erase_conn c.name s.connections).1 });
          up = y.up;
          leaving = rest;
        }

        well_named : misnamed s.name s.ip_port c ≡ 0
        well_named = omega (arith, v.leaving_names, splits (misnamed s.name s.ip_port))

        erased :
            ((erase_conn c.name s.connections).0 ≡ 1)
            × (total (wrong s.name s.ip_port) (erase_conn c.name s.connections).1 ≡ 0)
            × ((k : ℕ)
                → total (entry_at k) s.connections
                  ≡ at k c + total (entry_at k) (erase_conn c.name s.connections).1)
        erased =
            erase_conn_lem s.name s.ip_port fits c s.connections well_named v.keys
              (omega (arith, v.placed c.id, splits (at c.id), at_self c))
