-- ===== src/TcpServer/Registry.antt =====
-- The map `connections_` of network/src/TcpServer.cc: what an assignment and an erasure do where the
-- keys are the names of the connections.
use proto_rpc.Prelude.{
  ℕ, ◌+◌, ◌≤◌, ◌<◌, ◌≡◌, refl, sym, ap, ◌∙◌, ◌⊎◌, inl, inr, Bool, true, false, ◌&&◌, List, [], ◌∷◌,
  arith, length, total, ltb, ltb→lt, ◌==◌, ==_iff, if◌then◌else◌, equal_bytes, equal_bytes_refl,
  equal_bytes→eq,
}
use proto_rpc.TcpServer.{Conn, conn_name, assign_conn, erase_conn}
use proto_rpc.TcpServer.Names.{id_limit, conn_name-injective}

abbrev pub Entry : Type 0
Entry = List ℕ × Conn

-- Whether it is the connection with this number.
unfoldable pub at : ℕ → Conn → ℕ
at k c = if c.id == k then 1 else 0

unfoldable pub entry_at : ℕ → Entry → ℕ
entry_at k e = at k e.1

has_key : List ℕ → Entry → ℕ
has_key key e = if equal_bytes e.0 key then 1 else 0

assign_conn-total :
    (f : Entry → ℕ) (key : List ℕ) (c : Conn) (m : List Entry)
    → total (has_key key) m ≡ 0
    → total f (assign_conn key c m) ≡ total f m + f (key, c)
unfolding assign_conn has_key
assign_conn-total f key c [] h = omega arith
assign_conn-total f key c ((k, d) ∷ m) h =
    by_key (equal_bytes k key) h (λ g. assign_conn-total f key c m g)
  where
    by_key :
        (b : Bool)
        → (if b then 1 else 0) + total (has_key key) m ≡ 0
        → (total (has_key key) m ≡ 0 → total f (assign_conn key c m) ≡ total f m + f (key, c))
        → total f (if b then (k, c) ∷ m else (k, d) ∷ assign_conn key c m)
          ≡ f (k, d) + total f m + f (key, c)
    by_key true h g = absurd (omega arith)
    by_key false h g = omega (arith, g (omega arith))

erase_conn_cases :
    (key : List ℕ) (m : List Entry)
    → (total (has_key key) m ≡ 0)
      ⊎ ((e : Entry) × (e.0 ≡ key)
          × ((erase_conn key m).0 ≡ 1)
          × ((f : Entry → ℕ) → total f m ≡ f e + total f (erase_conn key m).1))
unfolding erase_conn has_key
erase_conn_cases key [] = inl refl
erase_conn_cases key ((k, d) ∷ m) =
    by_key (equal_bytes k key) (equal_bytes→eq k key) (erase_conn_cases key m)
  where
    by_key :
        (b : Bool)
        → (b ≡ true → k ≡ key)
        → (total (has_key key) m ≡ 0)
          ⊎ ((e : Entry) × (e.0 ≡ key)
              × ((erase_conn key m).0 ≡ 1)
              × ((f : Entry → ℕ) → total f m ≡ f e + total f (erase_conn key m).1))
        → ((if b then 1 else 0) + total (has_key key) m ≡ 0)
          ⊎ ((e : Entry) × (e.0 ≡ key)
              × ((if◌then◌else◌ {A = ℕ × List Entry} b
                    (1, m)
                    ((erase_conn key m).0, (k, d) ∷ (erase_conn key m).1)).0
                  ≡ 1)
              × ((f : Entry → ℕ)
                  → f (k, d) + total f m
                    ≡ f e
                      + total f
                          (if◌then◌else◌ {A = ℕ × List Entry} b
                            (1, m)
                            ((erase_conn key m).0, (k, d) ∷ (erase_conn key m).1)).1))
    by_key true same r = inr ((k, d), same refl, refl, λ f. refl)
    by_key false same (inl none_here) = inl (omega arith)
    by_key false same (inr (e, is_key, one, splits)) =
        inr (e, is_key, one, λ f. omega (arith, splits f))

module _ (name ip_port : List ℕ) where
  -- Whether the name is not that of the number, or the number is past the limit.
  unfoldable pub misnamed : Conn → ℕ
  misnamed c =
      if equal_bytes c.name (conn_name name ip_port c.id) && ltb c.id id_limit then 0 else 1

  unfoldable pub wrong : Entry → ℕ
  wrong e = misnamed e.1 + (if equal_bytes e.0 e.1.name then 0 else 1)

  pub named :
      (c : Conn) → misnamed c ≡ 0 → (c.name ≡ conn_name name ip_port c.id) × (c.id < id_limit)
  unfolding misnamed
  named c h =
      by_tests (equal_bytes c.name (conn_name name ip_port c.id)) (ltb c.id id_limit)
        (equal_bytes→eq c.name (conn_name name ip_port c.id)) (ltb→lt c.id id_limit) h
    where
      by_tests :
          (a b : Bool)
          → (a ≡ true → c.name ≡ conn_name name ip_port c.id)
          → (b ≡ true → c.id < id_limit)
          → if◌then◌else◌ {A = ℕ} (a && b) 0 1 ≡ 0
          → (c.name ≡ conn_name name ip_port c.id) × (c.id < id_limit)
      by_tests true true e l h = (e refl, l refl)
      by_tests true false e l h = absurd (omega arith)
      by_tests false b e l h = absurd (omega arith)

  pub named_entry :
      (e : Entry) → wrong e ≡ 0 → (e.0 ≡ conn_name name ip_port e.1.id) × (e.1.id < id_limit)
  unfolding wrong
  named_entry e h = by_key (equal_bytes e.0 e.1.name) (equal_bytes→eq e.0 e.1.name) h
    where
      by_key :
          (b : Bool)
          → (b ≡ true → e.0 ≡ e.1.name)
          → misnamed e.1 + (if b then 0 else 1) ≡ 0
          → (e.0 ≡ conn_name name ip_port e.1.id) × (e.1.id < id_limit)
      by_key true same h = (same refl ∙ (named e.1 (omega arith)).0, (named e.1 (omega arith)).1)
      by_key false same h = absurd (omega arith)

  at-key : (i : ℕ) (e : Entry) → wrong e ≡ 0 → entry_at i e ≤ has_key (conn_name name ip_port i) e
  unfolding has_key entry_at at
  at-key i e h = by_test (e.1.id == i) (==_iff e.1.id i).0
    where
      by_test :
          (b : Bool)
          → (b ≡ true → e.1.id ≡ i)
          → (if b then 1 else 0) ≤ (if equal_bytes e.0 (conn_name name ip_port i) then 1 else 0)
      by_test false same = omega arith
      by_test true same =
          rw
            (
              (named_entry e h).0 ∙ ap (conn_name name ip_port) (same refl),
              equal_bytes_refl (conn_name name ip_port i),
            )
            (omega arith)

  total-le :
      (f g : Entry → ℕ) (m : List Entry)
      → ((e : Entry) → wrong e ≡ 0 → f e ≤ g e)
      → total wrong m ≡ 0
      → total f m ≤ total g m
  total-le f g [] h w = omega arith
  total-le f g (e ∷ m) h w = omega (arith, h e (omega arith), total-le f g m h (omega arith))

module _ (name ip_port : List ℕ) (fits : length ip_port ≤ 53) where
  key-at :
      (i : ℕ) (e : Entry)
      → i < id_limit
      → wrong name ip_port e ≡ 0
      → has_key (conn_name name ip_port i) e ≤ entry_at i e
  unfolding has_key entry_at at
  key-at i e l h =
      by_test (equal_bytes e.0 (conn_name name ip_port i))
        (equal_bytes→eq e.0 (conn_name name ip_port i))
    where
      by_test :
          (b : Bool)
          → (b ≡ true → e.0 ≡ conn_name name ip_port i)
          → (if b then 1 else 0) ≤ (if e.1.id == i then 1 else 0)
      by_test false same = omega arith
      by_test true same =
          rw
            ((==_iff e.1.id i).1 (
              conn_name-injective name ip_port e.1.id i fits (named_entry name ip_port e h).1 l
                (sym (named_entry name ip_port e h).0 ∙ same refl)))
            (omega arith)

  -- A connection with a new number is added to the map.
  pub assign_conn_lem :
      (c : Conn) (m : List Entry)
      → misnamed name ip_port c ≡ 0
      → total (wrong name ip_port) m ≡ 0
      → total (entry_at c.id) m ≡ 0
      → (f : Entry → ℕ) → total f (assign_conn c.name c m) ≡ total f m + f (c.name, c)
  assign_conn_lem c m n w new f = assign_conn-total f c.name c m (
      rw ((named name ip_port c n).0) (
        omega (
          arith,
          total-le name ip_port (has_key (conn_name name ip_port c.id)) (entry_at c.id) m
              (λ e h. key-at c.id e (named name ip_port c n).1 h) w,
        )))

  -- A connection of the map is taken out of it.
  pub erase_conn_lem :
      (c : Conn) (m : List Entry)
      → misnamed name ip_port c ≡ 0
      → total (wrong name ip_port) m ≡ 0
      → 0 < total (entry_at c.id) m
      → ((erase_conn c.name m).0 ≡ 1)
        × (total (wrong name ip_port) (erase_conn c.name m).1 ≡ 0)
        × ((k : ℕ) → total (entry_at k) m ≡ at k c + total (entry_at k) (erase_conn c.name m).1)
  unfolding entry_at at
  erase_conn_lem c m n w there = by_cases (erase_conn_cases c.name m)
    where
      by_cases :
          (total (has_key c.name) m ≡ 0)
            ⊎ ((e : Entry) × (e.0 ≡ c.name)
                × ((erase_conn c.name m).0 ≡ 1)
                × ((f : Entry → ℕ) → total f m ≡ f e + total f (erase_conn c.name m).1))
          → ((erase_conn c.name m).0 ≡ 1)
            × (total (wrong name ip_port) (erase_conn c.name m).1 ≡ 0)
            × ((k : ℕ) → total (entry_at k) m ≡ at k c + total (entry_at k) (erase_conn c.name m).1)
      by_cases (inl absent) = absurd (
          omega (
            arith,
            total-le name ip_port (entry_at c.id) (has_key (conn_name name ip_port c.id)) m
                (λ e h. at-key name ip_port c.id e h) w,
            ap (λ t. total (has_key t) m) (named name ip_port c n).0,
          ))
      by_cases (inr (e, is_key, one, splits)) = (
        one,
        omega (arith, splits (wrong name ip_port)),
        λ k.
            splits (entry_at k)
            ∙ ap (λ i. (if i == k then 1 else 0) + total (entry_at k) (erase_conn c.name m).1)
                same_id,
      )
        where
          right : wrong name ip_port e ≡ 0
          right = omega (arith, splits (wrong name ip_port))

          same_id : e.1.id ≡ c.id
          same_id =
              conn_name-injective name ip_port e.1.id c.id fits (named_entry name ip_port e right).1
                (named name ip_port c n).1
                (sym (named_entry name ip_port e right).0 ∙ is_key ∙ (named name ip_port c n).0)
