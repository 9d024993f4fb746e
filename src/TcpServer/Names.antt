-- ===== src/TcpServer/Names.antt =====
-- The names of connections in network/src/TcpServer.cc: an address and a number in a buffer of 64
-- bytes.
use proto_rpc.Prelude.{
  ℕ, ◌≤◌, ◌<◌, ◌^◌, ◌≡◌, sym, ap, ◌∙◌, List, [], ◌∷◌, ◌++◌, arith, length, length-append, take_all,
  decimal, length-decimal, value, value-decimal, append-cancel_left,
}
use proto_rpc.TcpServer.{conn_name}

-- An `ipPort` of at most 53 characters leaves eight for the number.
abbrev pub id_limit : ℕ
id_limit = 10 ^ 8

conn_name_full :
    (name ip_port : List ℕ) (id : ℕ)
    → length ip_port ≤ 53
    → id < id_limit
    → conn_name name ip_port id ≡ name ++ (45 ∷ (ip_port ++ (35 ∷ decimal id)))
unfolding conn_name
conn_name_full name ip_port id fits h =
    ap (λ t. name ++ t)
      (take_all 63 (45 ∷ (ip_port ++ (35 ∷ decimal id)))
        (omega (arith, length-append ip_port (35 ∷ decimal id), length-decimal 7 id h)))

pub conn_name-injective :
    (name ip_port : List ℕ) (i j : ℕ)
    → length ip_port ≤ 53
    → i < id_limit
    → j < id_limit
    → conn_name name ip_port i ≡ conn_name name ip_port j
    → i ≡ j
conn_name-injective name ip_port i j fits hi hj e =
    sym (value-decimal i (omega arith))
    ∙ ap value (
        append-cancel_left (35 ∷ []) (decimal i) (decimal j) (
          append-cancel_left ip_port (35 ∷ decimal i) (35 ∷ decimal j) (
            append-cancel_left (45 ∷ []) (ip_port ++ (35 ∷ decimal i)) (ip_port ++ (35 ∷ decimal j))
              (append-cancel_left name (45 ∷ (ip_port ++ (35 ∷ decimal i)))
                (45 ∷ (ip_port ++ (35 ∷ decimal j)))
                (sym (conn_name_full name ip_port i fits hi)
                  ∙ e
                  ∙ conn_name_full name ip_port j fits hj)))))
    ∙ value-decimal j (omega arith)
