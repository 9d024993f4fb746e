-- ===== src/Tests/BufferTests.antt =====
-- The buffer on a few bytes.
use proto_rpc.Prelude.{ℕ, ◌≡◌, refl, List, [], ◌∷◌, ◌++◌, some, arith, pos}
use proto_rpc.Endian.{host_to_network}
use proto_rpc.Buffer.{Buffer, read_fd, got}
use proto_rpc.Buffer.View.{IsValid, contents}
use proto_rpc.Buffer.Read.{read_fd_lem}
use proto_rpc.Tests.Base.{holding, holding-IsValid}

abbrev three : List ℕ
three = 1 ∷ 2 ∷ 3 ∷ []

abbrev held : Buffer
held = holding three

held-IsValid : IsValid held
held-IsValid = holding-IsValid three (omega arith)

host_to_network-value : host_to_network 4 258 ≡ 0 ∷ 0 ∷ 1 ∷ 2 ∷ []
unfolding host_to_network
host_to_network-value = refl

held-word : contents held ≡ host_to_network 2 258 ++ (3 ∷ [])
unfolding host_to_network
held-word = refl

read_fd_lem_example :
    (b' : Buffer) × (read_fd (got (4 ∷ 5 ∷ [])) 0 held ≡ some (b', pos 2, 0))
    × IsValid b'
    × (contents b' ≡ 1 ∷ 2 ∷ 3 ∷ 4 ∷ 5 ∷ [])
read_fd_lem_example = read_fd_lem (4 ∷ 5 ∷ []) 0 held held-IsValid (omega arith) (omega arith)
