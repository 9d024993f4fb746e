-- ===== src/Connector/Owned.antt =====
-- Whose each descriptor is: how often it was created, closed or handed over, by its number.
use proto_rpc.Prelude.{
  ℕ, ◌+◌, ◌≡◌, ◌==◌, if◌then◌else◌, Option, none, some, List, [], ◌∷◌, ◌++◌, arith,
}
use proto_rpc.Connector.{Effect, created, closed, new_connection, Connector}
use proto_rpc.Connector.Sockets.{count, count-log}

unfoldable pub opens : ℕ → Effect → ℕ
opens f (created fd) = if fd == f then 1 else 0
opens f _ = 0

unfoldable pub settles : ℕ → Effect → ℕ
settles f (closed fd) = if fd == f then 1 else 0
settles f (new_connection fd) = if fd == f then 1 else 0
settles f _ = 0

unfoldable pub held : ℕ → Option ℕ → ℕ
held f none = 0
held f (some fd) = if fd == f then 1 else 0

-- Each descriptor was created as often as it was closed or handed over, and once more if it is held.
abbrev pub OwnedBy : List Effect → Option ℕ → Type 0
OwnedBy es o = (f : ℕ) → count (opens f) es ≡ count (settles f) es + held f o

abbrev pub Owned : Connector → Type 0
Owned k = OwnedBy k.effects k.channel

pub quiet-OwnedBy :
    (es : List Effect) (o : Option ℕ) (e : Effect)
    → ((f : ℕ) → (opens f e ≡ 0) × (settles f e ≡ 0))
    → OwnedBy es o
    → OwnedBy (es ++ (e ∷ [])) o
quiet-OwnedBy es o e q b f =
    omega (arith, b f, (q f).0, (q f).1, count-log (opens f) es e, count-log (settles f) es e)

pub created-OwnedBy :
    (fd : ℕ) (es : List Effect) → OwnedBy es none → OwnedBy (es ++ (created fd ∷ [])) (some fd)
unfolding opens settles held
created-OwnedBy fd es b f =
    omega (arith, b f, count-log (opens f) es (created fd), count-log (settles f) es (created fd))

pub closed-OwnedBy :
    (fd : ℕ) (es : List Effect) → OwnedBy es (some fd) → OwnedBy (es ++ (closed fd ∷ [])) none
unfolding opens settles held
closed-OwnedBy fd es b f =
    omega (arith, b f, count-log (opens f) es (closed fd), count-log (settles f) es (closed fd))

pub handed-OwnedBy :
    (fd : ℕ) (es : List Effect)
    → OwnedBy es (some fd)
    → OwnedBy (es ++ (new_connection fd ∷ [])) none
unfolding opens settles held
handed-OwnedBy fd es b f = omega (
  arith,
  b f,
  count-log (opens f) es (new_connection fd),
  count-log (settles f) es (new_connection fd),
)
