-- ===== src/Endian.antt =====
-- network/include/network/Endian.h with the `memcpy` round it in Buffer.h and RpcCodec.cc: an
-- integer of k bytes goes to memory in network order, the most significant byte first.
use native.Mathlib.Nat.{pow-suc}
use proto_rpc.Prelude.{
  ℕ, zero, suc, ◌+◌, ◌*◌, ◌/◌, ◌%◌, ◌^◌, ◌<◌, ◌≡◌, refl, List, [], ◌∷◌, ◌++◌, arith, length,
  length-append,
}

-- The memory of `hostToNetwork(x)`.
unfoldable pub host_to_network : ℕ → ℕ → List ℕ
host_to_network zero x = []
host_to_network (suc k) x = host_to_network k (x / 256) ++ (x % 256 ∷ [])

network_to_host_from : ℕ → List ℕ → ℕ
network_to_host_from acc [] = acc
network_to_host_from acc (b ∷ bs) = network_to_host_from (acc * 256 + b) bs

-- `networkToHost` of a word with these bytes in memory.
unfoldable pub network_to_host : List ℕ → ℕ
unfolding network_to_host_from
network_to_host bs = network_to_host_from 0 bs

pub length-host_to_network : (k x : ℕ) → length (host_to_network k x) ≡ k
unfolding host_to_network
length-host_to_network zero x = refl
length-host_to_network (suc k) x = omega (
  arith,
  length-append (host_to_network k (x / 256)) (x % 256 ∷ []),
  length-host_to_network k (x / 256),
)

network_to_host_from-append :
    (acc : ℕ) (xs ys : List ℕ)
    → network_to_host_from acc (xs ++ ys) ≡ network_to_host_from (network_to_host_from acc xs) ys
unfolding network_to_host_from
network_to_host_from-append acc [] ys = refl
network_to_host_from-append acc (x ∷ xs) ys = network_to_host_from-append (acc * 256 + x) xs ys

-- A number below 256^k comes back from its network order in `k` bytes.
pub network_to_host-host_to_network :
    (k x : ℕ) → x < 256 ^ k → network_to_host (host_to_network k x) ≡ x
unfolding network_to_host host_to_network
network_to_host-host_to_network zero x h = omega arith
network_to_host-host_to_network (suc k) x h = omega (
  arith,
  network_to_host_from-append 0 (host_to_network k (x / 256)) (x % 256 ∷ []),
  network_to_host-host_to_network k (x / 256) (omega (arith, pow-suc 256 k)),
)
