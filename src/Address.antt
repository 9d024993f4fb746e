-- ===== src/Address.antt =====
-- network/include/network/InetAddress.h and network/src/InetAddress.cc, with what they call in
-- network/src/SocketsOps.cc: the address of an endpoint, made from and printed as text. A text is a
-- list of character codes, and a multi-byte field is its memory, in network order.
pub mod Print
use proto_rpc.Prelude.{
  ℕ, ◌+◌, ◌-◌, ◌*◌, ◌^◌, ◌≡◌, Bool, true, false, ◌&&◌, ◌||◌, Option, none, some, List, [], ◌∷◌,
  ◌++◌, ltb, leb, ◌==◌, if◌then◌else◌, length, take, ◌>>=◌, ◌>>◌, assert, decimal, equal_bytes,
  snprintf,
}
use proto_rpc.Endian.{host_to_network, network_to_host}

-- `AF_INET`, `AF_INET6`, and the families that the code does not know.
pub data Family : Type 0 where
  inet inet6 : Family
  other_family : ℕ → Family

unfoldable pub is_inet : Family → Bool
is_inet inet = true
is_inet _ = false

unfoldable pub is_inet6 : Family → Bool
is_inet6 inet6 = true
is_inet6 _ = false

-- The union of `sockaddr_in` and `sockaddr_in6`: the family and the port stand at the same offsets in
-- both, `word` is `sin_addr` of the one and `sin6_flowinfo` of the other, and `sin6_addr` lies after
-- it.
pub record SockAddr : Type 0 where
  pub family : Family
  pub port : List ℕ
  pub word : List ℕ
  pub addr6 : List ℕ
  pub scope_id : ℕ

unfoldable pub zero_bytes : ℕ → List ℕ
zero_bytes k = host_to_network k 0

-- After `memset`.
pub zero_addr : SockAddr
zero_addr = record {
  family = other_family 0;
  port = zero_bytes 2;
  word = zero_bytes 4;
  addr6 = zero_bytes 16;
  scope_id = 0;
}

-- `INADDR_LOOPBACK` and `INADDR_ANY`.
abbrev pub inaddr_loopback : ℕ
inaddr_loopback = 127 * 256 ^ 3 + 1

abbrev pub inaddr_any : ℕ
inaddr_any = 0

pub listen_addr : ℕ → Bool → Bool → SockAddr
unfolding zero_addr
listen_addr port loopback_only ipv6 =
    if ipv6
    then record zero_addr {
      family = inet6;
      addr6 = host_to_network 16 (if loopback_only then 1 else 0);
      port = host_to_network 2 port;
    }
    else record zero_addr {
      family = inet;
      word = host_to_network 4 (if loopback_only then inaddr_loopback else inaddr_any);
      port = host_to_network 2 port;
    }

unfoldable pub port_of : SockAddr → ℕ
port_of a = network_to_host a.port

pub ipv4_net_endian : SockAddr → Option (List ℕ)
ipv4_net_endian a = assert (is_inet a.family) >> some a.word

pub set_scope_id : ℕ → SockAddr → SockAddr
set_scope_id scope_id a = if is_inet6 a.family then record a { scope_id = scope_id } else a

-- What `gethostbyname_r` answers: an entry, of `AF_INET` with four bytes or not, and its first
-- address; or none.
pub data HostAnswer : Type 0 where
  found : Bool → List ℕ → HostAnswer
  not_found : HostAnswer

pub resolve : HostAnswer → SockAddr → Option (Bool × SockAddr)
resolve (found is_ipv4 bytes) out = assert is_ipv4 >> some (true, record out { word = bytes })
resolve not_found out = some (false, out)

-- `isSelfConnect`; the arguments are what `getLocalAddr` and `getPeerAddr` give.
pub is_self_connect : SockAddr → SockAddr → Bool
is_self_connect localaddr peeraddr = by_family localaddr.family
  where
    by_family : Family → Bool
    by_family inet =
        equal_bytes localaddr.port peeraddr.port && equal_bytes localaddr.word peeraddr.word
    by_family inet6 =
        equal_bytes localaddr.port peeraddr.port && equal_bytes localaddr.addr6 peeraddr.addr6
    by_family (other_family k) = false

-- `strchr(ip, ':')`.
unfoldable pub has_colon : List ℕ → Bool
has_colon [] = false
has_colon (c ∷ cs) = c == 58 || has_colon cs

-- `inet_ntop` and `inet_pton` of the two families.
module _ (ntop4 ntop6 : List ℕ → List ℕ) (pton4 pton6 : List ℕ → Option (List ℕ)) where
  set_word : Option (List ℕ) → SockAddr → SockAddr
  set_word none a = a
  set_word (some bytes) a = record a { word = bytes }

  set_addr6 : Option (List ℕ) → SockAddr → SockAddr
  set_addr6 none a = a
  set_addr6 (some bytes) a = record a { addr6 = bytes }

  -- The two `fromIpPort`; a failure is logged alone.
  pub from_ip_port4 : List ℕ → ℕ → SockAddr → SockAddr
  unfolding set_word
  from_ip_port4 ip port a =
      set_word (pton4 ip) (record a { family = inet; port = host_to_network 2 port })

  pub from_ip_port6 : List ℕ → ℕ → SockAddr → SockAddr
  unfolding set_addr6
  from_ip_port6 ip port a =
      set_addr6 (pton6 ip) (record a { family = inet6; port = host_to_network 2 port })

  -- The constructor from text.
  pub addr_of_ip : List ℕ → ℕ → Bool → SockAddr
  unfolding zero_addr
  addr_of_ip ip port ipv6 =
      if ipv6 || has_colon ip
      then from_ip_port6 ip port zero_addr
      else from_ip_port4 ip port zero_addr

  -- `toIp` in an empty buffer of `size` bytes: the string that it holds then.
  pub to_ip : ℕ → SockAddr → Option (List ℕ)
  to_ip size a = by_family a.family
    where
      by_family : Family → Option (List ℕ)
      by_family inet = assert (leb 16 size) >> some (ntop4 a.word)
      by_family inet6 = assert (leb 46 size) >> some (ntop6 a.addr6)
      by_family (other_family k) = some []

  -- `toIpPort` in an empty buffer.
  pub to_ip_port : ℕ → SockAddr → Option (List ℕ)
  to_ip_port size a =
      if is_inet6 a.family
      then (to_ip (size - 1) a >>= λ ip.
          (let end = 91 ∷ ip in
            assert (ltb (length end) size)
            >> some (end ++ snprintf (size - length end) (93 ∷ 58 ∷ decimal (port_of a)))))
      else (to_ip size a >>= λ ip.
          (assert (ltb (length ip) size)
            >> some (ip ++ snprintf (size - length ip) (58 ∷ decimal (port_of a)))))

  -- The two methods of `InetAddress`.
  pub ip_text : SockAddr → Option (List ℕ)
  ip_text a = to_ip 64 a

  pub ip_port_text : SockAddr → Option (List ℕ)
  ip_port_text a = to_ip_port 64 a
