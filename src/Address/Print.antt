-- ===== src/Address/Print.antt =====
-- An address as text (network/src/SocketsOps.cc): the text as a whole against the buffer of 64 bytes.
use proto_rpc.Prelude.{
  ℕ, ◌+◌, ◌-◌, ◌≤◌, ◌<◌, ◌^◌, ◌≡◌, refl, ◌∙◌, Bool, true, false, Option, some, List, [], ◌∷◌, ◌++◌,
  arith, ltb, length, length-append, take_all, decimal, length-decimal, lt→ltb, snprintf,
  if◌then◌else◌, ◌>>=◌, ◌>>◌, assert, ◌||◌,
}
use proto_rpc.Endian.{host_to_network, network_to_host, network_to_host-host_to_network}
use proto_rpc.Address.{
  Family, inet, inet6, other_family, is_inet6, SockAddr, port_of, has_colon, to_ip, to_ip_port,
  ip_port_text, addr_of_ip, from_ip_port4, from_ip_port6, zero_addr,
}

-- The whole text of an address that has this address and port as text.
unfoldable pub joined : Family → List ℕ → List ℕ → List ℕ → List ℕ
joined inet ip4 ip6 port = ip4 ++ (58 ∷ port)
joined inet6 ip4 ip6 port = (91 ∷ ip6) ++ (93 ∷ 58 ∷ port)
joined (other_family k) ip4 ip6 port = 58 ∷ port

-- `snprintf` after a head that leaves enough of the buffer.
printed_after :
    (size : ℕ) (head tail : List ℕ)
    → length head + length tail < size
    → (assert (ltb (length head) size) >> some (head ++ snprintf (size - length head) tail))
      ≡ some (head ++ tail)
printed_after size head tail h =
    rw
      (
        lt→ltb (length head) size (omega arith),
        take_all (size - length head - 1) tail (omega arith),
      )
      refl

-- What `inet_ntop` and `inet_pton` promise: the longest texts, INET_ADDRSTRLEN and INET6_ADDRSTRLEN
-- less the byte at the end.
module _ (ntop4 ntop6 : List ℕ → List ℕ) (pton4 pton6 : List ℕ → Option (List ℕ))
    (short4 : (w : List ℕ) → length (ntop4 w) ≤ 15)
    (short6 : (w : List ℕ) → length (ntop6 w) ≤ 45) where
  port_digits : (a : SockAddr) → port_of a < 2 ^ 16 → length (decimal (port_of a)) ≤ 5
  port_digits a h = length-decimal 4 (port_of a) (omega arith)

  -- If `inet_ntop` gives at most 15 characters for an IPv4 and 45 for an IPv6 address, and the
  -- port is below 2^16, `InetAddress::toIpPort` does not abort and gives the whole text, `ip:port`
  -- or `[ip]:port` or, for another family, `:port`, with nothing cut off, in at most 53
  -- characters.
  pub ip_port_text_lem :
      (a : SockAddr)
      → port_of a < 2 ^ 16
      → (ip_port_text ntop4 ntop6 pton4 pton6 a
          ≡ some (joined a.family (ntop4 a.word) (ntop6 a.addr6) (decimal (port_of a))))
        × (length (joined a.family (ntop4 a.word) (ntop6 a.addr6) (decimal (port_of a))) ≤ 53)
  unfolding ip_port_text to_ip_port to_ip joined is_inet6
  ip_port_text_lem a h = by_family a.family
    where
      port : List ℕ
      port = decimal (port_of a)

      by_family :
          (f : Family)
          → ((if is_inet6 f
                then (to_ip ntop4 ntop6 pton4 pton6 63 (record a { family = f }) >>= λ ip.
                    (let end = 91 ∷ ip in
                      assert (ltb (length end) 64)
                      >> some (end ++ snprintf (64 - length end) (93 ∷ 58 ∷ port))))
                else (to_ip ntop4 ntop6 pton4 pton6 64 (record a { family = f }) >>= λ ip.
                    (assert (ltb (length ip) 64)
                      >> some (ip ++ snprintf (64 - length ip) (58 ∷ port)))))
              ≡ some (joined f (ntop4 a.word) (ntop6 a.addr6) port))
            × (length (joined f (ntop4 a.word) (ntop6 a.addr6) port) ≤ 53)
      by_family inet = (
        printed_after 64 (ntop4 a.word) (58 ∷ port) (omega (arith, short4 a.word, port_digits a h)),
        omega (arith, length-append (ntop4 a.word) (58 ∷ port), short4 a.word, port_digits a h),
      )
      by_family inet6 = (
        printed_after 64 (91 ∷ ntop6 a.addr6) (93 ∷ 58 ∷ port)
            (omega (arith, short6 a.addr6, port_digits a h)),
        omega (
          arith,
          length-append (91 ∷ ntop6 a.addr6) (93 ∷ 58 ∷ port),
          short6 a.addr6,
          port_digits a h,
        ),
      )
      by_family (other_family k) = (
        printed_after 64 [] (58 ∷ port) (omega (arith, port_digits a h)),
        omega (arith, port_digits a h),
      )

  -- Under the same bounds on `inet_ntop`, an address made from a text and a port below 2^16, where
  -- `inet_pton` of the family chosen (IPv6 if it is asked for or the text has a colon) reads the
  -- text and `inet_ntop` prints it back, has that port, and `toIpPort` gives the text, in brackets
  -- for IPv6, with a colon and the port.
  pub ip_port_text-addr_of_ip :
      (ip w : List ℕ) (port : ℕ) (ipv6 : Bool)
      → port < 2 ^ 16
      → (if ipv6 || has_colon ip then pton6 ip else pton4 ip) ≡ some w
      → (if ipv6 || has_colon ip then ntop6 w else ntop4 w) ≡ ip
      → (port_of (addr_of_ip ntop4 ntop6 pton4 pton6 ip port ipv6) ≡ port)
        × (ip_port_text ntop4 ntop6 pton4 pton6 (addr_of_ip ntop4 ntop6 pton4 pton6 ip port ipv6)
            ≡ some (
                if ipv6 || has_colon ip
                then (91 ∷ ip) ++ (93 ∷ 58 ∷ decimal port)
                else ip ++ (58 ∷ decimal port)))
  unfolding addr_of_ip from_ip_port4 from_ip_port6 port_of joined
  ip_port_text-addr_of_ip ip w port ipv6 h = by_version (ipv6 || has_colon ip)
    where
      kept : network_to_host (host_to_network 2 port) ≡ port
      kept = network_to_host-host_to_network 2 port (omega arith)

      by_version :
          (six : Bool)
          → (if six then pton6 ip else pton4 ip) ≡ some w
          → (if six then ntop6 w else ntop4 w) ≡ ip
          → (port_of (
                if six
                then from_ip_port6 ntop4 ntop6 pton4 pton6 ip port zero_addr
                else from_ip_port4 ntop4 ntop6 pton4 pton6 ip port zero_addr)
              ≡ port)
            × (ip_port_text ntop4 ntop6 pton4 pton6 (
                  if six
                  then from_ip_port6 ntop4 ntop6 pton4 pton6 ip port zero_addr
                  else from_ip_port4 ntop4 ntop6 pton4 pton6 ip port zero_addr)
                ≡ some (
                    if six
                    then (91 ∷ ip) ++ (93 ∷ 58 ∷ decimal port)
                    else ip ++ (58 ∷ decimal port)))
      by_version true p n = rw p (
        kept,
        (ip_port_text_lem
              (record zero_addr { family = inet6; port = host_to_network 2 port; addr6 = w })
              (rw kept h)).0
            ∙ rw (n, kept) refl,
      )
      by_version false p n = rw p (
        kept,
        (ip_port_text_lem
              (record zero_addr { family = inet; port = host_to_network 2 port; word = w })
              (rw kept h)).0
            ∙ rw (n, kept) refl,
      )
