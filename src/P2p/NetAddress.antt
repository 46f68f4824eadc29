-- ===== src/P2p/NetAddress.antt =====
-- p2p/netaddress.go. Text is a list of bytes; net.JoinHostPort of IP.String, and the parsers, come from
-- outside.
pub mod Routing
use btm_stats.Base.{
  ℕ, Bool, true, false, not, ◌&&◌, ◌||◌, ◌⊎◌, inl, inr, List, [], ◌∷◌, ◌++◌, length, ltb, ◌==◌,
  if◌then◌else◌,
}
use btm_stats.Errors.{Error}
use btm_stats.P2p.Ip.{
  Ip, IpNet, equal_bytes, equal_ip, to4, is_unspecified, is_loopback, net_contains, v4_in_v6_prefix,
  v4_bcast, zeros,
}

pub record NetAddress : Type 0 where
  pub ip : Ip
  pub port : ℕ
  pub str : List ℕ

-- net.ParseIP of a dotted IPv4 address, and the IPv6 address of two leading groups of two bytes
abbrev v4 : ℕ → ℕ → ℕ → ℕ → Ip
v4 a b c d = v4_in_v6_prefix ++ (a ∷ b ∷ c ∷ d ∷ [])

abbrev v6 : ℕ → ℕ → ℕ → ℕ → Ip
v6 a b c d = a ∷ b ∷ c ∷ d ∷ zeros 12

abbrev cidr : Ip → ℕ → ℕ → IpNet
cidr ip ones bits = record { ip = ip; ones = ones; bits = bits }

abbrev rfc1918_10 : IpNet
rfc1918_10 = cidr (v4 10 0 0 0) 8 32

abbrev rfc1918_192 : IpNet
rfc1918_192 = cidr (v4 192 168 0 0) 16 32

abbrev rfc1918_172 : IpNet
rfc1918_172 = cidr (v4 172 16 0 0) 12 32

abbrev rfc3849_net : IpNet
rfc3849_net = cidr (v6 0x20 0x01 0x0d 0xb8) 32 128

abbrev rfc3927_net : IpNet
rfc3927_net = cidr (v4 169 254 0 0) 16 32

abbrev rfc3964_net : IpNet
rfc3964_net = cidr (v6 0x20 0x02 0 0) 16 128

abbrev rfc4193_net : IpNet
rfc4193_net = cidr (v6 0xfc 0 0 0) 7 128

abbrev rfc4380_net : IpNet
rfc4380_net = cidr (v6 0x20 0x01 0 0) 32 128

abbrev rfc4843_net : IpNet
rfc4843_net = cidr (v6 0x20 0x01 0 0x10) 28 128

abbrev rfc4862_net : IpNet
rfc4862_net = cidr (v6 0xfe 0x80 0 0) 64 128

abbrev rfc6052_net : IpNet
rfc6052_net = cidr (v6 0 0x64 0xff 0x9b) 96 128

abbrev rfc6145_net : IpNet
rfc6145_net = cidr (0 ∷ 0 ∷ 0 ∷ 0 ∷ 0 ∷ 0 ∷ 0 ∷ 0 ∷ 0xff ∷ 0xff ∷ 0 ∷ 0 ∷ 0 ∷ 0 ∷ 0 ∷ 0 ∷ []) 96 128

abbrev zero4 : IpNet
zero4 = cidr (v4 0 0 0 0) 8 32

abbrev pub rfc1918 : NetAddress → Bool
rfc1918 na =
    net_contains rfc1918_10 na.ip
    || (net_contains rfc1918_192 na.ip || net_contains rfc1918_172 na.ip)

abbrev pub rfc3849 : NetAddress → Bool
rfc3849 na = net_contains rfc3849_net na.ip

abbrev pub rfc3927 : NetAddress → Bool
rfc3927 na = net_contains rfc3927_net na.ip

abbrev pub rfc3964 : NetAddress → Bool
rfc3964 na = net_contains rfc3964_net na.ip

abbrev pub rfc4193 : NetAddress → Bool
rfc4193 na = net_contains rfc4193_net na.ip

abbrev pub rfc4380 : NetAddress → Bool
rfc4380 na = net_contains rfc4380_net na.ip

abbrev pub rfc4843 : NetAddress → Bool
rfc4843 na = net_contains rfc4843_net na.ip

abbrev pub rfc4862 : NetAddress → Bool
rfc4862 na = net_contains rfc4862_net na.ip

abbrev pub rfc6052 : NetAddress → Bool
rfc6052 na = net_contains rfc6052_net na.ip

abbrev pub rfc6145 : NetAddress → Bool
rfc6145 na = net_contains rfc6145_net na.ip

-- Local, Valid, Routable
unfoldable pub local : NetAddress → Bool
local na = is_loopback na.ip || net_contains zero4 na.ip

unfoldable pub valid : NetAddress → Bool
valid na =
    not (length na.ip == 0) && not (is_unspecified na.ip || (rfc3849 na || equal_ip na.ip v4_bcast))

unfoldable pub routable : NetAddress → Bool
routable na =
    valid na
    && not (rfc1918 na || (rfc3927 na || (rfc4862 na || (rfc4193 na || (rfc4843 na || local na)))))

-- the constants of ReachabilityTo, and ReachabilityTo
abbrev pub unreachable : ℕ
unreachable = 0

abbrev pub default : ℕ
default = 1

abbrev pub teredo : ℕ
teredo = 2

abbrev pub ipv6_weak : ℕ
ipv6_weak = 3

abbrev pub ipv4 : ℕ
ipv4 = 4

abbrev pub ipv6_strong : ℕ
ipv6_strong = 5

unfoldable pub reachability_to : NetAddress → NetAddress → ℕ
reachability_to na o =
    let o_is_v4 = not (length (to4 o.ip) == 0) in
    let tunnelled = rfc3964 o || (rfc6052 o || rfc6145 o) in
    if not (routable na)
    then unreachable
    else if rfc4380 na
    then (if not (routable o)
        then default
        else if rfc4380 o
        then teredo
        else if o_is_v4
        then ipv4
        else ipv6_weak)
    else if not (length (to4 na.ip) == 0)
    then (if routable o && o_is_v4 then ipv4 else default)
    else if not (routable o)
    then default
    else if rfc4380 o
    then teredo
    else if o_is_v4
    then ipv4
    else if tunnelled
    then ipv6_weak
    else ipv6_strong

-- net.JoinHostPort of IP.String and of a port
module _ (join_host_port : Ip → ℕ → List ℕ) where
  -- NewNetAddressIPPort
  unfoldable pub new_net_address_ip_port : Ip → ℕ → NetAddress
  new_net_address_ip_port ip port = record { ip = ip; port = port; str = join_host_port ip port }

  -- DialString, String, Equals of another address; String also keeps its result
  abbrev pub dial_string : NetAddress → List ℕ
  dial_string na = join_host_port na.ip na.port

  unfoldable pub string_of : NetAddress → List ℕ × NetAddress
  string_of na =
      if length na.str == 0
      then (dial_string na, record na { str = dial_string na })
      else (na.str, na)

  unfoldable pub equals : NetAddress → NetAddress → Bool
  equals na o = equal_bytes (string_of na).0 (string_of o).0

  -- net.SplitHostPort, net.ParseIP, net.LookupIP, which gives some address, and strconv.ParseUint of
  -- 16 bits
  module _ (split_host_port : List ℕ → Error ⊎ (List ℕ × List ℕ)) (parse_ip : List ℕ → Ip)
      (lookup_ip : List ℕ → Error ⊎ (Ip × List Ip)) (parse_uint16 : List ℕ → Error ⊎ ℕ) where
    -- NewNetAddressString, from its end
    abbrev pub with_port : Ip → Error ⊎ ℕ → Error ⊎ NetAddress
    with_port ip (inl error) = inl error
    with_port ip (inr port) = inr (new_net_address_ip_port ip port)

    abbrev pub with_ips : List ℕ → Error ⊎ (Ip × List Ip) → Error ⊎ NetAddress
    with_ips port_str (inl error) = inl error
    with_ips port_str (inr (ip, ips)) = with_port ip (parse_uint16 port_str)

    abbrev pub with_host : Error ⊎ (List ℕ × List ℕ) → Error ⊎ NetAddress
    with_host (inl error) = inl error
    with_host (inr (host, port_str)) =
        let looked_up = with_ips port_str (lookup_ip host) in
        if length (parse_ip host) == 0 && ltb 0 (length host)
        then looked_up
        else with_port (parse_ip host) (parse_uint16 port_str)

    unfoldable pub new_net_address_string : List ℕ → Error ⊎ NetAddress
    new_net_address_string addr = with_host (split_host_port addr)

    -- NewNetAddressStrings, with the error of cmn.Fmt
    module _ (error_in_address : List ℕ → Error → Error) where
      abbrev pub after :
          List ℕ → Error ⊎ NetAddress → Error ⊎ List NetAddress → Error ⊎ List NetAddress
      after addr (inl error) rest = inl (error_in_address addr error)
      after addr (inr na) (inl error) = inl error
      after addr (inr na) (inr nas) = inr (na ∷ nas)

      unfoldable pub new_net_address_strings : List (List ℕ) → Error ⊎ List NetAddress
      new_net_address_strings [] = inr []
      new_net_address_strings (addr ∷ addrs) =
          after addr (new_net_address_string addr) (new_net_address_strings addrs)
