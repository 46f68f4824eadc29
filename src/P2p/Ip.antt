-- ===== src/P2p/Ip.antt =====
-- Go's net.IP and net.IPNet, as p2p/netaddress.go and p2p/pex/addrbook.go use them. An IP is its bytes,
-- none for nil; a mask is that of net.CIDRMask, by its number of ones and of bits.
use btm_stats.Base.{
  ℕ, zero, suc, ◌-◌, ◌/◌, ◌^◌, Bool, true, false, ◌&&◌, ◌||◌, Option, none, some, List, [], ◌∷◌,
  length, take, drop, leb, ◌==◌, if◌then◌else◌,
}

abbrev pub Ip : Type 0
Ip = List ℕ

pub record IpNet : Type 0 where
  pub ip : Ip
  pub ones : ℕ
  pub bits : ℕ

abbrev pub equal_bytes : List ℕ → List ℕ → Bool
equal_bytes [] [] = true
equal_bytes [] (y ∷ ys) = false
equal_bytes (x ∷ xs) [] = false
equal_bytes (x ∷ xs) (y ∷ ys) = x == y && equal_bytes xs ys

-- the twelve bytes before an IPv4 address in 16 bytes
abbrev pub v4_in_v6_prefix : Ip
v4_in_v6_prefix = 0 ∷ 0 ∷ 0 ∷ 0 ∷ 0 ∷ 0 ∷ 0 ∷ 0 ∷ 0 ∷ 0 ∷ 0xff ∷ 0xff ∷ []

-- IP.To4
unfoldable pub to4 : Ip → Ip
to4 ip =
    if length ip == 4
    then ip
    else if length ip == 16 && equal_bytes (take 12 ip) v4_in_v6_prefix
    then drop 12 ip
    else []

-- IP.Equal
unfoldable pub equal_ip : Ip → Ip → Bool
equal_ip ip x =
    if length ip == length x
    then equal_bytes ip x
    else if length ip == 4 && length x == 16
    then equal_bytes (take 12 x) v4_in_v6_prefix && equal_bytes ip (drop 12 x)
    else length ip == 16
      && length x == 4
      && equal_bytes (take 12 ip) v4_in_v6_prefix
      && equal_bytes (drop 12 ip) x

abbrev pub zeros : ℕ → Ip
zeros zero = []
zeros (suc n) = 0 ∷ zeros n

-- net.IPv4bcast, net.IPv4zero, net.IPv6zero, net.IPv6loopback
abbrev pub v4_bcast : Ip
v4_bcast = 0 ∷ 0 ∷ 0 ∷ 0 ∷ 0 ∷ 0 ∷ 0 ∷ 0 ∷ 0 ∷ 0 ∷ 0xff ∷ 0xff ∷ 255 ∷ 255 ∷ 255 ∷ 255 ∷ []

abbrev pub v4_zero : Ip
v4_zero = 0 ∷ 0 ∷ 0 ∷ 0 ∷ 0 ∷ 0 ∷ 0 ∷ 0 ∷ 0 ∷ 0 ∷ 0xff ∷ 0xff ∷ 0 ∷ 0 ∷ 0 ∷ 0 ∷ []

abbrev pub v6_zero : Ip
v6_zero = zeros 16

abbrev pub v6_loopback : Ip
v6_loopback = 0 ∷ 0 ∷ 0 ∷ 0 ∷ 0 ∷ 0 ∷ 0 ∷ 0 ∷ 0 ∷ 0 ∷ 0 ∷ 0 ∷ 0 ∷ 0 ∷ 0 ∷ 1 ∷ []

-- IP.IsUnspecified, IP.IsLoopback
unfoldable pub is_unspecified : Ip → Bool
is_unspecified ip = equal_ip ip v4_zero || equal_ip ip v6_zero

abbrev first_is : ℕ → Ip → Bool
first_is n [] = false
first_is n (x ∷ xs) = x == n

unfoldable pub is_loopback : Ip → Bool
is_loopback ip = if length (to4 ip) == 0 then equal_ip ip v6_loopback else first_is 127 (to4 ip)

-- whether bytes agree in their first bits; the second list is not shorter
unfoldable pub agree : ℕ → List ℕ → List ℕ → Bool
agree ones [] ys = true
agree ones (x ∷ xs) [] = true
agree ones (x ∷ xs) (y ∷ ys) =
    let rest = agree (ones - 8) xs ys in
    if leb 8 ones then x == y && rest else x / 2 ^ (8 - ones) == y / 2 ^ (8 - ones)

-- the network number and the ones of a net, or nil where the lengths do not fit
unfoldable pub network_number_and_mask : IpNet → Option (Ip × ℕ)
network_number_and_mask n =
    if length (to4 n.ip) == 4
    then (if n.bits == 32
        then some (to4 n.ip, n.ones)
        else if n.bits == 128
        then some (to4 n.ip, n.ones - 96)
        else none)
    else if length n.ip == 16 && n.bits == 128
    then some (n.ip, n.ones)
    else none

-- IPNet.Contains
abbrev pub short_form : Ip → Ip
short_form ip = if length (to4 ip) == 0 then ip else to4 ip

abbrev pub in_network : Ip → Option (Ip × ℕ) → Bool
in_network ip none = length ip == 0
in_network ip (some (nn, ones)) = length ip == length nn && agree ones nn ip

unfoldable pub net_contains : IpNet → Ip → Bool
net_contains n ip = in_network (short_form ip) (network_number_and_mask n)
