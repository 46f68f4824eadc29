-- ===== src/P2p/NetAddress/Routing.antt =====
-- Which addresses are routable, and how one reaches another.
use btm_stats.Base.{
  ℕ, Bool, true, ◌++◌, ◌<◌, ◌≡◌, refl, false, not, ◌&&◌, ◌||◌, List, [], ◌∷◌, ltb, leb, ◌==◌, arith,
}
use btm_stats.P2p.Ip.{
  Ip, v4_in_v6_prefix, equal_ip, to4, is_unspecified, is_loopback, net_contains, agree,
  network_number_and_mask,
}
use btm_stats.P2p.NetAddress.{
  NetAddress, routable, valid, local, rfc1918, rfc3927, rfc3849, rfc4862, rfc4193, rfc4843,
}

module _ (a b c d port : ℕ) (str : List ℕ) (ha : a < 256) (hb : b < 256) (hc : c < 256)
    (hd : d < 256) where
  -- The address in four bytes, or in the sixteen that net.ParseIP gives.
  abbrev form : Bool → Ip
  form false = a ∷ b ∷ c ∷ d ∷ []
  form true = v4_in_v6_prefix ++ (a ∷ b ∷ c ∷ d ∷ [])

  abbrev pub na : Bool → NetAddress
  na sixteen = record { ip = form sixteen; port = port; str = str }

  rfc1918_v4 :
      (sixteen : Bool)
      → rfc1918 (na sixteen)
        ≡ (a == 10 || (a == 192 && b == 168 || a == 172 && (leb 16 b && ltb b 32)))
  unfolding net_contains agree network_number_and_mask to4
  rfc1918_v4 true = ground arith
  rfc1918_v4 false = ground arith

  rfc3927_v4 : (sixteen : Bool) → rfc3927 (na sixteen) ≡ (a == 169 && b == 254)
  unfolding net_contains agree network_number_and_mask to4
  rfc3927_v4 true = ground arith
  rfc3927_v4 false = ground arith

  no_v6 :
      (sixteen : Bool)
      → (rfc3849 (na sixteen) ≡ false)
        × (rfc4862 (na sixteen) ≡ false)
        × (rfc4193 (na sixteen) ≡ false)
        × (rfc4843 (na sixteen) ≡ false)
  unfolding net_contains agree network_number_and_mask to4
  no_v6 true = (refl, refl, refl, refl)
  no_v6 false = (refl, refl, refl, refl)

  local_v4 : (sixteen : Bool) → local (na sixteen) ≡ (a == 127 || a == 0)
  unfolding local is_loopback net_contains agree network_number_and_mask to4
  local_v4 true = ground arith
  local_v4 false = ground arith

  valid_v4 :
      (sixteen : Bool)
      → valid (na sixteen)
        ≡ not (
            a == 0 && (b == 0 && (c == 0 && d == 0))
            || a == 255 && (b == 255 && (c == 255 && d == 255)))
  unfolding valid is_unspecified equal_ip net_contains agree network_number_and_mask to4
  valid_v4 true = ground arith
  valid_v4 false = ground arith

  -- An IPv4 address, in four bytes or in the sixteen that net.ParseIP gives, is routable exactly where
  -- it is in none of the reserved blocks.
  pub routable_v4 :
      (sixteen : Bool)
      → routable (na sixteen)
        ≡ not (
            a == 0
            || (a == 10
                || (a == 127
                    || (a == 169 && b == 254
                        || (a == 172 && (leb 16 b && ltb b 32)
                            || (a == 192 && b == 168
                                || a == 255 && (b == 255 && (c == 255 && d == 255))))))))
  unfolding routable
  routable_v4 sixteen =
      let (h1, h2, h3, h4) = no_v6 sixteen in
      rw (rfc1918_v4 sixteen, rfc3927_v4 sixteen, h2, h3, h4, local_v4 sixteen, valid_v4 sixteen)
        (ground arith)
