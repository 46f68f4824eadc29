-- ===== src/P2p/Pex/Groups.antt =====
-- p2p/pex/addrbook.go: groupKey, calcNewBucket and calcOldBucket, with DoubleSha256 of crypto/crypto.go.
-- The hash, and the text of an IP with a number of ones, come from outside.
use btm_stats.Base.{
  ℕ, ◌-◌, ◌%◌, ◌<◌, ◌≡◌, refl, sym, ap, ◌∙◌, Bool, true, false, not, ◌&&◌, ◌||◌, Option, none, some,
  List, [], ◌∷◌, ◌++◌, length, take, drop, map, ◌==◌, if◌then◌else◌, arith,
}
use btm_stats.Bc.Words.{uint64_be, put_uint64_be}
use btm_stats.P2p.Ip.{Ip, IpNet, to4, net_contains, network_number_and_mask, zeros}
use btm_stats.P2p.NetAddress.{
  NetAddress, valid, rfc1918, rfc3927, rfc4862, rfc4193, rfc4843, local, routable, rfc6145, rfc6052,
  rfc3964, rfc4380, string_of,
}
use btm_stats.P2p.Pex.KnownAddress.{
  new_bucket_count, new_buckets_per_group, old_bucket_count, old_buckets_per_group,
}
use btm_stats.P2p.Pex.AddrBook.{Addressing}

abbrev local_text : List ℕ
local_text = 108 ∷ 111 ∷ 99 ∷ 97 ∷ 108 ∷ []

abbrev unroutable_text : List ℕ
unroutable_text = 117 ∷ 110 ∷ 114 ∷ 111 ∷ 117 ∷ 116 ∷ 97 ∷ 98 ∷ 108 ∷ 101 ∷ []

-- "<nil>"
abbrev nil_text : List ℕ
nil_text = 60 ∷ 110 ∷ 105 ∷ 108 ∷ 62 ∷ []

abbrev cidr : Ip → ℕ → ℕ → IpNet
cidr ip ones bits = record { ip = ip; ones = ones; bits = bits }

-- IP[i:j]
abbrev slice : ℕ → ℕ → Ip → Ip
slice i j ip = drop i (take j ip)

abbrev he_net : IpNet
he_net = cidr (0x20 ∷ 0x01 ∷ 0x04 ∷ 0x70 ∷ zeros 12) 32 128

last_false :
    (v a b c d e l : Bool) → (v && not (a || (b || (c || (d || (e || l)))))) ≡ true → l ≡ false
last_false v a b c d e l h = ground arith

routable_not_local : (na : NetAddress) → routable na ≡ true → local na ≡ false
unfolding routable
routable_not_local na r =
    last_false (valid na) (rfc1918 na) (rfc3927 na) (rfc4862 na) (rfc4193 na) (rfc4843 na)
      (local na) r

and_false : (x : Bool) → (x && false) ≡ false
and_false true = refl
and_false false = refl

-- The text of an IP, a slash and a number of ones; sha3's Sum256.
module _ (ip_slash : Ip → ℕ → List ℕ) (sum256 : List ℕ → List ℕ) where
  -- IPNet.String, which does not mask the IP
  abbrev pub text_of : Option (Ip × ℕ) → List ℕ
  text_of none = nil_text
  text_of (some (ip, ones)) = ip_slash ip ones

  abbrev pub net_string : IpNet → List ℕ
  net_string n = text_of (network_number_and_mask n)

  unfoldable pub group_key : Bool → NetAddress → List ℕ
  group_key routability_strict na =
      let bits = if net_contains he_net na.ip then 36 else 32 in
      if routability_strict && local na
      then local_text
      else if routability_strict && not (routable na)
      then unroutable_text
      else if not (length (to4 na.ip) == 0)
      then net_string (cidr na.ip 16 32)
      else if rfc6145 na || rfc6052 na
      then net_string (cidr (slice 12 16 na.ip) 16 32)
      else if rfc3964 na
      then net_string (cidr (slice 2 7 na.ip) 16 32)
      else if rfc4380 na
      then net_string (cidr (map (λ b. 255 - b) (slice 12 16 na.ip)) 16 32)
      else net_string (cidr na.ip bits 128)

  -- DoubleSha256
  abbrev pub double_sha256 : List ℕ → List ℕ
  double_sha256 b = sum256 (sum256 b)

  module _ (routability_strict : Bool) (key : List ℕ) where
    unfoldable pub calc_new_bucket : NetAddress → NetAddress → ℕ
    calc_new_bucket addr src =
        let addr_key = group_key routability_strict addr in
        let src_key = group_key routability_strict src in
        let hash64 =
          uint64_be (double_sha256 (key ++ addr_key ++ src_key)) % new_buckets_per_group in
        uint64_be (double_sha256 (key ++ src_key ++ put_uint64_be hash64)) % new_bucket_count

    unfoldable pub calc_old_bucket : List ℕ → NetAddress → ℕ
    calc_old_bucket addr_string addr =
        let hash64 = uint64_be (double_sha256 (key ++ addr_string)) % old_buckets_per_group in
        uint64_be (double_sha256 (key ++ group_key routability_strict addr ++ put_uint64_be hash64))
        % old_bucket_count

    pub new_in_range : (addr src : NetAddress) → calc_new_bucket addr src < new_bucket_count
    unfolding calc_new_bucket
    new_in_range addr src = omega arith

    pub old_in_range :
        (addr_string : List ℕ) (addr : NetAddress)
        → calc_old_bucket addr_string addr < old_bucket_count
    unfolding calc_old_bucket
    old_in_range addr_string addr = omega arith

    -- The addresses of a book, by the texts that net.JoinHostPort gives.
    abbrev pub net_addressing : (Ip → ℕ → List ℕ) → Addressing NetAddress (List ℕ)
    net_addressing join_host_port = record {
      string_of = λ na. (string_of join_host_port na).0;
      routable = routable;
      calc_new_bucket = calc_new_bucket;
      calc_old_bucket = λ na. calc_old_bucket (string_of join_host_port na).0 na;
      new_in_range = new_in_range;
      old_in_range = λ na. old_in_range (string_of join_host_port na).0 na;
    }

  group_key_v4 :
      (routability_strict : Bool) (na : NetAddress)
      → routable na ≡ true
      → length (to4 na.ip) ≡ 4
      → group_key routability_strict na ≡ ip_slash (to4 na.ip) 16
  unfolding group_key network_number_and_mask
  group_key_v4 strict na r four =
      rw (ap (λ x. strict && x) (routable_not_local na r), ap (λ x. strict && not x) r, four)
        (rw (and_false strict) refl)

  -- Two routable IPv4 addresses of one group are the same: groupKey does not apply the 16 ones.
  pub group_key-inj :
      (routability_strict : Bool) (na o : NetAddress)
      → ((x y : Ip) → length x ≡ 4 → length y ≡ 4 → ip_slash x 16 ≡ ip_slash y 16 → x ≡ y)
      → routable na ≡ true
      → routable o ≡ true
      → length (to4 na.ip) ≡ 4
      → length (to4 o.ip) ≡ 4
      → group_key routability_strict na ≡ group_key routability_strict o
      → to4 na.ip ≡ to4 o.ip
  group_key-inj strict na o inj r s k l e =
      inj (to4 na.ip) (to4 o.ip) k l
        (sym (group_key_v4 strict na r k) ∙ e ∙ group_key_v4 strict o s l)
