-- ===== src/Bc/Asset/Identity.antt =====
-- What an asset id stands for.
use btm_stats.Base.{
  ℕ, ◌+◌, ◌*◌, ◌≡◌, refl, sym, ap, ◌∙◌, some, List, [], ◌∷◌, ◌++◌, length, take, drop, arith, All,
  ◌⊎◌, inl, inr, append_assoc,
}
use btm_stats.Errors.{wrap}
use btm_stats.Encoding.Varint.{read_varstr31}
use btm_stats.Encoding.Strings.{Reads-read_varstr31}
use btm_stats.Encoding.WriteStrings.{IsStr31, varstr, write_varstr31-Wrote}
use btm_stats.Bc.Words.{IsByte, IsU64, put_uint64_le}
use btm_stats.Bc.Hash.{Hash, byte32, IsHash}
use btm_stats.Bc.Entry.{write_for_hash}
use btm_stats.Bc.Merkle.{hash_of}
use btm_stats.Bc.Merkle.Collision.{Collide, hash_of_inj, byte32_inj}
use btm_stats.Bc.Asset.{
  AssetDefinition, definition_value, hashed_bytes, definition_asset_id, compute_asset_id,
}

-- A definition with a program that WriteVarint31 can count.
abbrev pub definition : ℕ → List ℕ → Hash → AssetDefinition
definition vm code h = record {
  issuance_program = some (record { vm_version = vm; code = code });
  definition = some h;
}

-- The error that ComputeAssetID drops is impossible for such a program: the hash is given the
-- version, the program and the data in full.
pub hashed_bytes-definition :
    (vm : ℕ) (code : List ℕ) (h : Hash)
    → IsStr31 code
    → hashed_bytes (definition_value (definition vm code h))
      ≡ put_uint64_le vm ++ (varstr code ++ byte32 h)
unfolding hashed_bytes definition_value write_for_hash wrap
hashed_bytes-definition vm code h fits =
    rw (write_varstr31-Wrote code fits (put_uint64_le vm), hashed_bytes)
      (append_assoc (put_uint64_le vm) (varstr code) (byte32 h))

value_le : List ℕ → ℕ
value_le [] = 0
value_le (b ∷ bs) = b + 256 * value_le bs

value_le-put : (v : ℕ) → IsU64 v → value_le (put_uint64_le v) ≡ v
unfolding value_le put_uint64_le
value_le-put v h = omega arith

length-put_uint64_le :
    (v : ℕ) (bs : List ℕ)
    → (take 8 (put_uint64_le v ++ bs) ≡ put_uint64_le v) × (drop 8 (put_uint64_le v ++ bs) ≡ bs)
unfolding put_uint64_le
length-put_uint64_le v bs = (refl, refl)

-- The bytes that are hashed determine the version, the program and the data.
definition_bytes_inj :
    (v w : ℕ) (p q : List ℕ) (h k : Hash)
    → IsU64 v
    → IsU64 w
    → IsStr31 p
    → IsStr31 q
    → IsHash h
    → IsHash k
    → put_uint64_le v ++ (varstr p ++ byte32 h) ≡ put_uint64_le w ++ (varstr q ++ byte32 k)
    → (v ≡ w) × (p ≡ q) × (h ≡ k)
definition_bytes_inj v w p q h k hv hw hp hq hh hk e =
    let front = sym (length-put_uint64_le v _).0 ∙ ap (take 8) e ∙ (length-put_uint64_le w _).0 in
    let back = sym (length-put_uint64_le v _).1 ∙ ap (drop 8) e ∙ (length-put_uint64_le w _).1 in
    let parts =
      sym (Reads-read_varstr31 p hp (byte32 h))
      ∙ ap read_varstr31 back
      ∙ Reads-read_varstr31 q hq (byte32 k) in
    (
      sym (value_le-put v hv) ∙ ap value_le front ∙ value_le-put w hw,
      cc,
      byte32_inj h k hh hk (ap (λ x. x.1) parts),
    )

module _ (sum256 : List ℕ → List ℕ) (size : (bs : List ℕ) → length (sum256 bs) ≡ 32)
    (bytes : (bs : List ℕ) → All IsByte (sum256 bs)) where
  -- Two issuances with one asset id have the same program, version and definition hash, or else the
  -- bytes that encode them, the version in eight bytes, the program behind its length and the
  -- definition hash, differ and have one digest.
  pub compute_asset_id_inj :
      (v w : ℕ) (p q : List ℕ) (h k : Hash)
      → IsU64 v
      → IsU64 w
      → IsStr31 p
      → IsStr31 q
      → IsHash h
      → IsHash k
      → compute_asset_id sum256 p v (some h) ≡ compute_asset_id sum256 q w (some k)
      → ((v ≡ w) × (p ≡ q) × (h ≡ k))
        ⊎ Collide sum256
            (put_uint64_le v ++ (varstr p ++ byte32 h))
            (put_uint64_le w ++ (varstr q ++ byte32 k))
  unfolding compute_asset_id definition_asset_id
  compute_asset_id_inj v w p q h k hv hw hp hq hh hk e =
      let first = hashed_bytes-definition v p h hp in
      let second = hashed_bytes-definition w q k hq in
      elim (hash_of_inj sum256 size bytes _ _
        (sym (ap (hash_of sum256) first) ∙ e ∙ ap (hash_of sum256) second)) [
          | inr c ↦ inr c
          | inl same ↦ inl (definition_bytes_inj v w p q h k hv hw hp hq hh hk same)
        ]
