-- ===== src/Pow/State.antt =====
-- `State` of src/pow/pow.go: the values that are computed once for a header, the value of its proof
-- of work, and the check of it. The hashes and the writers of the packages hashes, serialization
-- and consensushashing, and the compact form of a target, are those of HTND. `none` is a loop that
-- has not ended in the fuel.
use htn_stratum_bridge.Prelude.{
  ℕ, zero, suc, ◌+◌, ◌%◌, ◌^◌, Bool, false, not, ◌&&◌, ◌||◌, Option, none, some, List, [], ◌∷◌,
  ◌++◌, Bytes, nat_eq, ltb, leb, bytes_eq, ℤ, pos, leb_ℤ, if◌then◌else◌,
}
use htn_stratum_bridge.Share.Tally.{to_big}
use htn_stratum_bridge.Pow.Floats.{FloatOps}
use htn_stratum_bridge.Pow.Matrix.{
  generate_matrix, generate_hoohash_matrix, generate_hoohash_matrix_v110,
}
use htn_stratum_bridge.Pow.Multiply.{heavy_hash, hoohash_v1, hoohash_v101, hoohash_v110}

-- A `MutableBlockHeader`: the fields that the code reads or sets, and the rest of it.
pub record PowHeader (R : Type 0) : Type 0 where
  pub version : ℕ
  pub bits : ℕ
  pub time_in_milliseconds : ℤ
  pub nonce : ℕ
  pub rest : R

-- What the code calls of HTND.
pub record Htnd (R : Type 0) : Type 0 where
  pub compact_to_big : ℕ → ℤ
  pub header_hash : PowHeader R → Bytes
  pub write_int64 : ℤ → Bytes
  pub write_uint64 : ℕ → Bytes
  pub pow_hash : Bytes → Bytes
  pub blake3_hash : Bytes → Bytes
  pub heavy_hash_writer : Bytes → Bytes
  pub uint32_array : Bytes → List ℕ
  pub hash_from_string : Bytes → Option Bytes
  pub pow_integrity_min_version : ℕ

pub record State (F : Type 0) : Type 0 where
  pub mat : List (List ℕ)
  pub float_mat : List (List F)
  pub timestamp : ℤ
  pub nonce : ℕ
  pub target : ℤ
  pub prev_header : Bytes
  pub block_version : ℕ

abbrev pub zero_bytes : ℕ → Bytes
zero_bytes zero = []
zero_bytes (suc n) = 0 ∷ zero_bytes n

-- The zero value of `DomainHash`.
abbrev pub zero_hash : Bytes
zero_hash = zero_bytes 32

-- A `State` has two matrices, of which one is drawn.
abbrev pub plain {ℓ} : {A : Type ℓ} → Option (List (List ℕ)) → Option (List (List ℕ) × List A)
plain none = none
plain (some mat) = some (mat, [])

module _ {F : Type 0} (fl : FloatOps F) (fuel : ℕ) where
  -- The matrices, by the version of the block.
  unfoldable pub matrices : ℕ → Bytes → Option (List (List ℕ) × List (List F))
  matrices version hash =
      if nat_eq version 1
      then plain (generate_matrix fl fuel hash)
      else if nat_eq version 2
      then plain (generate_hoohash_matrix fl fuel hash)
      else if nat_eq version 3 || nat_eq version 4
      then plain (generate_matrix fl fuel hash)
      else if leb 5 version
      then some ([], generate_hoohash_matrix_v110 fl hash)
      else plain (generate_matrix fl fuel hash)

module _ {R : Type 0} (htnd : Htnd R) where
  -- The hash of the header with time and nonce set to zero, which are restored after it.
  unfoldable pub prev_hash : PowHeader R → PowHeader R × Bytes
  prev_hash header =
      let timestamp = header.time_in_milliseconds in
      let nonce = header.nonce in
      let zeroed = record header { time_in_milliseconds = pos 0; nonce = 0 } in
      let hash = htnd.header_hash zeroed in
      (record zeroed { time_in_milliseconds = timestamp; nonce = nonce }, hash)

  -- What is written before the first hash.
  unfoldable pub pow_input : {F : Type 0} → State F → Bytes
  pow_input s =
      s.prev_header ++ (htnd.write_int64 s.timestamp ++ (zero_hash ++ htnd.write_uint64 s.nonce))

module _ {F : Type 0} where
  unfoldable pub increment_nonce : State F → State F
  increment_nonce s = record s { nonce = (s.nonce + 1) % 2 ^ 64 }

  -- `powNum.Cmp(&state.Target) <= 0`
  abbrev pub is_below : State F → Bytes → Bool
  is_below s hash = leb_ℤ (pos (to_big hash)) s.target

module _ {R F : Type 0} (htnd : Htnd R) where
  -- `CheckProofOfWork`, by the text of the block's `PoWHash`.
  unfoldable pub check_hash : State F → Bytes → Bool → Bytes → Bool
  check_hash s stated skip hash =
      if ltb s.block_version htnd.pow_integrity_min_version
      then is_below s hash
      else if skip && leb htnd.pow_integrity_min_version s.block_version
      then is_below s hash
      else elim (htnd.hash_from_string stated) [
        | none ↦ false
        | some submitted ↦
            not (bytes_eq submitted zero_hash)
            && (nat_eq (to_big submitted) (to_big hash) && is_below s hash)
      ]

module _ {F R : Type 0} (fl : FloatOps F) (htnd : Htnd R) (fuel : ℕ) where
  -- `NewState`
  unfoldable pub new_state : PowHeader R → Option (State F)
  unfolding prev_hash
  new_state header =
      let (restored, hash) = prev_hash htnd header in
      elim (matrices fl fuel restored.version hash) [
        | none ↦ none
        | some (mat, float_mat) ↦ some (record {
          mat = mat;
          float_mat = float_mat;
          timestamp = restored.time_in_milliseconds;
          nonce = restored.nonce;
          target = htnd.compact_to_big header.bits;
          prev_header = hash;
          block_version = restored.version;
        })
      ]

  -- `CalculateProofOfWorkValue`: the hash; the value is `to_big` of it.
  unfoldable pub pow_value : State F → Option Bytes
  unfolding heavy_hash hoohash_v1 hoohash_v101 hoohash_v110
  pow_value s =
      let pyrinhash =
        some (heavy_hash htnd.heavy_hash_writer s.mat (htnd.pow_hash (pow_input htnd s))) in
      let hash = htnd.blake3_hash (pow_input htnd s) in
      if nat_eq s.block_version 1
      then pyrinhash
      else if nat_eq s.block_version 2
      then hoohash_v1 fl htnd.blake3_hash fuel s.mat hash
      else if nat_eq s.block_version 3 || nat_eq s.block_version 4
      then hoohash_v101 fl htnd.blake3_hash fuel s.mat hash
      else if leb 5 s.block_version
      then hoohash_v110 fl htnd.uint32_array htnd.blake3_hash fuel s.float_mat hash s.nonce
      else pyrinhash

  unfoldable pub check_proof_of_work : State F → Bytes → Bool → Option Bool
  unfolding check_hash
  check_proof_of_work s stated skip = elim (pow_value s) [
    | none ↦ none
    | some hash ↦ some (check_hash htnd s stated skip hash)
  ]

  -- `CheckProofOfWorkByBits`
  unfoldable pub check_by_bits : PowHeader R → Bytes → Bool → Option Bool
  unfolding check_proof_of_work
  check_by_bits header stated skip = elim (new_state header) [
    | none ↦ none
    | some s ↦ check_proof_of_work s stated skip
  ]
