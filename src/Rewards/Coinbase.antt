-- ===== src/Rewards/Coinbase.antt =====
-- `coinbaseSumToAddress` of src/htnstratum/miner_rewards.go.
use htn_stratum_bridge.Prelude.{
  ℕ, ◌+◌, ◌%◌, ◌^◌, ◌<◌, ◌≡◌, refl, ◌∙◌, Bool, true, false, ◌||◌, not, Option, none, some, List, [],
  ◌∷◌, ◌++◌, Bytes, codes, bytes_eq, has_prefix, is_empty, trim_space, if◌then◌else◌, arith,
}
use htn_stratum_bridge.Rpc.{TransactionOutput, OutputVerboseData, Block}
use htn_stratum_bridge.Rewards.{strip_hrp, coinbase_outputs, sum_outputs, coinbase_sum_to_address}

-- The sum of a list of amounts.
unfoldable pub total : List ℕ → ℕ
total [] = 0
total (amount ∷ amounts) = amount + total amounts

-- An address of the main net or of the test net is compared without its prefix.
strip_hrp-prefix :
    (a : Bytes)
    → (strip_hrp (codes "hoosat:" ++ a) ≡ a) × (strip_hrp (codes "hoosattest:" ++ a) ≡ a)
unfolding strip_hrp has_prefix
strip_hrp-prefix a = (refl, refl)

module _ (to_lower : Bytes → Bytes) where
  -- Whether an output pays an address: its own, without the prefix and in lower case, is the same.
  abbrev pub pays : Bytes → Option TransactionOutput → Bool
  pays key none = false
  pays key (some o) = elim o.verbose_data [
    | none ↦ false
    | some v ↦ bytes_eq (to_lower (strip_hrp v.script_public_key_address)) key
  ]

  -- The amount of an output.
  abbrev pub amount_of : Option TransactionOutput → ℕ
  amount_of none = 0
  amount_of (some o) = o.amount

  -- The amounts of the outputs that pay an address.
  unfoldable pub paid : Bytes → List (Option TransactionOutput) → List ℕ
  paid key [] = []
  paid key (o ∷ os) = let rest = paid key os in if pays key o then amount_of o ∷ rest else rest

  sum_outputs_lem :
      (key : Bytes) (os : List (Option TransactionOutput)) (matched : Bool) (sum : ℕ)
      → sum < 2 ^ 64
      → sum_outputs to_lower key os matched sum
        ≡ (matched || not (is_empty (paid key os)), (sum + total (paid key os)) % 2 ^ 64)
  unfolding sum_outputs paid total
  sum_outputs_lem key [] matched sum h = ground arith
  sum_outputs_lem key (none ∷ os) matched sum h = sum_outputs_lem key os matched sum h
  sum_outputs_lem key (some o ∷ os) matched sum h =
      go o.verbose_data (sum_outputs_lem key os true ((sum + o.amount) % 2 ^ 64) (omega arith))
        (sum_outputs_lem key os matched sum h)
    where
      hits :
          (b : Bool)
          → sum_outputs to_lower key os true ((sum + o.amount) % 2 ^ 64)
            ≡ (true, ((sum + o.amount) % 2 ^ 64 + total (paid key os)) % 2 ^ 64)
          → sum_outputs to_lower key os matched sum
            ≡ (matched || not (is_empty (paid key os)), (sum + total (paid key os)) % 2 ^ 64)
          → let amounts = if b then o.amount ∷ paid key os else paid key os in
            (if b
              then sum_outputs to_lower key os true ((sum + o.amount) % 2 ^ 64)
              else sum_outputs to_lower key os matched sum)
            ≡ (matched || not (is_empty amounts), (sum + total amounts) % 2 ^ 64)
      hits true hit miss = hit ∙ ground arith
      hits false hit miss = miss

      go :
          (v : Option OutputVerboseData)
          → sum_outputs to_lower key os true ((sum + o.amount) % 2 ^ 64)
            ≡ (true, ((sum + o.amount) % 2 ^ 64 + total (paid key os)) % 2 ^ 64)
          → sum_outputs to_lower key os matched sum
            ≡ (matched || not (is_empty (paid key os)), (sum + total (paid key os)) % 2 ^ 64)
          → let o' = record o { verbose_data = v } in
            sum_outputs to_lower key (some o' ∷ os) matched sum ≡ (
              matched || not (is_empty (paid key (some o' ∷ os))),
              (sum + total (paid key (some o' ∷ os))) % 2 ^ 64,
            )
      go none hit miss = miss
      go (some v) hit miss =
          hits (bytes_eq (to_lower (strip_hrp v.script_public_key_address)) key) hit miss

  coinbase_sum :
      (b : Block) (addr : Bytes)
      → let amounts = paid (to_lower (strip_hrp (trim_space addr))) (coinbase_outputs b) in
        coinbase_sum_to_address to_lower b addr ≡ (not (is_empty amounts), total amounts % 2 ^ 64)
  unfolding coinbase_sum_to_address
  coinbase_sum b addr =
      sum_outputs_lem (to_lower (strip_hrp (trim_space addr))) (coinbase_outputs b) false 0
        (omega arith)
      ∙ ground arith

  -- `coinbaseSumToAddress` reports whether some output of the coinbase pays the address, and the
  -- sum of all that do, modulo 2^64. Outputs with no address pay no one. Address and outputs are
  -- compared in lower case and without their prefix, which is that of the main or the test net.
  pub coinbase_sum_lem :
      (b : Block) (addr a : Bytes)
      → let amounts = paid (to_lower (strip_hrp (trim_space addr))) (coinbase_outputs b) in
        (coinbase_sum_to_address to_lower b addr ≡ (not (is_empty amounts), total amounts % 2 ^ 64))
        × (strip_hrp (codes "hoosat:" ++ a) ≡ a)
        × (strip_hrp (codes "hoosattest:" ++ a) ≡ a)
  coinbase_sum_lem b addr a = (coinbase_sum b addr, (strip_hrp-prefix a).0, (strip_hrp-prefix a).1)

  pub coinbase_sum-lt :
      (b : Block) (addr : Bytes) → (coinbase_sum_to_address to_lower b addr).1 < 2 ^ 64
  coinbase_sum-lt b addr = rw (coinbase_sum b addr) (omega arith)
