-- ===== src/Stratum.antt =====
-- src/gostratum: what a miner's connection tells the bridge about the miner, and how the bridge
-- writes back. `util.DecodeAddress` of HTND is the parameter `decodes`: whether it takes an address
-- with a prefix.
pub mod Wallet
pub mod Authorize
pub mod Connection
pub mod Listen
pub mod Lines
pub mod Kept
mod Tests
use htn_stratum_bridge.Prelude.{
  ℕ, zero, suc, ◌+◌, ◌-◌, Bool, true, false, ◌&&◌, ◌||◌, not, Option, none, some, List, [], ◌∷◌,
  ◌++◌, Bytes, codes, length, take, has_prefix, is_empty, nat_eq, leb, ltb, ℤ, pos, int_inc, ltb_ℤ,
  if◌then◌else◌,
}

-- A parameter of a JSON-RPC event: a string, or any other value.
pub data Param : Type 0 where
  text : Bytes → Param
  other : Param

abbrev pub param_text : Param → Option Bytes
param_text (text s) = some s
param_text other = none

-- The fields of a `StratumContext` that the share handler reads.
pub record Client : Type 0 where
  pub remote_addr : Bytes
  pub wallet_addr : Bytes
  pub worker_name : Bytes

-- `walletRegex`: somewhere a prefix, a colon, and a small letter or a digit.
abbrev pub is_word : ℕ → Bool
is_word c = (leb b'a' c && leb c b'z') || (leb b'0' c && leb c b'9')

abbrev pub word_follows : ℕ → Bytes → Bool
word_follows zero [] = false
word_follows zero (c ∷ s) = is_word c
word_follows (suc n) [] = false
word_follows (suc n) (c ∷ s) = word_follows n s

abbrev pub regex_here : Bytes → Bool
regex_here s =
    (has_prefix s (codes "hoosat:") && word_follows 7 s)
    || (has_prefix s (codes "hoosattest:") && word_follows 11 s)

unfoldable pub wallet_regex : Bytes → Bool
wallet_regex [] = false
wallet_regex (c ∷ s) = regex_here (c ∷ s) || wallet_regex s

-- `strings.Split(s, ".")`
unfoldable pub split_dots : Bytes → Bytes × List Bytes
split_dots [] = ([], [])
split_dots (c ∷ s) =
    let (first, rest) = split_dots s in
    if nat_eq c b'.' then ([], first ∷ rest) else (c ∷ first, rest)

module _ (decodes : Bytes → Bytes → Bool) where
  -- Whether an address decodes with one of the two prefixes.
  abbrev pub is_wallet : Bytes → Bool
  is_wallet s = decodes (codes "hoosat") s || decodes (codes "hoosattest") s

  -- The end of `CleanWallet`, for a text with a prefix.
  unfoldable pub coerce_wallet : Bytes → Option Bytes
  coerce_wallet s =
      if wallet_regex s && (leb 61 (length s) && decodes (codes "hoosat") (take 61 s))
      then some (take 61 s)
      else none

  -- `CleanWallet`: the call of itself is for a text with a prefix, so there is only one.
  unfoldable pub clean_wallet : Bytes → Option Bytes
  unfolding coerce_wallet
  clean_wallet s =
      let prefixed = codes "hoosat:" ++ s in
      if is_wallet s
      then some s
      else if not (has_prefix s (codes "hoosat:")) && not (has_prefix s (codes "hoosattest:"))
      then (if is_wallet prefixed then some prefixed else coerce_wallet prefixed)
      else coerce_wallet s
