-- ===== src/Share/Owner.antt =====
-- `HandleSubmit` of src/htnstratum/share_handler.go: whose block a found block is. The coinbase
-- payload is the hexadecimal of a text that names the address.
use htn_stratum_bridge.Prelude.{
  ℕ, Bool, ◌||◌, Option, none, some, [], ◌∷◌, reverse, Bytes, codes, has_prefix, hex_decode, nat_eq,
  if◌then◌else◌, strip_any, spaces,
}
use htn_stratum_bridge.Rpc.{Block}

-- `s[strings.Index(s, p):]`, where `p` occurs in `s`.
unfoldable pub from_index : Bytes → Bytes → Option Bytes
from_index p [] = none
from_index p (c ∷ s) =
    let later = from_index p s in if has_prefix (c ∷ s) p then some (c ∷ s) else later

-- `strings.Fields(s)[0]` of a text that does not begin with a space.
unfoldable pub first_field : Bytes → Bytes
first_field [] = []
first_field (c ∷ s) =
    let rest = first_field s in elim (strip_any spaces (c ∷ s)) [ some _ ↦ [] | none ↦ c ∷ rest ]

-- The set that `strings.Trim` cuts off.
abbrev pub is_cut : ℕ → Bool
is_cut c = nat_eq c b'\'' || (nat_eq c b'"' || (nat_eq c b',' || (nat_eq c b'.' || nat_eq c b' ')))

unfoldable pub trim_left : Bytes → Bytes
trim_left [] = []
trim_left (c ∷ s) = let rest = trim_left s in if is_cut c then rest else c ∷ s

abbrev pub trim_cut : Bytes → Bytes
trim_cut s = reverse (trim_left (reverse (trim_left s)))

-- The wallet of a payload; the submitting miner's, where the payload names none.
unfoldable pub payload_wallet : Bytes → Bytes → Bytes
payload_wallet default payload = elim (hex_decode payload) [
  | none ↦ default
  | some decoded ↦ elim (from_index (codes "hoosat:") decoded) [
    | none ↦ default
    | some address ↦ trim_cut (first_field address)
  ]
]

-- `none` is the panic on a nil transaction.
unfoldable pub owner : Bytes → Block → Option Bytes
owner default b = elim b.transactions [
  | [] ↦ some default
  | t ∷ ts ↦ elim t [ none ↦ none | some cb ↦ some (payload_wallet default cb.payload) ]
]
