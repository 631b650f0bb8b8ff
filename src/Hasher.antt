-- ===== src/Hasher.antt =====
-- src/htnstratum/hasher.go: the bytes of a block header that are hashed for a job, and the two forms
-- in which a job's header is sent. The hash, BLAKE3 with the key "BlockHash", is an argument.
pub mod Digits
pub mod Words
mod Tests
use htn_stratum_bridge.Prelude.{
  ℕ, zero, suc, ◌+◌, ◌-◌, ◌*◌, ◌/◌, ◌%◌, ◌^◌, ◌&&◌, Bool, Option, none, some, List, [], ◌∷◌, ◌++◌,
  Bytes, codes, map, length, take, drop, ltb, nat_eq, if◌then◌else◌, put_le, put_be, le_value,
  be_value, hex_digit, digits_value,
}
use htn_stratum_bridge.Rpc.{Header}

-- What `hex.DecodeString` returns, whether it fails or not: the bytes before the first fault.
unfoldable pub hex_prefix : Bytes → Bytes
hex_prefix [] = []
hex_prefix (a ∷ []) = []
hex_prefix (a ∷ b ∷ s) =
    let rest = hex_prefix s in
    elim (hex_digit a) [
      | none ↦ []
      | some x ↦ elim (hex_digit b) [ none ↦ [] | some y ↦ (x * 16 + y) ∷ rest ]
    ]

abbrev pub concat {ℓ} : {A : Type ℓ} → List (List A) → List A
concat [] = []
concat (x ∷ xs) = x ++ concat xs

-- The parents of one level.
abbrev pub level_bytes : List Bytes → Bytes
level_bytes parents = put_le 8 (length parents % 2 ^ 64) ++ concat (map hex_prefix parents)

-- The loop that puts zeros in front of a text until its length is even.
abbrev pub even_hex : Bytes → Bytes
even_hex bw = if nat_eq (length bw % 2) 1 then b'0' ∷ bw else bw

-- What `SerializeBlockHeader` writes. The time and the nonce are zeros.
unfoldable pub header_bytes : Header → Bytes
unfolding put_le hex_prefix
header_bytes h =
    let bw = even_hex h.blue_work in
    put_le 2 (h.version % 2 ^ 16)
    ++ (put_le 8 (length h.parents % 2 ^ 64)
        ++ (concat (map level_bytes h.parents)
            ++ (hex_prefix h.hash_merkle_root
                ++ (hex_prefix h.accepted_id_merkle_root
                    ++ (hex_prefix h.utxo_commitment
                        ++ (put_le 8 0
                            ++ (put_le 4 (h.bits % 2 ^ 32)
                                ++ (put_le 8 0
                                    ++ (put_le 8 (h.daa_score % 2 ^ 64)
                                        ++ (put_le 8 (h.blue_score % 2 ^ 64)
                                            ++ (put_le 8 (length (hex_prefix bw) % 2 ^ 64)
                                                ++ (hex_prefix bw
                                                    ++ hex_prefix h.pruning_point))))))))))))

-- `SerializeBlockHeader`; the error that it can return is that of writing numbers to a buffer, which
-- does not happen.
unfoldable pub serialize_block_header : (Bytes → Bytes) → Header → Option Bytes
unfolding header_bytes
serialize_block_header blake3 h = some (blake3 (header_bytes h))

abbrev pub hex_char : ℕ → ℕ
hex_char d = if ltb d 10 then b'0' + d else b'a' + (d - 10)

-- The hexadecimal digits of a number, on fuel.
unfoldable pub hex_from : ℕ → ℕ → Bytes → Bytes
hex_from zero n acc = acc
hex_from (suc fuel) n acc =
    let more = hex_from fuel (n / 16) (hex_char (n % 16) ∷ acc) in
    if ltb n 16 then hex_char n ∷ acc else more

-- `%x`
unfoldable pub show_hex : ℕ → Bytes
unfolding hex_from
show_hex n = hex_from (suc n) n []

unfoldable pub zeros : ℕ → Bytes
zeros zero = []
zeros (suc n) = b'0' ∷ zeros n

-- `%016x`
unfoldable pub show_hex16 : ℕ → Bytes
unfolding show_hex zeros
show_hex16 n = zeros (16 - length (show_hex n)) ++ show_hex n

-- `binary.LittleEndian.Uint64(headerData[i:])` and the like.
abbrev pub word : ℕ → Bytes → Bytes
word i header = take 8 (drop i header)

-- `bb.Uint64()`, of a number that was read or else is zero.
abbrev pub low_word : Option ℕ → ℕ
low_word none = 0
low_word (some n) = n % 2 ^ 64

-- The number as it is printed and read back, by `bb.SetString(asHex, 16)`.
abbrev pub reread : ℕ → ℕ
reread v = low_word (digits_value hex_digit 16 0 (show_hex v))

abbrev pub header_words : Bytes → List ℕ
header_words header = map (λ i. reread (le_value (word i header))) (0 ∷ 8 ∷ 16 ∷ 24 ∷ [])

-- `GenerateJobHeader`; `none` is a slice out of range.
unfoldable pub generate_job_header : Bytes → Option (List ℕ)
generate_job_header header = if ltb (length header) 32 then none else some (header_words header)

-- The text that `GenerateLargeJobParams` prints.
abbrev pub large_text : Bytes → ℕ → Bytes
large_text header timestamp =
    show_hex16 (be_value (word 0 header))
    ++ (show_hex16 (be_value (word 8 header))
        ++ (show_hex16 (be_value (word 16 header))
            ++ (show_hex16 (be_value (word 24 header))
                ++ show_hex16 (le_value (put_be 8 timestamp)))))

-- `GenerateLargeJobParams`; a text of another length than 80 would only be logged.
unfoldable pub generate_large_job_params : Bytes → ℕ → Option Bytes
generate_large_job_params header timestamp =
    if ltb (length header) 32 then none else some (large_text header timestamp)
