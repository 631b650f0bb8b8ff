-- ===== src/Hasher/Tests.antt =====
-- A header of 32 bytes in both forms of a job.
use htn_stratum_bridge.Prelude.{
  ℕ, ◌≡◌, refl, some, List, [], ◌∷◌, ◌++◌, Bytes, codes, map, put_le, hex_decode, arith,
}
use htn_stratum_bridge.Hasher.{
  concat, show_hex16, hex_prefix, generate_job_header, generate_large_job_params,
}
use htn_stratum_bridge.Hasher.Words.{job_forms}

abbrev header : Bytes
header =
    0x10 ∷ 1 ∷ 2 ∷ 3 ∷ 4 ∷ 5 ∷ 6 ∷ 7 ∷ 8 ∷ 9 ∷ 10 ∷ 11 ∷ 12 ∷ 13 ∷ 14 ∷ 15 ∷ 0x1f ∷ 1 ∷ 2 ∷ 3 ∷ 4
    ∷ 5 ∷ 6 ∷ 7 ∷ 0 ∷ 0 ∷ 0 ∷ 0 ∷ 0 ∷ 0 ∷ 0 ∷ 0xff ∷ []

show_hex16_test : show_hex16 0x1f ≡ codes "000000000000001f"
unfolding show_hex16
show_hex16_test = refl

-- What stands before a byte that is no digit is kept.
hex_prefix_test : hex_prefix (codes "0aFfx1") ≡ 0x0a ∷ 0xff ∷ []
unfolding hex_prefix
hex_prefix_test = refl

job_forms_example :
    ((words : List ℕ) × (generate_job_header header ≡ some words)
      × (concat (map (put_le 8) words) ≡ header))
    × ((text : Bytes) × (generate_large_job_params header 1000 ≡ some text)
        × (hex_decode text ≡ some (header ++ put_le 8 1000)))
job_forms_example = job_forms header (omega arith) refl 1000
