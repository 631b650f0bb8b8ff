-- ===== src/BridgeFee.antt =====
-- src/bridgefee/bridgefee.go: which block templates are diverted to the bridge. The keyed hash is
-- the standard library's HMAC-SHA256, a parameter of which only the length of its sum is used.
mod Tests
use htn_stratum_bridge.Prelude.{
  ℕ, zero, suc, ◌+◌, ◌*◌, ◌%◌, ◌^◌, ◌≤◌, ◌<◌, ◌≡◌, refl, sym, ap, ◌∙◌, ◌++◌, negsuc, put_be,
  length-put_be, be_value-put_be, take-length-append, Bool, true, false, Bytes, is_empty, take,
  length, be_value, ℤ, pos, leb_ℤ, ltb_ℤ, if◌then◌else◌, ltb, tests, pos_part, neg_part, Bool-cases,
  inl, inr, min_ℕ, arith,
}

-- `(value % 10000) < uint64(ratePpm)`, where the rate is not negative.
abbrev pub selects : ℤ → ℕ → Bool
selects rate_ppm value = ltb_ℤ (pos (value % 10000)) rate_ppm

early_returns :
    (rate_ppm : ℤ) (value : ℕ)
    → (if leb_ℤ rate_ppm (pos 0)
        then false
        else if leb_ℤ (pos 10000) rate_ppm
        then true
        else selects rate_ppm value)
      ≡ selects rate_ppm value
early_returns (pos rate) value = ground arith
early_returns (negsuc rate) value = ground arith

selects_mono :
    (low high : ℤ) (value : ℕ)
    → leb_ℤ low high ≡ true
    → selects low value ≡ true
    → selects high value ≡ true
selects_mono (pos low) (pos high) value h d = ground arith
selects_mono (pos low) (negsuc high) value h d = ground arith
selects_mono (negsuc low) (pos high) value h d = ground arith
selects_mono (negsuc low) (negsuc high) value h d = ground arith

module _ (hmac_sha256 : Bytes → Bytes → Bytes) where
  unfoldable pub should_replace_gbt : Bytes → ℤ → Bytes → Bool
  should_replace_gbt server_salt rate_ppm job_key =
      if is_empty server_salt
      then false
      else if leb_ℤ rate_ppm (pos 0)
      then false
      else if leb_ℤ (pos 10000) rate_ppm
      then true
      else selects rate_ppm (be_value (take 8 (hmac_sha256 server_salt job_key)))

  -- The early returns are no exceptions from the rule: with a salt, a template is diverted
  -- exactly if the first eight bytes of the sum, modulo 10000, lie below the rate.
  pub should_replace_gbt_rule :
      (server_salt : Bytes) (rate_ppm : ℤ) (job_key : Bytes)
      → is_empty server_salt ≡ false
      → should_replace_gbt server_salt rate_ppm job_key
        ≡ selects rate_ppm (be_value (take 8 (hmac_sha256 server_salt job_key)))
  unfolding should_replace_gbt
  should_replace_gbt_rule server_salt rate_ppm job_key salted =
      let value = be_value (take 8 (hmac_sha256 server_salt job_key)) in
      rw salted (early_returns rate_ppm value)

  -- A template that is diverted at one rate is diverted at every higher one.
  pub should_replace_gbt_mono :
      (server_salt : Bytes) (low high : ℤ) (job_key : Bytes)
      → leb_ℤ low high ≡ true
      → should_replace_gbt server_salt low job_key ≡ true
      → should_replace_gbt server_salt high job_key ≡ true
  unfolding should_replace_gbt
  should_replace_gbt_mono server_salt low high job_key h d =
      elim (Bool-cases (is_empty server_salt)) [
        | inl no_salt ↦ let none_diverted : false ≡ true = rw no_salt at d in cc
        | inr salted ↦
            let value = be_value (take 8 (hmac_sha256 server_salt job_key)) in
            should_replace_gbt_rule server_salt high job_key salted
            ∙ selects_mono low high value h
                (sym (should_replace_gbt_rule server_salt low job_key salted) ∙ d)
      ]

-- How many of `n` keyed hashes are diverted, whose first eight bytes stand for the values from
-- `base` on, the others being free.
unfoldable pub count_diverted : Bytes → ℤ → Bytes → Bytes → ℕ → ℕ → ℕ
count_diverted server_salt rate_ppm job_key rest base zero = 0
count_diverted server_salt rate_ppm job_key rest base (suc n) =
    (if should_replace_gbt (λ _ _. put_be 8 (base + n) ++ rest) server_salt rate_ppm job_key
      then 1
      else 0)
    + count_diverted server_salt rate_ppm job_key rest base n

first_eight : (v : ℕ) (rest : Bytes) → v < 2 ^ 64 → be_value (take 8 (put_be 8 v ++ rest)) ≡ v
first_eight v rest h =
    ap be_value (take-length-append 8 (put_be 8 v) rest (length-put_be 8 v))
    ∙ be_value-put_be 8 v (omega arith)

should_replace_value :
    (server_salt : Bytes) (rate : ℕ) (job_key rest : Bytes) (v : ℕ)
    → is_empty server_salt ≡ false
    → v < 2 ^ 64
    → should_replace_gbt (λ _ _. put_be 8 v ++ rest) server_salt (pos rate) job_key
      ≡ ltb (v % 10000) rate
should_replace_value server_salt rate job_key rest v salted h =
    should_replace_gbt_rule (λ _ _. put_be 8 v ++ rest) server_salt (pos rate) job_key salted
    ∙ rw (first_eight v rest h) (ground arith)

count_diverted_low :
    (server_salt : Bytes) (rate : ℕ) (job_key rest : Bytes) (k n : ℕ)
    → is_empty server_salt ≡ false
    → 10000 * k + n ≤ 2 ^ 64
    → n ≤ 10000
    → count_diverted server_salt (pos rate) job_key rest (10000 * k) n ≡ min_ℕ n rate
unfolding count_diverted
count_diverted_low server_salt rate job_key rest k zero salted h m = ground arith
count_diverted_low server_salt rate job_key rest k (suc n) salted h m = ground (
  arith,
  should_replace_value server_salt rate job_key rest (10000 * k + n) salted (omega arith),
  count_diverted_low server_salt rate job_key rest k n salted,
)

-- The rate is exact: of 10000 keyed hashes whose leading 64-bit values run from a multiple of
-- 10000 on, exactly `rate` are diverted, for any rate up to 10000 and a salt that is not empty.
pub diverted_share :
    (server_salt : Bytes) (rate : ℕ) (job_key rest : Bytes) (k : ℕ)
    → is_empty server_salt ≡ false
    → rate ≤ 10000
    → 10000 * k + 10000 ≤ 2 ^ 64
    → count_diverted server_salt (pos rate) job_key rest (10000 * k) 10000 ≡ rate
diverted_share server_salt rate job_key rest k salted h m =
    count_diverted_low server_salt rate job_key rest k 10000 salted m (omega arith) ∙ ground arith
