-- ===== src/Api/Select.antt =====
-- The first half of `GetBlockTemplate` of src/htnstratum/htnapi.go: who is paid.
use htn_stratum_bridge.Prelude.{
  ℕ, ◌^◌, ◌<◌, ◌≡◌, ◌≢◌, sym, ap, ◌∙◌, Bool, true, ◌++◌, Bytes, take, put_be, be_value,
  be_value-put_be, length-put_be, take-length-append, if◌then◌else◌, arith,
}
use htn_stratum_bridge.Api.{HtnApi, Node, inc64, job_key, has_fee, select}

-- Two requests with different counters have different job keys, whatever else they share: the
-- decision about one tells nothing of the other's input.
pub job_key_unique :
    (c d : ℕ) (tip tip' : Bytes) (time time' : ℕ) (worker worker' : Bytes)
    → c < 2 ^ 64
    → d < 2 ^ 64
    → c ≢ d
    → job_key c tip time worker ≢ job_key d tip' time' worker'
job_key_unique c d tip tip' time time' worker worker' hc hd ne same =
    ne (sym (counter c _ hc) ∙ ap (λ key. be_value (take 8 key)) same ∙ counter d _ hd)
  where
    counter : (n : ℕ) (rest : Bytes) → n < 2 ^ 64 → be_value (take 8 (put_be 8 n ++ rest)) ≡ n
    counter n rest h =
        ap be_value (take-length-append 8 (put_be 8 n) rest (length-put_be 8 n))
        ∙ be_value-put_be 8 n (omega arith)

module _ {T : Type 0} (hmac_sha256 : Bytes → Bytes → Bytes) where
  -- What the selection leaves alone, and who is paid: the bridge exactly if the request is
  -- counted as diverted, and the miner otherwise.
  pub record Selected (wallet_addr : Bytes) (api : HtnApi T) (r : HtnApi T × Bytes × Bool)
      : Type 0 where
    pub payout : r.1 ≡ (if r.2 then api.bridge_fee.address else wallet_addr)
    pub diverted : r.0.gbt_diverted ≡ (if r.2 then inc64 api.gbt_diverted else api.gbt_diverted)
    pub total : r.0.gbt_total ≡ inc64 api.gbt_total
    pub configured : r.2 ≡ true → has_fee api.bridge_fee ≡ true
    pub fee : r.0.bridge_fee ≡ api.bridge_fee
    pub cache : r.0.gbt_cache ≡ api.gbt_cache
    pub ttl : r.0.gbt_cache_ttl ≡ api.gbt_cache_ttl

  -- The selection pays the bridge exactly if it says so, which it does only with the fee enabled and
  -- a salt, and counts the request, and the diversion if it is one; the fee's configuration, the
  -- cache and its time to live stay as they were.
  pub select-Selected :
      (node : Node T) (wallet_addr worker_name : Bytes) (api : HtnApi T)
      → Selected wallet_addr api (select hmac_sha256 node wallet_addr worker_name api)
  unfolding select
  select-Selected node wallet_addr worker_name api = ground arith
