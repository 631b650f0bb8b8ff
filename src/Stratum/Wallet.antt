-- ===== src/Stratum/Wallet.antt =====
-- `CleanWallet` of src/gostratum/default_client.go.
use htn_stratum_bridge.Prelude.{
  ◌≡◌, refl, Bool, true, false, ◌&&◌, not, Option, none, some, ◌++◌, Bytes, codes, take, has_prefix,
  if◌then◌else◌, arith,
}
use htn_stratum_bridge.Stratum.{is_wallet, coerce_wallet, clean_wallet}

-- A guarded result passes its guard.
guarded :
    (P : Bytes → Bool) (b : Bool) (t a : Bytes) (rest : Option Bytes)
    → (b ≡ true → P t ≡ true)
    → (rest ≡ some a → P a ≡ true)
    → (if b then some t else rest) ≡ some a
    → P a ≡ true
guarded P true t a rest here later e = let same : t ≡ a = ground arith in rw (← same) (here refl)
guarded P false t a rest here later e = later e

module _ (decodes : Bytes → Bytes → Bool) where
  coerce_wallet_valid :
      (s a : Bytes) → coerce_wallet decodes s ≡ some a → is_wallet decodes a ≡ true
  unfolding coerce_wallet
  coerce_wallet_valid s a e =
      guarded (is_wallet decodes) _ (take 61 s) a none (λ t. ground arith)
        (λ n. absurd (ground arith)) e

  -- What `CleanWallet` gives is an address that decodes, with one of the two prefixes.
  pub clean_wallet_valid :
      (s a : Bytes) → clean_wallet decodes s ≡ some a → is_wallet decodes a ≡ true
  unfolding clean_wallet
  clean_wallet_valid s a e =
      guarded (is_wallet decodes) (is_wallet decodes s) s a _ (λ t. t)
        (go (not (has_prefix s (codes "hoosat:")) && not (has_prefix s (codes "hoosattest:")))) e
    where
      prefixed : Bytes
      prefixed = codes "hoosat:" ++ s

      go :
          (b : Bool)
          → (if b
              then (if is_wallet decodes prefixed
                  then some prefixed
                  else coerce_wallet decodes prefixed)
              else coerce_wallet decodes s)
            ≡ some a
          → is_wallet decodes a ≡ true
      go true e =
          guarded (is_wallet decodes) (is_wallet decodes prefixed) prefixed a _ (λ t. t)
            (coerce_wallet_valid prefixed a) e
      go false e = coerce_wallet_valid s a e

  -- Cleaning a cleaned wallet changes nothing.
  pub clean_wallet_idem :
      (s a : Bytes) → clean_wallet decodes s ≡ some a → clean_wallet decodes a ≡ some a
  unfolding clean_wallet
  clean_wallet_idem s a e = rw (clean_wallet_valid s a e) refl
