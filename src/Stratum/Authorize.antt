-- ===== src/Stratum/Authorize.antt =====
-- `HandleAuthorize` of src/gostratum/default_client.go.
use htn_stratum_bridge.Prelude.{
  ℕ, ◌+◌, ◌≤◌, ◌≡◌, refl, Bool, true, false, Option, none, some, List, [], ◌∷◌, Bytes, length, take,
  length-take-le, to_valid_utf8, length-to_valid_utf8-le, ltb, ℤ, pos, int_inc, ltb_ℤ,
  if◌then◌else◌, Bool-cases, inl, inr, arith,
}
use htn_stratum_bridge.Stratum.{Param, param_text, is_wallet, split_dots, clean_wallet}
use htn_stratum_bridge.Stratum.Wallet.{clean_wallet_valid}

-- The part of a `StratumContext` that an authorize request writes.
pub record Session : Type 0 where
  pub wallet_addr : Bytes
  pub worker_name : Bytes
  pub authorize_count : ℤ

abbrev pub max_authorize_per_conn : ℕ
max_authorize_per_conn = 4

abbrev pub max_worker_name_len : ℕ
max_worker_name_len = 64

abbrev pub cut_name : Bytes → Bytes
cut_name name =
    if ltb max_worker_name_len (length name)
    then to_valid_utf8 (take max_worker_name_len name)
    else name

-- The address and the worker's name in the first parameter.
abbrev pub read_worker : Bytes → Bytes × Bytes
read_worker address = elim (split_dots address).1 [
  | [] ↦ (address, [])
  | name ∷ more ↦ ((split_dots address).0, name)
]

abbrev pub first_param : List Param → Option Bytes
first_param [] = none
first_param (p ∷ ps) = param_text p

module _ (decodes : Bytes → Bytes → Bool) where
  -- Up to the point where the reply is written; `false` is an error, which ends the connection.
  abbrev pub accept_wallet : Bytes → Session → Option Bytes → Session × Bool
  accept_wallet name s none = (s, false)
  accept_wallet name s (some clean) =
      (record s { wallet_addr = clean; worker_name = cut_name name }, true)

  abbrev pub authorize_as : Session → Option Bytes → Session × Bool
  authorize_as s none = (s, false)
  authorize_as s (some address) =
      let (wallet, name) = read_worker address in accept_wallet name s (clean_wallet decodes wallet)

  unfoldable pub handle_authorize : List Param → Session → Session × Bool
  handle_authorize params s =
      let counted = record s { authorize_count = int_inc s.authorize_count } in
      if ltb_ℤ (pos max_authorize_per_conn) counted.authorize_count
      then (counted, false)
      else authorize_as counted (first_param params)

  -- How many of a connection's authorize requests are accepted; the first that is not ends it.
  unfoldable pub authorize_all : List (List Param) → Session → ℕ
  authorize_all [] s = 0
  authorize_all (params ∷ more) s =
      let (s', accepted) = handle_authorize params s in
      let rest = authorize_all more s' in if accepted then 1 + rest else 0

int_inc_below : (n : ℕ) → n ≤ 4 → int_inc (pos n) ≡ pos (n + 1)
unfolding int_inc
int_inc_below n h = ground arith

length-cut_name-le : (name : Bytes) → length (cut_name name) ≤ 64
length-cut_name-le name = elim (Bool-cases (ltb 64 (length name))) [
  | inl long ↦
      rw long (omega (arith, length-to_valid_utf8-le (take 64 name), length-take-le 64 name))
  | inr short ↦ rw short (ground arith)
]

module _ (decodes : Bytes → Bytes → Bool) where
  -- What an accepted request leaves in the session.
  abbrev IsAccepted : Session → Session × Bool → Type 0
  IsAccepted s (s', accepted) =
      (s'.authorize_count ≡ s.authorize_count)
      × (accepted ≡ true → (is_wallet decodes s'.wallet_addr ≡ true) × (length s'.worker_name ≤ 64))

  authorize_as-IsAccepted :
      (s : Session) (address : Option Bytes) → IsAccepted s (authorize_as decodes s address)
  authorize_as-IsAccepted s none = (refl, λ no. absurd (ground arith))
  authorize_as-IsAccepted s (some address) =
      go (clean_wallet decodes (read_worker address).0)
        (clean_wallet_valid decodes (read_worker address).0)
    where
      go :
          (clean : Option Bytes)
          → ((a : Bytes) → clean ≡ some a → is_wallet decodes a ≡ true)
          → IsAccepted s (accept_wallet decodes (read_worker address).1 s clean)
      go none valid = (refl, λ no. absurd (ground arith))
      go (some a) valid = (refl, λ _. (valid a refl, length-cut_name-le (read_worker address).1))

  -- A request that is accepted leaves an address that decodes, and a worker's name of at most 64
  -- bytes.
  pub handle_authorize_valid :
      (params : List Param) (s : Session)
      → let (s', accepted) = handle_authorize decodes params s in
        accepted ≡ true → (is_wallet decodes s'.wallet_addr ≡ true) × (length s'.worker_name ≤ 64)
  unfolding handle_authorize
  handle_authorize_valid params s = go (ltb_ℤ (pos 4) (int_inc s.authorize_count))
    where
      counted : Session
      counted = record s { authorize_count = int_inc s.authorize_count }

      go :
          (b : Bool)
          → let r =
              if b then (counted, false) else authorize_as decodes counted (first_param params) in
            r.1 ≡ true → (is_wallet decodes r.0.wallet_addr ≡ true) × (length r.0.worker_name ≤ 64)
      go true e = absurd (ground arith)
      go false e = (authorize_as-IsAccepted counted (first_param params)).1 e

  pub authorize_count :
      (params : List Param) (s : Session) (n : ℕ)
      → s.authorize_count ≡ pos n
      → n ≤ 4
      → let (s', accepted) = handle_authorize decodes params s in
        accepted ≡ true → (s'.authorize_count ≡ pos (n + 1)) × (n + 1 ≤ 4)
  unfolding handle_authorize
  authorize_count params s n c le =
      rw (c, int_inc_below n (omega arith)) (go (ltb_ℤ (pos 4) (pos (n + 1))) (λ e. ground arith))
    where
      counted : Session
      counted = record s { authorize_count = pos (n + 1) }

      go :
          (b : Bool)
          → (b ≡ false → n + 1 ≤ 4)
          → let r =
              if b then (counted, false) else authorize_as decodes counted (first_param params) in
            r.1 ≡ true → (r.0.authorize_count ≡ pos (n + 1)) × (n + 1 ≤ 4)
      go true few e = absurd (ground arith)
      go false few e = ((authorize_as-IsAccepted counted (first_param params)).0, few refl)

  -- A connection whose session is new has at most four authorize requests accepted, however many
  -- it sends: so it can bring at most four worker names.
  pub authorize_all_bound :
      (requests : List (List Param)) (s : Session) (n : ℕ)
      → s.authorize_count ≡ pos n
      → n ≤ 4
      → n + authorize_all decodes requests s ≤ 4
  unfolding authorize_all
  authorize_all_bound [] s n c le = omega arith
  authorize_all_bound (params ∷ more) s n c le =
      let (s', accepted) = handle_authorize decodes params s in
      elim (Bool-cases accepted) [
        | inl ok ↦
            let (c', le') = authorize_count params s n c le ok in
            let rest = authorize_all_bound more s' (n + 1) c' le' in rw ok (omega arith)
        | inr refused ↦ rw refused (omega arith)
      ]
