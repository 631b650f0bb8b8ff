-- ===== src/Worker.antt =====
-- `sanitizeWorkerID` of src/htnstratum/htnapi.go: the worker's name as it enters job keys and
-- coinbase payloads.
mod Tests
use htn_stratum_bridge.Prelude.{
  ℕ, zero, suc, ◌≤◌, ◌<◌, ◌≡◌, ◌≢◌, refl, ◌∙◌, ap, inl, inr, Bool, true, false, ◌&&◌, ◌||◌, List,
  [], ◌∷◌, map, Bytes, All, is_empty, trim_space, trim_space_plain, IsPlain, take, length,
  length-take-le, take_of_length-le, leb, ltb, nat_eq, if◌then◌else◌, Bool-cases, arith,
}

-- `[a-zA-Z0-9._-]`, the class of the regular expression.
abbrev pub allowed : ℕ → Bool
allowed c =
    (leb b'a' c && leb c b'z')
    || (leb b'A' c && leb c b'Z')
    || (leb b'0' c && leb c b'9')
    || nat_eq c b'.'
    || nat_eq c b'_'
    || nat_eq c b'-'

-- `strings.ReplaceAll(s, " ", "_")`
abbrev pub underscore : ℕ → ℕ
underscore c = if nat_eq c b' ' then b'_' else c

-- `re.ReplaceAllString(s, "")`: what is not allowed goes. A character that is not ASCII has none
-- but bytes from 128 on, and goes whole.
unfoldable pub keep_allowed : Bytes → Bytes
keep_allowed [] = []
keep_allowed (c ∷ s) = let rest = keep_allowed s in if allowed c then c ∷ rest else rest

unfoldable pub sanitize_worker_id : Bytes → Bytes
unfolding keep_allowed
sanitize_worker_id s =
    let trimmed = trim_space s in
    if is_empty trimmed
    then trimmed
    else let kept = keep_allowed (map underscore trimmed) in
      if ltb 32 (length kept) then take 32 kept else kept

abbrev pub IsAllowed : ℕ → Type 0
IsAllowed c = allowed c ≡ true

keep_allowed-IsAllowed : (s : Bytes) → All IsAllowed (keep_allowed s)
unfolding keep_allowed
keep_allowed-IsAllowed [] = tt
keep_allowed-IsAllowed (c ∷ s) = elim (Bool-cases (allowed c)) [
  | inl keep ↦ rw keep (keep, keep_allowed-IsAllowed s)
  | inr drop_it ↦ rw drop_it (keep_allowed-IsAllowed s)
]

All-take {ℓ} : {A : Type ℓ} (P : A → Type 0) (n : ℕ) (xs : List A) → All P xs → All P (take n xs)
All-take P zero xs h = tt
All-take P (suc n) [] h = tt
All-take P (suc n) (x ∷ xs) h = (h.0, All-take P n xs h.1)

sanitize_worker_id_lem :
    (s : Bytes) → sanitize_worker_id s ≡ take 32 (keep_allowed (map underscore (trim_space s)))
unfolding sanitize_worker_id keep_allowed
sanitize_worker_id_lem s = go (trim_space s)
  where
    short : (k : Bytes) → (if ltb 32 (length k) then take 32 k else k) ≡ take 32 k
    short k = ground (arith, take_of_length-le 32 k)

    go :
        (t : Bytes)
        → (if is_empty t
            then t
            else if ltb 32 (length (keep_allowed (map underscore t)))
            then take 32 (keep_allowed (map underscore t))
            else keep_allowed (map underscore t))
          ≡ take 32 (keep_allowed (map underscore t))
    go [] = refl
    go (c ∷ t) = short (keep_allowed (map underscore (c ∷ t)))

-- A sanitized name has at most 32 bytes, each a letter, a digit, or one of `.`, `_` and `-`.
pub sanitize_worker_id_safe :
    (s : Bytes) → All IsAllowed (sanitize_worker_id s) × (length (sanitize_worker_id s) ≤ 32)
sanitize_worker_id_safe s =
    let kept = keep_allowed (map underscore (trim_space s)) in
    rw (sanitize_worker_id_lem s) (
      All-take IsAllowed 32 kept (keep_allowed-IsAllowed (map underscore (trim_space s))),
      length-take-le 32 kept,
    )

keep_allowed_self : (s : Bytes) → All IsAllowed s → keep_allowed (map underscore s) ≡ s
unfolding keep_allowed
keep_allowed_self [] h = refl
keep_allowed_self (c ∷ s) h = ground (arith, keep_allowed_self s h.1)

plain : (c : ℕ) → IsAllowed c → IsPlain c
plain c h = ground arith

pub IsPlain-of_allowed : (s : Bytes) → All IsAllowed s → All IsPlain s
IsPlain-of_allowed [] h = tt
IsPlain-of_allowed (c ∷ s) h = (plain c h.0, IsPlain-of_allowed s h.1)

-- Sanitizing a sanitized name changes nothing.
pub sanitize_worker_id_idem :
    (s : Bytes) → sanitize_worker_id (sanitize_worker_id s) ≡ sanitize_worker_id s
sanitize_worker_id_idem s =
    let name = sanitize_worker_id s in
    let safe = sanitize_worker_id_safe s in
    sanitize_worker_id_lem name
    ∙ rw (trim_space_plain name (IsPlain-of_allowed name safe.0), keep_allowed_self name safe.0)
        (take_of_length-le 32 name safe.1)
