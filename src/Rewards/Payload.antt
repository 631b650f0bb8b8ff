-- ===== src/Rewards/Payload.antt =====
-- `extractWorkerFromPayload` and `sanitizeWorkerIDRewards` of src/htnstratum/miner_rewards.go: the
-- worker's name in a coinbase payload. Text is taken apart into characters, whose codes are numbers.
-- The case of a letter outside of ASCII is folded only where the regular expression does it: the long
-- s and the sign for kelvin match `s` and `k`.
use htn_stratum_bridge.Prelude.{
  ℕ, zero, suc, ◌+◌, ◌-◌, ◌*◌, ◌%◌, Bool, false, ◌&&◌, ◌||◌, Option, none, some, List, [], ◌∷◌,
  ◌++◌, map, Bytes, codes, is_empty, hex_decode, trim_space, utf8_length, length, leb, ltb, nat_eq,
  if◌then◌else◌,
}
use htn_stratum_bridge.Rpc.{Transaction, Block}
use htn_stratum_bridge.Worker.{allowed}

abbrev byte_at : ℕ → Bytes → ℕ
byte_at n [] = 0
byte_at zero (c ∷ s) = c % 64
byte_at (suc n) (c ∷ s) = byte_at n s

-- The code of a character of so many bytes.
abbrev pub rune_value : ℕ → ℕ → Bytes → ℕ
rune_value n c s =
    if nat_eq n 1
    then c
    else if nat_eq n 2
    then c % 32 * 64 + byte_at 0 s
    else if nat_eq n 3
    then (c % 16 * 64 + byte_at 0 s) * 64 + byte_at 1 s
    else ((c % 8 * 64 + byte_at 0 s) * 64 + byte_at 1 s) * 64 + byte_at 2 s

-- `for _, r := range s`: a byte that begins no character reads as U+FFFD.
unfoldable pub runes_from : ℕ → Bytes → List ℕ
runes_from pending [] = []
runes_from (suc pending) (c ∷ s) = runes_from pending s
runes_from zero (c ∷ s) =
    let n = utf8_length c s in
    let rest = runes_from (n - 1) s in (if nat_eq n 0 then 0xFFFD else rune_value n c s) ∷ rest

-- White space becomes a space, other controls a dot.
abbrev pub normalize : ℕ → ℕ
normalize r = if nat_eq r 10 || (nat_eq r 13 || nat_eq r 9) then 32 else if ltb r 32 then 46 else r

-- `(?i)`
abbrev pub fold_case : ℕ → ℕ
fold_case r =
    if leb b'A' r && leb r b'Z'
    then r + 32
    else if nat_eq r 0x17F
    then b's'
    else if nat_eq r 0x212A
    then b'k'
    else r

-- `[A-Za-z0-9._-]` under `(?i)`.
abbrev pub in_name : ℕ → Bool
in_name r = allowed r || (nat_eq r 0x17F || nat_eq r 0x212A)

-- A word character of `\b`.
abbrev pub in_word : ℕ → Bool
in_word r =
    (leb b'a' r && leb r b'z')
    || ((leb b'A' r && leb r b'Z') || ((leb b'0' r && leb r b'9') || nat_eq r b'_'))

-- `\s`
abbrev pub is_blank : ℕ → Bool
is_blank r = nat_eq r 32 || (nat_eq r 9 || (nat_eq r 10 || (nat_eq r 12 || nat_eq r 13)))

-- What follows a word.
unfoldable pub after_word : Bytes → List ℕ → Option (List ℕ)
after_word [] rs = some rs
after_word (c ∷ word) [] = none
after_word (c ∷ word) (r ∷ rs) =
    let rest = after_word word rs in if nat_eq (fold_case r) c then rest else none

unfoldable pub skip_blanks : List ℕ → List ℕ
skip_blanks [] = []
skip_blanks (r ∷ rs) = let rest = skip_blanks rs in if is_blank r then rest else r ∷ rs

-- `\s+`
abbrev pub after_blanks : List ℕ → Option (List ℕ)
after_blanks [] = none
after_blanks (r ∷ rs) = if is_blank r then some (skip_blanks rs) else none

-- `[A-Za-z0-9._-]{1,32}`, of which an empty one is no match.
unfoldable pub take_name : ℕ → List ℕ → List ℕ
take_name zero rs = []
take_name (suc n) [] = []
take_name (suc n) (r ∷ rs) = let rest = take_name n rs in if in_name r then r ∷ rest else []

abbrev pub and_then {ℓ} : {A B : Type ℓ} → Option A → (A → Option B) → Option B
and_then none f = none
and_then (some a) f = f a

abbrev pub or_else {ℓ} : {A : Type ℓ} → Option A → Option A → Option A
or_else none b = b
or_else (some a) b = some a

abbrev pub name_of : List ℕ → Option (List ℕ)
name_of [] = none
name_of (r ∷ rs) = some (r ∷ rs)

-- The regular expression at one place. What a repetition takes is never needed after it.
unfoldable pub match_here : List ℕ → Option (List ℕ)
unfolding after_word skip_blanks take_name
match_here rs = and_then (or_else (after_word (codes "as") rs) (after_word (codes "by") rs)) (λ a.
    and_then (after_blanks a) (λ b.
      and_then (after_word (codes "worker") b)
        (λ c. and_then (after_blanks c) (λ d. name_of (take_name 32 d)))))

-- The first match, where a word does not begin inside of another.
unfoldable pub find_name : Bool → List ℕ → Option (List ℕ)
unfolding match_here
find_name inside [] = none
find_name inside (r ∷ rs) =
    let later = find_name (in_word r) rs in
    if inside then later else or_else (match_here (r ∷ rs)) later

-- The bytes of a character of a name.
abbrev pub write_rune : ℕ → Bytes
write_rune r =
    if nat_eq r 0x17F
    then 0xC5 ∷ 0xBF ∷ []
    else if nat_eq r 0x212A
    then 0xE2 ∷ 0x84 ∷ 0xAA ∷ []
    else r ∷ []

-- The loop that writes the name, until it has 32 bytes.
unfoldable pub write_name : ℕ → List ℕ → Bytes
write_name written [] = []
write_name written (r ∷ rs) =
    let now = written + length (write_rune r) in
    let rest = write_name now rs in if leb 32 now then write_rune r else write_rune r ++ rest

abbrev pub written_name : Option (List ℕ) → Bytes
written_name none = []
written_name (some name) = trim_space (write_name 0 name)

-- The worker's name in a payload that is not hexadecimal any more.
unfoldable pub worker_in : Bytes → Bytes
unfolding runes_from find_name write_name
worker_in raw = written_name (find_name false (map normalize (runes_from 0 raw)))

-- "Detect hex": what decodes, and is not empty.
abbrev pub raw_payload : Bytes → Option Bytes → Bytes
raw_payload payload none = payload
raw_payload payload (some []) = payload
raw_payload payload (some (c ∷ raw)) = c ∷ raw

abbrev pub worker_paid : Option Transaction → Bytes
worker_paid none = []
worker_paid (some cb) =
    if is_empty cb.payload then [] else worker_in (raw_payload cb.payload (hex_decode cb.payload))

unfoldable pub extract_worker_from_payload : Block → Bytes
unfolding worker_in
extract_worker_from_payload b = elim b.transactions [ [] ↦ [] | cb ∷ more ↦ worker_paid cb ]
