-- ===== src/Rewards/Reading.antt =====
-- How the regular expression of src/htnstratum/miner_rewards.go reads a text of printed characters.
use htn_stratum_bridge.Prelude.{
  ℕ, zero, suc, ◌+◌, ◌≤◌, ◌<◌, ◌≡◌, refl, ap, ◌∙◌, Bool, true, false, Option, none, some, List, [],
  ◌∷◌, ◌++◌, map, Bytes, codes, All, length, trim_space, trim_space_plain, utf8_length, leb, nat_eq,
  if◌then◌else◌, arith,
}
use htn_stratum_bridge.Worker.{IsAllowed, IsPlain-of_allowed}
use htn_stratum_bridge.Rewards.Payload.{
  runes_from, normalize, fold_case, in_name, in_word, is_blank, after_word, skip_blanks,
  after_blanks, take_name, and_then, or_else, name_of, match_here, find_name, write_rune,
  write_name, written_name,
}

abbrev pub IsPrint : ℕ → Type 0
IsPrint c = (32 ≤ c) × (c < 128)

one_byte : (c : ℕ) (s : Bytes) → c < 128 → utf8_length c s ≡ 1
one_byte c s h = ground (arith, h)

normalize-print : (c : ℕ) → IsPrint c → normalize c ≡ c
normalize-print c h = ground (arith, h)

pub runes-print : (s : Bytes) → All IsPrint s → map normalize (runes_from 0 s) ≡ s
unfolding runes_from
runes-print [] h = refl
runes-print (c ∷ s) h = rw (one_byte c s h.0.1) (
    ap (λ r. r ∷ map normalize (runes_from 0 s)) (normalize-print c h.0)
    ∙ ap (λ rest. c ∷ rest) (runes-print s h.1))

-- The data of an address: letters and digits.
abbrev pub IsData : ℕ → Type 0
IsData c = (in_word c ≡ true) × (c < 128)

find_name-inside :
    (q : Bytes) (rest : List ℕ)
    → All IsData q
    → find_name true (q ++ (32 ∷ rest)) ≡ find_name false rest
unfolding find_name
find_name-inside [] rest h = refl
find_name-inside (c ∷ q) rest h = rw (h.0.0) (find_name-inside q rest h.1)

pub take_name-all : (n : ℕ) (w : Bytes) → All IsAllowed w → length w ≤ n → take_name n w ≡ w
unfolding take_name
take_name-all zero [] h le = refl
take_name-all zero (c ∷ w) h le = absurd (omega arith)
take_name-all (suc n) [] h le = refl
take_name-all (suc n) (c ∷ w) h le =
    rw (h.0) (ap (λ s. c ∷ s) (take_name-all n w h.1 (omega arith)))

write_rune-ascii : (c : ℕ) → IsAllowed c → write_rune c ≡ c ∷ []
write_rune-ascii c h = ground (arith, h)

write_name-all : (n : ℕ) (w : Bytes) → All IsAllowed w → n + length w ≤ 32 → write_name n w ≡ w
unfolding write_name
write_name-all n [] h le = refl
write_name-all n (c ∷ w) h le = rw (write_rune-ascii c h.0) (
    go w (leb 32 (n + 1)) (λ last. ground (arith, last, le))
      (write_name-all (n + 1) w h.1 (omega (arith, le))))
  where
    go :
        (w : Bytes) (full : Bool)
        → (full ≡ true → length w ≡ 0)
        → write_name (n + 1) w ≡ w
        → (if full then c ∷ [] else c ∷ write_name (n + 1) w) ≡ c ∷ w
    go [] true ends e = refl
    go (d ∷ w) true ends e = absurd (omega (arith, ends refl))
    go w false ends e = ap (λ rest. c ∷ rest) e

-- An allowed character is printed, and is not blank.
pub allowed-IsPrint : (c : ℕ) → IsAllowed c → IsPrint c
allowed-IsPrint c h = ground (arith, h)

pub data-IsPrint : (c : ℕ) → IsData c → IsPrint c
data-IsPrint c h = ground (arith, h)

pub allowed-in_name : (c : ℕ) → IsAllowed c → (in_name c ≡ true) × (is_blank c ≡ false)
allowed-in_name c h = ground (arith, h)

data-is_blank : (c : ℕ) → IsData c → is_blank c ≡ false
data-is_blank c h = ground (arith, h)

-- What the expression asks for after `as` or `by`.
abbrev after_as : Option (List ℕ) → Option (List ℕ)
after_as found = and_then found (λ a. and_then (after_blanks a) (λ b.
    and_then (after_word (codes "worker") b)
      (λ c. and_then (after_blanks c) (λ d. name_of (take_name 32 d)))))

either_word :
    (a b c d : Bool) (rs : List ℕ)
    → after_as (some rs) ≡ none
    → after_as (
        or_else
          (if a then (if b then some rs else none) else none)
          (if c then (if d then some rs else none) else none))
      ≡ none
either_word true true c d rs e = e
either_word true false true true rs e = e
either_word true false true false rs e = refl
either_word true false false d rs e = refl
either_word false b true true rs e = e
either_word false b true false rs e = refl
either_word false b false d rs e = refl

-- No name begins where the data of an address do.
match_here-address :
    (q : Bytes) (rest : List ℕ) → All IsData q → match_here (q ++ (32 ∷ b'v' ∷ rest)) ≡ none
unfolding match_here after_word skip_blanks
match_here-address [] rest h = refl
match_here-address (c ∷ []) rest h =
    either_word (nat_eq (fold_case c) b'a') false (nat_eq (fold_case c) b'b') false
      (32 ∷ b'v' ∷ rest) refl
match_here-address (c ∷ d ∷ []) rest h =
    either_word (nat_eq (fold_case c) b'a') (nat_eq (fold_case d) b's') (nat_eq (fold_case c) b'b')
      (nat_eq (fold_case d) b'y') (32 ∷ b'v' ∷ rest) refl
match_here-address (c ∷ d ∷ e ∷ q) rest h =
    either_word (nat_eq (fold_case c) b'a') (nat_eq (fold_case d) b's') (nat_eq (fold_case c) b'b')
      (nat_eq (fold_case d) b'y') (e ∷ (q ++ (32 ∷ b'v' ∷ rest)))
      (rw (data-is_blank e (h.1.1.0)) refl)

pub find_name-address :
    (q : Bytes) (rest : List ℕ)
    → All IsData q
    → find_name false (q ++ (32 ∷ b'v' ∷ rest)) ≡ find_name false (b'v' ∷ rest)
unfolding find_name
find_name-address [] rest h = refl
find_name-address (c ∷ q) rest h =
    ap (λ m. or_else m (find_name (in_word c) (q ++ (32 ∷ b'v' ∷ rest))))
      (match_here-address (c ∷ q) rest h)
    ∙ ap (λ b. find_name b (q ++ (32 ∷ b'v' ∷ rest))) (h.0.0)
    ∙ find_name-inside q (b'v' ∷ rest) h.1

pub written_name-all : (w : Bytes) → All IsAllowed w → length w ≤ 32 → written_name (name_of w) ≡ w
written_name-all [] h le = refl
written_name-all (c ∷ w) h le =
    ap trim_space (write_name-all 0 (c ∷ w) h (omega (arith, le)))
    ∙ trim_space_plain (c ∷ w) (IsPlain-of_allowed (c ∷ w) h)
