-- ===== src/Hasher/Words.antt =====
-- What a miner reads from a job of src/htnstratum/hasher.go.
use mathlib.Core.List.{append-nil}
use htn_stratum_bridge.Prelude.{
  ℕ, zero, suc, ◌+◌, ◌*◌, ◌/◌, ◌%◌, ◌^◌, ◌<◌, ◌≤◌, ◌≡◌, refl, ap, sym, ◌∙◌, false, some, List, [],
  ◌∷◌, ◌++◌, append_assoc, map, Bytes, IsBytes, All-reverse, take, drop, length, length-reverse,
  reverse, reverse-reverse, ltb, put_le, le_value, be_value, le_value-lt, length-put_le, hex_decode,
  arith,
}
use htn_stratum_bridge.Hasher.{
  concat, word, low_word, reread, show_hex16, header_words, large_text, generate_job_header,
  generate_large_job_params,
}
use htn_stratum_bridge.Hasher.Digits.{
  digits, hex_text, double, digits-le_value, show_hex16-digits, hex_decode-hex_text,
  digits_value-show_hex,
}

-- Eight bytes.
abbrev IsWord : Bytes → Type 0
IsWord w = IsBytes w × (length w ≡ 8)

drop-drop : (m n : ℕ) (s : Bytes) → drop m (drop n s) ≡ drop (n + m) s
drop-drop m zero s = let e : 0 + m ≡ m = omega arith in rw e refl
drop-drop zero (suc n) [] = let e : suc n + 0 ≡ suc n = omega arith in rw e refl
drop-drop (suc m) (suc n) [] = let e : suc n + suc m ≡ suc (n + suc m) = omega arith in rw e refl
drop-drop m (suc n) (b ∷ s) =
    let e : suc n + m ≡ suc (n + m) = omega arith in rw e (drop-drop m n s)

take-drop : (n : ℕ) (s : Bytes) → take n s ++ drop n s ≡ s
take-drop zero s = refl
take-drop (suc n) [] = refl
take-drop (suc n) (b ∷ s) = ap (λ t. b ∷ t) (take-drop n s)

IsBytes-take : (n : ℕ) (s : Bytes) → IsBytes s → IsBytes (take n s)
IsBytes-take zero s h = tt
IsBytes-take (suc n) [] h = tt
IsBytes-take (suc n) (b ∷ s) h = (h.0, IsBytes-take n s h.1)

IsBytes-drop : (n : ℕ) (s : Bytes) → IsBytes s → IsBytes (drop n s)
IsBytes-drop zero s h = h
IsBytes-drop (suc n) [] h = tt
IsBytes-drop (suc n) (b ∷ s) h = IsBytes-drop n s h.1

length-take : (n : ℕ) (s : Bytes) → n ≤ length s → length (take n s) ≡ n
length-take zero s h = refl
length-take (suc n) [] h = absurd (omega arith)
length-take (suc n) (b ∷ s) h = ap suc (length-take n s (omega arith))

length-take-drop : (i : ℕ) (s : Bytes) → i + 8 ≤ length s → length (take 8 (drop i s)) ≡ 8
length-take-drop zero s h = length-take 8 s (omega arith)
length-take-drop (suc i) [] h = absurd (omega arith)
length-take-drop (suc i) (b ∷ s) h = length-take-drop i s (omega arith)

drop_of_length : (n : ℕ) (s : Bytes) → length s ≡ n → drop n s ≡ []
drop_of_length zero [] h = refl
drop_of_length zero (b ∷ s) h = absurd (omega arith)
drop_of_length (suc n) [] h = refl
drop_of_length (suc n) (b ∷ s) h = drop_of_length n s (omega arith)

-- The words of a header of 32 bytes, and the header from them.
word-IsWord :
    (i : ℕ) (header : Bytes) → IsBytes header → i + 8 ≤ length header → IsWord (word i header)
word-IsWord i header h fits =
    (IsBytes-take 8 (drop i header) (IsBytes-drop i header h), length-take-drop i header fits)

word-drop :
    (i : ℕ) (header rest : Bytes)
    → word i header ++ (drop (i + 8) header ++ rest) ≡ drop i header ++ rest
word-drop i header rest = rw (← drop-drop 8 i header) (
    sym (append_assoc (take 8 (drop i header)) (drop 8 (drop i header)) rest)
    ∙ ap (λ t. t ++ rest) (take-drop 8 (drop i header)))

join_words :
    (header rest : Bytes)
    → length header ≡ 32
    → word 0 header ++ (word 8 header ++ (word 16 header ++ (word 24 header ++ rest)))
      ≡ header ++ rest
join_words header rest h =
    let end : drop 32 header ++ rest ≡ rest = rw (drop_of_length 32 header h) refl in
    ap (λ t. word 0 header ++ (word 8 header ++ (word 16 header ++ t)))
      (ap (λ t. word 24 header ++ t) (sym end) ∙ word-drop 24 header rest)
    ∙ ap (λ t. word 0 header ++ (word 8 header ++ t)) (word-drop 16 header rest)
    ∙ ap (λ t. word 0 header ++ t) (word-drop 8 header rest)
    ∙ word-drop 0 header rest

-- The text of a word is two digits for each of its bytes.
show_hex16-word : (w : Bytes) → IsWord w → show_hex16 (be_value w) ≡ hex_text w
show_hex16-word w h =
    let l = reverse w in
    let bytes : IsBytes l = All-reverse (λ b. b < 256) w h.0 in
    let len : length l ≡ 8 = length-reverse w ∙ h.1 in
    let bound : le_value l < 256 ^ length l = le_value-lt l bytes in
    let small : le_value l < 16 ^ 16 = rw len at bound in
    let text : digits (double (length l)) (le_value l) ≡ hex_text (reverse l) =
      digits-le_value l bytes in
    let text8 : digits 16 (le_value l) ≡ hex_text (reverse l) = rw len at text in
    show_hex16-digits (le_value l) small ∙ text8 ∙ ap hex_text (reverse-reverse w)

IsBytes-put_le : (k n : ℕ) → IsBytes (put_le k n)
unfolding put_le
IsBytes-put_le zero n = tt
IsBytes-put_le (suc k) n = (omega arith, IsBytes-put_le k (n / 256))

hex_decode-only : (bs : Bytes) → IsBytes bs → hex_decode (hex_text bs) ≡ some bs
unfolding hex_decode
hex_decode-only bs h =
    rw (← append-nil (hex_text bs)) (hex_decode-hex_text bs [] [] h refl ∙ ap some (append-nil bs))

put_le-le_value : (w : Bytes) → IsBytes w → put_le (length w) (le_value w) ≡ w
unfolding put_le le_value
put_le-le_value [] h = refl
put_le-le_value (b ∷ w) h =
    let low : (b + 256 * le_value w) % 256 ≡ b = omega arith in
    let high : (b + 256 * le_value w) / 256 ≡ le_value w = omega arith in
    rw (low, high) (ap (λ t. b ∷ t) (put_le-le_value w h.1))

put_le-word : (w : Bytes) → IsWord w → put_le 8 (le_value w) ≡ w
put_le-word w h = let same = put_le-le_value w h.0 in rw h.1 at same

module _ (header : Bytes) (bytes : IsBytes header) (len : length header ≡ 32) where
  long : ltb (length header) 32 ≡ false
  long = ground arith

  nth_word : (i : ℕ) → i ≤ 24 → IsWord (word i header)
  nth_word i h = word-IsWord i header bytes (omega (arith, len))

  hex_decode-large_text :
      (timestamp : ℕ)
      → hex_decode (large_text header timestamp) ≡ some (header ++ put_le 8 timestamp)
  hex_decode-large_text timestamp =
      let time = put_le 8 timestamp in
      let w0 = nth_word 0 (omega arith) in
      let w1 = nth_word 8 (omega arith) in
      let w2 = nth_word 16 (omega arith) in
      let w3 = nth_word 24 (omega arith) in
      let wt : IsWord time = (IsBytes-put_le 8 timestamp, length-put_le 8 timestamp) in
      let last : hex_decode (hex_text time) ≡ some time = hex_decode-only time wt.0 in
      rw
        (
          show_hex16-word (word 0 header) w0,
          show_hex16-word (word 8 header) w1,
          show_hex16-word (word 16 header) w2,
          show_hex16-word (word 24 header) w3,
          show_hex16-word time wt,
        )
        (hex_decode-hex_text (word 0 header) _ _ w0.0 (
            hex_decode-hex_text (word 8 header) _ _ w1.0 (
              hex_decode-hex_text (word 16 header) _ _ w2.0
                (hex_decode-hex_text (word 24 header) _ _ w3.0 last)))
          ∙ ap some (join_words header time len))

  reread-word : (i : ℕ) → i ≤ 24 → put_le 8 (reread (le_value (word i header))) ≡ word i header
  reread-word i h =
      let w = nth_word i h in
      let bound : le_value (word i header) < 256 ^ length (word i header) =
        le_value-lt (word i header) w.0 in
      let small : le_value (word i header) < 2 ^ 64 = rw w.1 at bound in
      let same : le_value (word i header) % 2 ^ 64 ≡ le_value (word i header) = omega arith in
      ap (λ n. put_le 8 n) (ap low_word (digits_value-show_hex (le_value (word i header))) ∙ same)
      ∙ put_le-word (word i header) w

  -- A miner reads from a job the header's hash, byte for byte: the four numbers of the plain form
  -- stand for eight bytes each, the lowest first; the text of the large form is that of the 32 bytes
  -- and of the timestamp in eight bytes more, the lowest first.
  pub job_forms :
      (timestamp : ℕ)
      → ((words : List ℕ) × (generate_job_header header ≡ some words)
          × (concat (map (put_le 8) words) ≡ header))
        × ((text : Bytes) × (generate_large_job_params header timestamp ≡ some text)
            × (hex_decode text ≡ some (header ++ put_le 8 timestamp)))
  unfolding generate_job_header generate_large_job_params
  job_forms timestamp = (
    (
      header_words header,
      rw long refl,
      rw
          (
            reread-word 0 (omega arith),
            reread-word 8 (omega arith),
            reread-word 16 (omega arith),
            reread-word 24 (omega arith),
          )
          (join_words header [] len ∙ append-nil header),
    ),
    (large_text header timestamp, rw long refl, hex_decode-large_text timestamp),
  )
