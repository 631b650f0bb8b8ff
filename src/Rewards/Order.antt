-- ===== src/Rewards/Order.antt =====
-- `findMinedBluesFromMergeSet` of src/htnstratum/miner_rewards.go: its sorting by hash makes the
-- result independent of the order of the merge set.
use htn_stratum_bridge.Prelude.{
  ◌≡◌, ◌≢◌, refl, sym, ap, ◌∙◌, inl, inr, Bool, true, false, Option, none, some, List, [], ◌∷◌,
  length, Bytes, nat_eq, if◌then◌else◌, Bool-cases, arith, bytes_eq, bytes_eq_iff,
}
use mathlib.Core.List.{Permᴰ}
use htn_stratum_bridge.Rpc.{Block}
use htn_stratum_bridge.Db.{Table}
use htn_stratum_bridge.Rewards.{MinedBlue}
use htn_stratum_bridge.Rewards.Mined.{
  bytes_lt, place_blue, sort_by_hash, mined_blue, collect_blues, find_mined_blues_from_merge_set,
}

bytes_lt_asym : (a b : Bytes) → bytes_lt a b ≡ true → bytes_lt b a ≡ false
unfolding bytes_lt
bytes_lt_asym [] [] h = refl
bytes_lt_asym [] (d ∷ t) h = refl
bytes_lt_asym (c ∷ s) [] h = absurd (ground arith)
bytes_lt_asym (c ∷ s) (d ∷ t) h = ground (arith, bytes_lt_asym s t)

bytes_lt_total : (a b : Bytes) → bytes_lt a b ≡ false → bytes_lt b a ≡ false → a ≡ b
unfolding bytes_lt
bytes_lt_total [] [] h k = refl
bytes_lt_total [] (d ∷ t) h k = absurd (ground arith)
bytes_lt_total (c ∷ s) [] h k = absurd (ground arith)
bytes_lt_total (c ∷ s) (d ∷ t) h k = ground (arith, bytes_lt_total s t)

bytes_lt-nil : (a : Bytes) → bytes_lt a [] ≡ false
unfolding bytes_lt
bytes_lt-nil [] = refl
bytes_lt-nil (c ∷ s) = refl

bytes_lt_trans : (a b c : Bytes) → bytes_lt a b ≡ true → bytes_lt b c ≡ true → bytes_lt a c ≡ true
unfolding bytes_lt
bytes_lt_trans a b [] h k = absurd (ground (arith, bytes_lt-nil b))
bytes_lt_trans a [] (z ∷ c) h k = absurd (ground (arith, bytes_lt-nil a))
bytes_lt_trans [] (y ∷ b) (z ∷ c) h k = refl
bytes_lt_trans (x ∷ a) (y ∷ b) (z ∷ c) h k = ground (arith, bytes_lt_trans a b c)

place_blue-swap :
    (a b : MinedBlue) (rest : List MinedBlue)
    → a.hash ≢ b.hash
    → place_blue a (place_blue b rest) ≡ place_blue b (place_blue a rest)
unfolding place_blue
place_blue-swap a b [] ne =
    ground (arith, bytes_lt_asym a.hash b.hash, bytes_lt_total a.hash b.hash)
place_blue-swap a b (q ∷ rest) ne = ground (
  arith,
  place_blue-swap a b rest ne,
  bytes_lt_asym a.hash b.hash,
  bytes_lt_asym b.hash a.hash,
  bytes_lt_total a.hash b.hash,
  bytes_lt_trans q.hash a.hash b.hash,
  bytes_lt_trans q.hash b.hash a.hash,
)

-- A block that counts as mined goes to its place.
abbrev add_blue : Option MinedBlue → List MinedBlue → List MinedBlue
add_blue none l = l
add_blue (some mb) l = place_blue mb l

add_blue-swap :
    (o p : Option MinedBlue) (l : List MinedBlue)
    → ((a b : MinedBlue) → o ≡ some a → p ≡ some b → a.hash ≢ b.hash)
    → add_blue o (add_blue p l) ≡ add_blue p (add_blue o l)
add_blue-swap none p l ne = refl
add_blue-swap (some a) none l ne = refl
add_blue-swap (some a) (some b) l ne = place_blue-swap a b l (ne a b refl refl)

module _ (to_lower : Bytes → Bytes) (extract_worker : Block → Bytes)
    (block : Bytes → Option Block) where
  abbrev counted : Option Table → Bytes → Bytes → Option MinedBlue
  counted db wallet h =
      if nat_eq (length h) 64 then mined_blue to_lower extract_worker block db wallet h else none

  mined_blue-hash :
      (db : Option Table) (wallet h : Bytes) (a : MinedBlue)
      → mined_blue to_lower extract_worker block db wallet h ≡ some a
      → a.hash ≡ h
  mined_blue-hash (some rows) wallet h a e = ground arith
  mined_blue-hash none wallet h a e = ground arith

  counted-hash :
      (db : Option Table) (wallet h : Bytes) (a : MinedBlue)
      → counted db wallet h ≡ some a
      → a.hash ≡ h
  counted-hash db wallet h a e = elim (Bool-cases (nat_eq (length h) 64)) [
    | inl full ↦ mined_blue-hash db wallet h a (rw full at e)
    | inr short ↦ absurd (ground arith)
  ]

  abbrev sorted : Option Table → Bytes → List Bytes → List MinedBlue
  sorted db wallet hashes =
      sort_by_hash (collect_blues to_lower extract_worker block db wallet hashes)

  sorted-cons :
      (db : Option Table) (wallet h : Bytes) (hashes : List Bytes)
      → sorted db wallet (h ∷ hashes) ≡ add_blue (counted db wallet h) (sorted db wallet hashes)
  unfolding sort_by_hash collect_blues
  sorted-cons db wallet h hashes =
      go (nat_eq (length h) 64) (mined_blue to_lower extract_worker block db wallet h)
    where
      rest : List MinedBlue
      rest = collect_blues to_lower extract_worker block db wallet hashes

      go :
          (b : Bool) (o : Option MinedBlue)
          → sort_by_hash (if b then elim o [ none ↦ rest | some mb ↦ mb ∷ rest ] else rest)
            ≡ add_blue (if b then o else none) (sort_by_hash rest)
      go true none = refl
      go true (some mb) = refl
      go false o = refl

  counted-swap :
      (db : Option Table) (wallet h g : Bytes) (l : List MinedBlue)
      → add_blue (counted db wallet h) (add_blue (counted db wallet g) l)
        ≡ add_blue (counted db wallet g) (add_blue (counted db wallet h) l)
  counted-swap db wallet h g l = elim (Bool-cases (bytes_eq h g)) [
    | inl same ↦ let eq : h ≡ g = (bytes_eq_iff h g).0 same in rw eq refl
    | inr other ↦ add_blue-swap (counted db wallet h) (counted db wallet g) l (λ a b ea eb hashes.
        absurd (
          ground (
            arith,
            counted-hash db wallet h a ea,
            counted-hash db wallet g b eb,
            bytes_eq_iff h g,
            hashes,
          )))
  ]

  sorted-cons-cons :
      (db : Option Table) (wallet h g : Bytes) (hashes : List Bytes)
      → sorted db wallet (h ∷ g ∷ hashes)
        ≡ add_blue (counted db wallet h) (add_blue (counted db wallet g) (sorted db wallet hashes))
  sorted-cons-cons db wallet h g hashes =
      sorted-cons db wallet h (g ∷ hashes)
      ∙ ap (add_blue (counted db wallet h)) (sorted-cons db wallet g hashes)

  sorted-Permᴰ :
      (db : Option Table) (wallet : Bytes) {hs gs : List Bytes}
      → Permᴰ hs gs
      → sorted db wallet hs ≡ sorted db wallet gs
  sorted-Permᴰ db wallet Permᴰ.nil = refl
  sorted-Permᴰ db wallet (Permᴰ.cons {a = h} {b = g} {l₁ = hs} {l₂ = gs} e p) =
      sorted-cons db wallet h hs
      ∙ rw (e, sorted-Permᴰ db wallet p) (sym (sorted-cons db wallet g gs))
  sorted-Permᴰ db wallet (Permᴰ.swap {a = h} {b = g} {a' = g'} {b' = h'} {l = l} e e') =
      sorted-cons-cons db wallet h g l
      ∙ counted-swap db wallet h g (sorted db wallet l)
      ∙ rw (e, e') (sym (sorted-cons-cons db wallet g' h' l))
  sorted-Permᴰ db wallet (Permᴰ.trans p q) = sorted-Permᴰ db wallet p ∙ sorted-Permᴰ db wallet q

  -- The blocks that count as mined come in one order, whatever order the node lists the merge set
  -- in; so the remainder of a reward goes to the same block every time.
  pub find_mined_blues-Perm :
      (db : Option Table) (wallet : Bytes) (hashes other : List Bytes)
      → Permᴰ hashes other
      → find_mined_blues_from_merge_set to_lower extract_worker block hashes wallet db
        ≡ find_mined_blues_from_merge_set to_lower extract_worker block other wallet db
  unfolding find_mined_blues_from_merge_set
  find_mined_blues-Perm db wallet hashes other p = sorted-Permᴰ db wallet p
