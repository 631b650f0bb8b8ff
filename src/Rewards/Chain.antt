-- ===== src/Rewards/Chain.antt =====
-- src/htnstratum/miner_rewards.go: the chain blocks that the rewards page looks at. `block` is the
-- node's answer to GetBlock, `none` for an error or nil. The page asks for 1 to 2000 blocks.
use htn_stratum_bridge.Prelude.{
  ℕ, zero, suc, ◌≤◌, ◌≡◌, refl, Bool, true, false, Option, none, some, List, [], ◌∷◌, reverse,
  length, take, Bytes, bytes_eq, nat_eq, if◌then◌else◌, Option-cases, inl, inr, arith,
}
use htn_stratum_bridge.Rpc.{VerboseData, Block}

-- A block, where the node knows it with its verbose data.
abbrev pub with_verbose : Option Block → Option (Block × VerboseData)
with_verbose none = none
with_verbose (some b) = elim b.verbose_data [ none ↦ none | some v ↦ some (b, v) ]

module _ (block : Bytes → Option Block) where
  -- The loop along the selected parents from `cur`, for at most as many blocks as are left of the
  -- limit; it stops at a block with the hash `start`, if one is given.
  unfoldable pub walk_parents : ℕ → Option Bytes → Bytes → List Block
  walk_parents zero start cur = []
  walk_parents (suc left) start cur = elim (with_verbose (block cur)) [
    | none ↦ []
    | some (b, v) ↦
        let rest = walk_parents left start v.selected_parent_hash in
        if elim start [ none ↦ false | some s ↦ bytes_eq v.hash s ]
        then []
        else if nat_eq (length v.selected_parent_hash) 64
        then b ∷ rest
        else b ∷ []
  ]

  -- The first tip; `none` is an error.
  abbrev pub from_tip : Option (List Bytes) → (Bytes → List Block) → Option (List Block)
  from_tip none walk = none
  from_tip (some []) walk = none
  from_tip (some (tip ∷ tips)) walk = some (walk tip)

  -- `fetchRecentChainBlocks`
  unfoldable pub fetch_recent_chain_blocks : Option (List Bytes) → ℕ → Option (List Block)
  unfolding walk_parents
  fetch_recent_chain_blocks tips limit = from_tip tips (walk_parents limit none)

  unfoldable pub known_blocks : List Bytes → List Block
  known_blocks [] = []
  known_blocks (h ∷ hs) =
      let rest = known_blocks hs in
      elim (with_verbose (block h)) [ none ↦ rest | some (b, v) ↦ b ∷ rest ]

  -- `hashes[len(hashes)-capLimit:]`, where there are more; newest first.
  abbrev pub newest : ℕ → List Bytes → List Bytes
  newest cap hashes = take cap (reverse hashes)

  -- `fetchAddedChainBlocksFrom`, where `added` is the chain that the node reports from the start,
  -- `none` for an error or nil.
  unfoldable pub fetch_added_chain_blocks_from :
      Bytes → Option (List Bytes) → Option (List Bytes) → ℕ → Option (List Block)
  unfolding walk_parents known_blocks
  fetch_added_chain_blocks_from start none tips cap = from_tip tips (walk_parents cap (some start))
  fetch_added_chain_blocks_from start (some []) tips cap =
      from_tip tips (walk_parents cap (some start))
  fetch_added_chain_blocks_from start (some (h ∷ hs)) tips cap =
      some (known_blocks (newest cap (h ∷ hs)))

  -- Blocks each of which is the selected parent of the one before, the first with the hash `cur`.
  abbrev pub IsWalk : Bytes → List Block → Type 0
  IsWalk cur [] = Unit
  IsWalk cur (b ∷ bs) =
      (v : VerboseData) × (block cur ≡ some b)
      × (b.verbose_data ≡ some v)
      × IsWalk v.selected_parent_hash bs

  with_verbose-some :
      (o : Option Block) (b : Block) (v : VerboseData)
      → with_verbose o ≡ some (b, v)
      → (o ≡ some b) × (b.verbose_data ≡ some v)
  with_verbose-some none b v e = absurd (ground arith)
  with_verbose-some (some c) b v e = ground arith

  walk_parents-IsWalk :
      (left : ℕ) (start : Option Bytes) (cur : Bytes)
      → IsWalk cur (walk_parents left start cur) × (length (walk_parents left start cur) ≤ left)
  unfolding walk_parents
  walk_parents-IsWalk zero start cur = (tt, omega arith)
  walk_parents-IsWalk (suc left) start cur = elim (Option-cases (with_verbose (block cur))) [
    | inl unknown ↦ rw (unknown, walk_parents) (tt, omega arith)
    | inr ((b, v), e) ↦
        rw (e, walk_parents)
          (go b v (with_verbose-some (block cur) b v e)
            (walk_parents-IsWalk left start v.selected_parent_hash)
            (elim start [ none ↦ false | some s ↦ bytes_eq v.hash s ])
            (nat_eq (length v.selected_parent_hash) 64))
  ]
    where
      go :
          (b : Block) (v : VerboseData)
          → (block cur ≡ some b) × (b.verbose_data ≡ some v)
          → let rest = walk_parents left start v.selected_parent_hash in
            IsWalk v.selected_parent_hash rest × (length rest ≤ left)
            → (stop more : Bool)
            → let bs = if stop then [] else if more then b ∷ rest else b ∷ [] in
              IsWalk cur bs × (length bs ≤ suc left)
      go b v known (ih, few) true more = (tt, omega arith)
      go b v known (ih, few) false true = ((v, known.0, known.1, ih), omega arith)
      go b v known (ih, few) false false = ((v, known.0, known.1, tt), omega arith)

  -- What `fetchRecentChainBlocks` gives are blocks that the node knows, from the first tip on along
  -- the selected parents without a gap, and at most `limit` of them.
  pub fetch_recent_chain_blocks_lem :
      (tip : Bytes) (tips : List Bytes) (limit : ℕ)
      → (bs : List Block) × (fetch_recent_chain_blocks (some (tip ∷ tips)) limit ≡ some bs)
        × IsWalk tip bs
        × (length bs ≤ limit)
  unfolding fetch_recent_chain_blocks
  fetch_recent_chain_blocks_lem tip tips limit =
      let (walks, few) = walk_parents-IsWalk limit none tip in
      (walk_parents limit none tip, refl, walks, few)
