-- ===== src/Server/Rounds.antt =====
-- One move of a lookup of the recovery in `ListenAndServe` of src/htnstratum/stratum_server.go.
use htn_stratum_bridge.Prelude.{
  ℕ, ◌+◌, ◌*◌, ◌≤◌, ◌≡◌, refl, ◌⊎◌, inl, inr, Bool, true, false, Option, none, some, List, [], ◌∷◌,
  length, Bytes, codes, All, Option-cases, arith,
}
use htn_stratum_bridge.Rpc.{Block}
use htn_stratum_bridge.Db.{
  BlockRecord, Table, Scanned, found, no_rows, scan_error, get_block, has_accepting_excluding,
  set_accepting_block_hash,
}
use htn_stratum_bridge.Booking.{View, Verdict, goes_on, settles, panics, or_unchanged, visit}
use htn_stratum_bridge.Booking.Final.{IsBounded, IsDescribed, IsVerdict, visit_returns}
use htn_stratum_bridge.Server.Recovery.{
  Lookup, tries, walks, tested, concludes, ended, crashed, after_visit, advance,
}
use htn_stratum_bridge.Server.Waiting.{
  is_busy, IsAheadOf, Ahead-mono, Ahead-link, Ahead-update_reward,
}

-- How many moves a lookup has left, at most.
abbrev chain_rounds : Option (List Bytes) → ℕ
chain_rounds none = 1
chain_rounds (some chain) = 2 * length chain + 2

unfoldable pub tries_rounds : List View → ℕ
tries_rounds [] = 2
tries_rounds (view ∷ views) = chain_rounds view.added_chain_block_hashes + tries_rounds views

abbrev pub rounds : Lookup → ℕ
rounds (tries views) = tries_rounds views
rounds (walks view wallet chain views) = 2 * length chain + 1 + tries_rounds views
rounds (tested view wallet a booked chain views) = 2 * length chain + 2 + tries_rounds views
rounds (concludes status atoms) = 1
rounds ended = 0
rounds crashed = 0

abbrev pub count : Bool → ℕ
count true = 1
count false = 0

tries_rounds-two : (views : List View) → 2 ≤ tries_rounds views
unfolding tries_rounds
tries_rounds-two [] = omega arith
tries_rounds-two (view ∷ views) = omega (arith, tries_rounds-two views)

-- What is to come for a block beside others: its lookup, if that is under way.
abbrev pub Still : Bytes → Lookup → (Bytes → Type 0) → Bytes → Type 0
Still h l A g = ((g ≡ h) × (is_busy l ≡ true)) ⊎ A g

module _ (to_lower : Bytes → Bytes) where
  abbrev pub IsUsable : View → Type 0
  IsUsable view = IsBounded to_lower view × IsDescribed view

  abbrev pub IsReady : Lookup → Type 0
  IsReady (tries views) = All IsUsable views
  IsReady (walks view wallet chain views) = IsUsable view × All IsUsable views
  IsReady (tested view wallet a booked chain views) = IsUsable view × All IsUsable views
  IsReady (concludes status atoms) = IsVerdict status atoms
  IsReady ended = Unit
  IsReady crashed = ⊥

  -- A move keeps a lookup ready, takes one of its rounds, and leaves no row without a lookup.
  pub record Goes (h : Bytes) (l : Lookup) (rows : Table) (r : Lookup × Table) : Type 1 where
    pub ready : IsReady r.0
    pub shorter : rounds r.0 + count (is_busy l) ≤ rounds l
    pub ahead :
        (A : Bytes → Type 0)
        → All (IsAheadOf (Still h l A)) rows
        → All (IsAheadOf (Still h r.0 A)) r.1

  stays :
      (h : Bytes) (l l' : Lookup) (A : Bytes → Type 0) (rows : Table)
      → is_busy l' ≡ true
      → All (IsAheadOf (Still h l A)) rows
      → All (IsAheadOf (Still h l' A)) rows
  stays h l l' A rows busy = Ahead-mono (Still h l A) (Still h l' A) rows go
    where
      go : (g : Bytes) → Still h l A g → Still h l' A g
      go g (inl (same, _)) = inl (same, busy)
      go g (inr other) = inr other

  visit-IsVerdict :
      (view : View) (wallet h a status : Bytes) (booked : Bool) (rows rows' : Table) (atoms : ℕ)
      → IsBounded to_lower view
      → visit to_lower view wallet h a booked rows ≡ settles status atoms rows'
      → IsVerdict status atoms
        × ((rows' ≡ rows) ⊎ (rows' ≡ or_unchanged rows (set_accepting_block_hash h a rows)))
  unfolding visit
  visit-IsVerdict view wallet h a status booked rows rows' atoms bounded e =
      elim (Option-cases (view.block a)) [
        | inl unknown ↦ absurd (ground arith)
        | inr (b, known) ↦ let small = bounded a wallet b known in (ground arith, ground arith)
      ]

  pub advance-Goes :
      (h : Bytes) (l : Lookup) (rows : Table)
      → IsReady l
      → Goes h l rows (advance to_lower h l rows)
  unfolding advance tries_rounds
  advance-Goes h (tries []) rows ready = record {
    ready = (inr (inr refl), omega arith);
    shorter = omega arith;
    ahead = λ A. stays h (tries []) (concludes (codes "red") 0) A rows refl;
  }
  advance-Goes h (tries (view ∷ views)) rows ready =
      go (view.block h) view.added_chain_block_hashes (get_block h rows)
    where
      first : Option (List Bytes) → Lookup
      first chain = tries (record view { added_chain_block_hashes = chain } ∷ views)

      again : (chain : Option (List Bytes)) → Goes h (first chain) rows (tries views, rows)
      again none = record {
        ready = ready.1;
        shorter = omega arith;
        ahead = λ A. stays h (first none) (tries views) A rows refl;
      }
      again (some chain) = record {
        ready = ready.1;
        shorter = omega arith;
        ahead = λ A. stays h (first (some chain)) (tries views) A rows refl;
      }

      go :
          (block : Option Block) (hashes : Option (List Bytes)) (row : Scanned BlockRecord)
          → Goes h (first hashes) rows (elim block [
            | none ↦ (tries views, rows)
            | some b ↦ elim hashes [
              | none ↦ (tries views, rows)
              | some chain ↦ elim row [
                | found r ↦ (walks view r.wallet_address chain views, rows)
                | no_rows ↦ (tries views, rows)
                | scan_error ↦ (tries views, rows)
              ]
            ]
          ])
      go none hashes row = again hashes
      go (some b) none row = again none
      go (some b) (some chain) no_rows = again (some chain)
      go (some b) (some chain) scan_error = again (some chain)
      go (some b) (some chain) (found r) = record {
        ready = ready;
        shorter = omega arith;
        ahead =
            λ A. stays h (first (some chain)) (walks view r.wallet_address chain views) A rows refl;
      }
  advance-Goes h (walks view wallet [] views) rows ready = record {
    ready = ready.1;
    shorter = omega arith;
    ahead = λ A. stays h (walks view wallet [] views) (tries views) A rows refl;
  }
  advance-Goes h (walks view wallet (a ∷ chain) views) rows ready = record {
    ready = ready;
    shorter = omega arith;
    ahead = λ A.
        stays h (walks view wallet (a ∷ chain) views)
          (tested view wallet a (has_accepting_excluding wallet a h rows) chain views) A rows refl;
  }
  advance-Goes h (tested view wallet a booked chain views) rows ready =
      go (visit to_lower view wallet h a booked rows) refl
    where
      l : Lookup
      l = tested view wallet a booked chain views

      go :
          (v : Verdict)
          → visit to_lower view wallet h a booked rows ≡ v
          → Goes h l rows (after_visit to_lower view wallet chain views rows v)
      go goes_on e = record {
        ready = ready;
        shorter = omega arith;
        ahead = λ A. stays h l (walks view wallet chain views) A rows refl;
      }
      go panics e = absurd (visit_returns to_lower view wallet h a booked rows (ready.0.1) e)
      go (settles status atoms rows') e =
          let (verdict, written) =
            visit-IsVerdict view wallet h a status booked rows rows' atoms (ready.0.0) e in
          record {
            ready = verdict;
            shorter = omega (arith, tries_rounds-two views);
            ahead = λ A all. elim written [
              | inl same ↦ rw same (stays h l (concludes status atoms) A rows refl all)
              | inr set ↦ rw set (
                  stays h l (concludes status atoms) A
                    (or_unchanged rows (set_accepting_block_hash h a rows)) refl
                    (Ahead-link (Still h l A) h a rows all))
            ];
          }
  advance-Goes h (concludes status atoms) rows ready = record {
    ready = tt;
    shorter = omega arith;
    ahead = λ A. Ahead-update_reward A h status atoms rows ready;
  }
  advance-Goes h ended rows ready = record {
    ready = tt;
    shorter = omega arith;
    ahead = λ A all. all;
  }
  advance-Goes h crashed rows ready = elim ready [ ]
