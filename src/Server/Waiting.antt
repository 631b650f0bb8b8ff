-- ===== src/Server/Waiting.antt =====
-- Which rows of the table wait for a lookup of the recovery in `ListenAndServe` of
-- src/htnstratum/stratum_server.go.
use htn_stratum_bridge.Prelude.{
  ℕ, ◌≡◌, refl, ◌⊎◌, inl, inr, Bool, true, false, ◌&&◌, not, Option, none, some, List, [], ◌∷◌,
  Bytes, codes, All, if◌then◌else◌, bytes_eq, bytes_eq_iff, arith,
}
use htn_stratum_bridge.Db.{
  BlockRecord, Table, set_accepting_block_hash, find_row, any_row, clashes, update_rows,
  update_reward,
}
use htn_stratum_bridge.Db.Keyed.{update_rows-All}
use htn_stratum_bridge.Db.Linked.{link}
use htn_stratum_bridge.Booking.{or_unchanged}
use htn_stratum_bridge.Booking.Once.{pay}
use htn_stratum_bridge.Booking.Final.{IsFinal, IsVerdict, update_reward-fits}
use htn_stratum_bridge.Server.Recovery.{Lookup, ended}

abbrev pub is_busy : Lookup → Bool
is_busy ended = false
is_busy _ = true

-- The lookup of a block is under way.
abbrev pub Among : Bytes → List (Bytes × Lookup) → Type 0
Among h [] = ⊥
Among h ((g, l) ∷ lookups) = ((h ≡ g) × (is_busy l ≡ true)) ⊎ Among h lookups

-- A row is not pending, or something is still to come for its block.
abbrev pub IsAheadOf : (Bytes → Type 0) → BlockRecord → Type 0
IsAheadOf A r = (bytes_eq r.status (codes "pending") ≡ false) ⊎ A r.block_hash

-- A row is not pending, or the lookup of its block is under way.
abbrev pub IsAhead : List (Bytes × Lookup) → BlockRecord → Type 0
IsAhead lookups = IsAheadOf (λ h. Among h lookups)

pub Ahead-mono :
    (A B : Bytes → Type 0) (rows : Table)
    → ((h : Bytes) → A h → B h)
    → All (IsAheadOf A) rows
    → All (IsAheadOf B) rows
Ahead-mono A B [] f all = tt
Ahead-mono A B (r ∷ rows) f (inl settled, all) = (inl settled, Ahead-mono A B rows f all)
Ahead-mono A B (r ∷ rows) f (inr ahead, all) =
    (inr (f r.block_hash ahead), Ahead-mono A B rows f all)

pub Ahead-link :
    (A : Bytes → Type 0) (h a : Bytes) (rows : Table)
    → All (IsAheadOf A) rows
    → All (IsAheadOf A) (or_unchanged rows (set_accepting_block_hash h a rows))
unfolding set_accepting_block_hash
Ahead-link A h a rows all = go (find_row h rows)
  where
    linked : All (IsAheadOf A) (update_rows h (link a) rows)
    linked =
        update_rows-All h (link a) (IsAheadOf A) (IsAheadOf A) rows (λ q p here. p) (λ q p other. p)
          all

    set :
        (taken : Bool)
        → All
            (IsAheadOf A)
            (or_unchanged rows (if taken then none else some (update_rows h (link a) rows)))
    set true = all
    set false = linked

    go :
        (row : Option BlockRecord)
        → All (IsAheadOf A) (
            or_unchanged rows (elim row [
              | none ↦ some rows
              | some r ↦
                  if any_row
                    (λ q. not (bytes_eq q.block_hash h) && clashes r.wallet_address (some a) q)
                    rows
                  then none
                  else some (update_rows h (link a) rows)
            ]))
    go none = all
    go (some r) = set _

IsFinal-pending : (status : Bytes) → IsFinal status → bytes_eq status (codes "pending") ≡ false
unfolding bytes_eq
IsFinal-pending status (inl blue) = rw blue refl
IsFinal-pending status (inr (inl merged)) = rw merged refl
IsFinal-pending status (inr (inr red)) = rw red refl

-- The last update of a lookup settles the rows that wait for it.
pub Ahead-update_reward :
    (A : Bytes → Type 0) (h status : Bytes) (atoms : ℕ) (rows : Table)
    → IsVerdict status atoms
    → All (IsAheadOf (λ g. ((g ≡ h) × (true ≡ true)) ⊎ A g)) rows
    → All
        (IsAheadOf (λ g. ((g ≡ h) × (false ≡ true)) ⊎ A g))
        (or_unchanged rows (update_reward h atoms status rows))
Ahead-update_reward A h status atoms rows (final, small) all =
    rw (update_reward-fits h status atoms rows small) (
      update_rows-All h (pay status atoms) (IsAheadOf (λ g. ((g ≡ h) × (true ≡ true)) ⊎ A g))
        (IsAheadOf (λ g. ((g ≡ h) × (false ≡ true)) ⊎ A g)) rows
        (λ q p here. inl (IsFinal-pending status final)) later all)
  where
    later :
        (q : BlockRecord)
        → IsAheadOf (λ g. ((g ≡ h) × (true ≡ true)) ⊎ A g) q
        → bytes_eq q.block_hash h ≡ false
        → IsAheadOf (λ g. ((g ≡ h) × (false ≡ true)) ⊎ A g) q
    later q (inl settled) other = inl settled
    later q (inr (inl (same, _))) other = absurd (ground (arith, bytes_eq_iff q.block_hash h))
    later q (inr (inr ahead)) other = inr (inr ahead)
