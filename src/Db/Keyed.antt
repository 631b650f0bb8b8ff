-- ===== src/Db/Keyed.antt =====
-- The unique constraints of the table of src/htnstratum/db.go: on block hashes, and on pairs of a
-- wallet and an accepting block. What the statements write keeps them.
use htn_stratum_bridge.Prelude.{
  ℕ, ◌≡◌, refl, ◌∙◌, ◌+◌, inl, inr, Bool, true, false, ◌||◌, Option, none, some, [], ◌∷◌, ◌++◌,
  Bytes, All, All-append, length, bytes_eq, bytes_eq_iff, if◌then◌else◌, Bool-cases, arith,
}
use htn_stratum_bridge.Db.{
  BlockRecord, Table, clashes, any_row, record_block, update_rows, update_reward,
}

-- A row `q` that can stand beside a row `r`.
pub record Beside (r q : BlockRecord) : Type 0 where
  pub hashes : bytes_eq q.block_hash r.block_hash ≡ false
  pub bookings : clashes r.wallet_address r.accepting_block_hash q ≡ false

abbrev pub IsKeyed : Table → Type 0
IsKeyed [] = Unit
IsKeyed (r ∷ rows) = All (Beside r) rows × IsKeyed rows

pub bytes_eq_comm : (a b : Bytes) → bytes_eq a b ≡ bytes_eq b a
bytes_eq_comm a b = ground (arith, bytes_eq_iff a b, bytes_eq_iff b a)

pub Beside-comm : (r q : BlockRecord) → Beside r q → Beside q r
Beside-comm r q h = record {
  hashes = bytes_eq_comm r.block_hash q.block_hash ∙ h.hashes;
  bookings = go r.accepting_block_hash q.accepting_block_hash h.bookings;
}
  where
    go :
        (a b : Option Bytes)
        → clashes r.wallet_address a (record q { accepting_block_hash = b }) ≡ false
        → clashes q.wallet_address b (record r { accepting_block_hash = a }) ≡ false
    go a none e = refl
    go none (some b) e = ground arith
    go (some a) (some b) e =
        ground (
          arith,
          bytes_eq_comm r.wallet_address q.wallet_address,
          bytes_eq_iff a b,
          bytes_eq_iff b a,
        )

pub any_row-none :
    (p : BlockRecord → Bool) (rows : Table) → any_row p rows ≡ false → All (λ q. p q ≡ false) rows
unfolding any_row
any_row-none p [] e = tt
any_row-none p (r ∷ rows) e = (ground arith, any_row-none p rows (ground arith))

pub All-zip :
    (P Q R : BlockRecord → Type 0) (rows : Table)
    → ((q : BlockRecord) → P q → Q q → R q)
    → All P rows
    → All Q rows
    → All R rows
All-zip P Q R [] f hp hq = tt
All-zip P Q R (r ∷ rows) f hp hq = (f r hp.0 hq.0, All-zip P Q R rows f hp.1 hq.1)

IsKeyed-append :
    (rows : Table) (r : BlockRecord)
    → IsKeyed rows
    → All (Beside r) rows
    → IsKeyed (rows ++ (r ∷ []))
IsKeyed-append [] r k h = (tt, tt)
IsKeyed-append (q ∷ rows) r k h = (
  All-append (Beside q) rows (r ∷ []) k.0 (Beside-comm r q h.0, tt),
  IsKeyed-append rows r k.1 h.1,
)

-- `RecordBlock` keeps the constraints.
pub record_block-IsKeyed :
    (r : BlockRecord) (rows : Table) → IsKeyed rows → IsKeyed (record_block r rows)
unfolding record_block
record_block-IsKeyed r rows k =
    let taken = any_row (λ q. bytes_eq q.block_hash r.block_hash) rows in
    let booked = any_row (clashes r.wallet_address r.accepting_block_hash) rows in
    elim (Bool-cases (taken || booked)) [
      | inl ignored ↦ rw ignored k
      | inr free ↦ rw free (
          IsKeyed-append rows (record r { id = length rows + 1 }) k
            (All-zip (λ q. bytes_eq q.block_hash r.block_hash ≡ false)
              (λ q. clashes r.wallet_address r.accepting_block_hash q ≡ false)
              (Beside (record r { id = length rows + 1 })) rows
              (λ q a b. record { hashes = a; bookings = b })
              (any_row-none (λ q. bytes_eq q.block_hash r.block_hash) rows (ground arith))
              (any_row-none (clashes r.wallet_address r.accepting_block_hash) rows (ground arith))))
    ]

-- Rows that an update reaches, and those that it does not.
pub update_rows-All :
    (h : Bytes) (f : BlockRecord → BlockRecord) (P Q : BlockRecord → Type 0) (rows : Table)
    → ((q : BlockRecord) → P q → bytes_eq q.block_hash h ≡ true → Q (f q))
    → ((q : BlockRecord) → P q → bytes_eq q.block_hash h ≡ false → Q q)
    → All P rows
    → All Q (update_rows h f rows)
unfolding update_rows
update_rows-All h f P Q [] hit miss all = tt
update_rows-All h f P Q (r ∷ rows) hit miss all = (
  go (bytes_eq r.block_hash h) (hit r all.0) (miss r all.0),
  update_rows-All h f P Q rows hit miss all.1,
)
  where
    go : (b : Bool) → (b ≡ true → Q (f r)) → (b ≡ false → Q r) → Q (if b then f r else r)
    go true x y = x refl
    go false x y = y refl

-- An update that leaves hash, wallet and booking alone keeps the constraints.
update_rows-IsKeyed :
    (h : Bytes) (f : BlockRecord → BlockRecord) (rows : Table)
    → ((q r : BlockRecord) → Beside r q → Beside r (f q))
    → ((q r : BlockRecord) → Beside r q → Beside (f r) q)
    → IsKeyed rows
    → IsKeyed (update_rows h f rows)
unfolding update_rows
update_rows-IsKeyed h f [] after before k = tt
update_rows-IsKeyed h f (r ∷ rows) after before k = (
  update_rows-All h f (Beside r) (Beside (if bytes_eq r.block_hash h then f r else r)) rows
      (λ q b e. go (bytes_eq r.block_hash h) (f q) (after q r b))
      (λ q b e. go (bytes_eq r.block_hash h) q b) k.0,
  update_rows-IsKeyed h f rows after before k.1,
)
  where
    go : (b : Bool) (q : BlockRecord) → Beside r q → Beside (if b then f r else r) q
    go true q h = before q r h
    go false q h = h

clashes_reward :
    (wallet status : Bytes) (o : Option Bytes) (atoms : ℕ) (q : BlockRecord)
    → clashes wallet o (record q { reward_atoms = atoms; status = status }) ≡ clashes wallet o q
clashes_reward wallet status none atoms q = refl
clashes_reward wallet status (some a) atoms q = refl

-- `UpdateReward` keeps the constraints.
pub update_reward-IsKeyed :
    (h status : Bytes) (atoms : ℕ) (rows rows' : Table)
    → update_reward h atoms status rows ≡ some rows'
    → IsKeyed rows
    → IsKeyed rows'
unfolding update_reward
update_reward-IsKeyed h status atoms rows rows' e k =
    let paid : BlockRecord → BlockRecord =
      λ r. record r { reward_atoms = atoms; status = status } in
    let same : update_rows h paid rows ≡ rows' = ground arith in
    rw (← same) (
      update_rows-IsKeyed h paid rows
        (λ q r b. record {
          hashes = b.hashes;
          bookings =
              clashes_reward r.wallet_address status r.accepting_block_hash atoms q ∙ b.bookings;
        })
        (λ q r b. record { hashes = b.hashes; bookings = b.bookings }) k)
