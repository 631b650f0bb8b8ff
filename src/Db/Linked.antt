-- ===== src/Db/Linked.antt =====
-- `SetAcceptingBlockHash` of src/htnstratum/db.go, and the unique constraints of the table.
use htn_stratum_bridge.Prelude.{
  ◌≡◌, refl, ap, ◌∙◌, inl, inr, true, false, ◌&&◌, not, none, some, [], ◌∷◌, Bytes, All, bytes_eq,
  bytes_eq_iff, Bool-cases, Option-cases, arith,
}
use htn_stratum_bridge.Db.{
  BlockRecord, Table, clashes, any_row, update_rows, find_row, set_accepting_block_hash,
  has_accepting_excluding,
}
use htn_stratum_bridge.Db.Keyed.{
  Beside, IsKeyed, bytes_eq_comm, Beside-comm, any_row-none, All-zip, update_rows-All,
}

update_rows_missing :
    (h : Bytes) (f : BlockRecord → BlockRecord) (rows : Table)
    → All (λ q. bytes_eq q.block_hash h ≡ false) rows
    → update_rows h f rows ≡ rows
unfolding update_rows
update_rows_missing h f [] all = refl
update_rows_missing h f (r ∷ rows) all =
    rw (all.0) (ap (◌∷◌ r) (update_rows_missing h f rows all.1))

-- Rows with a hash are of one wallet, that of the row found by it.
found_wallet :
    (h : Bytes) (rows : Table) (r : BlockRecord)
    → IsKeyed rows
    → find_row h rows ≡ some r
    → All (λ q. bytes_eq q.block_hash h ≡ true → q.wallet_address ≡ r.wallet_address) rows
unfolding find_row
found_wallet h [] r k e = tt
found_wallet h (q ∷ rows) r k e = elim (Bool-cases (bytes_eq q.block_hash h)) [
  | inl here ↦
      let same : q ≡ r = ground arith in
      (
        λ _. ap (λ x. x.wallet_address) same,
        All-zip (Beside q) (Beside q)
            (λ p. bytes_eq p.block_hash h ≡ true → p.wallet_address ≡ r.wallet_address) rows
            (λ p b _ there. absurd (
              ground (
                arith,
                b.hashes,
                bytes_eq_iff p.block_hash h,
                bytes_eq_iff q.block_hash h,
                bytes_eq_iff p.block_hash q.block_hash,
              )))
            k.0 k.0,
      )
  | inr other ↦ (λ there. absurd (ground arith), found_wallet h rows r k.1 (ground arith))
]

-- `find_row` finds a row, if any has the hash.
find_row-none :
    (h : Bytes) (rows : Table)
    → find_row h rows ≡ none
    → All (λ q. bytes_eq q.block_hash h ≡ false) rows
unfolding find_row
find_row-none h [] e = tt
find_row-none h (q ∷ rows) e = (ground arith, find_row-none h rows (ground arith))

abbrev pub link : Bytes → BlockRecord → BlockRecord
link accepting q = record q { accepting_block_hash = some accepting }

-- What the index tests before a link is written: of each row, with the wallet of the linked one.
abbrev IsFree : Bytes → Bytes → Bytes → BlockRecord → Type 0
IsFree h wallet accepting q =
    (bytes_eq q.block_hash h ≡ false → clashes wallet (some accepting) q ≡ false)
    × (bytes_eq q.block_hash h ≡ true → q.wallet_address ≡ wallet)

link-Beside :
    (h wallet accepting : Bytes) (r q : BlockRecord)
    → bytes_eq r.block_hash h ≡ false
    → IsFree h wallet accepting r
    → IsFree h wallet accepting q
    → Beside r q
    → bytes_eq q.block_hash h ≡ true
    → Beside r (link accepting q)
link-Beside h wallet accepting r q other free free' b here =
    let same : q.wallet_address ≡ wallet = free'.1 here in
    Beside-comm (link accepting q) r (record {
      hashes = bytes_eq_comm r.block_hash q.block_hash ∙ b.hashes;
      bookings = rw same (free.0 other);
    })

link-IsKeyed :
    (h wallet accepting : Bytes) (rows : Table)
    → IsKeyed rows
    → All (IsFree h wallet accepting) rows
    → IsKeyed (update_rows h (link accepting) rows)
unfolding update_rows
link-IsKeyed h wallet accepting [] k free = tt
link-IsKeyed h wallet accepting (r ∷ rows) k free = elim (Bool-cases (bytes_eq r.block_hash h)) [
  | inl here ↦
      let others : All (λ q. bytes_eq q.block_hash h ≡ false) rows =
        All-zip (Beside r) (Beside r) (λ q. bytes_eq q.block_hash h ≡ false) rows
          (λ q b _. ground (
            arith,
            b.hashes,
            bytes_eq_iff r.block_hash h,
            bytes_eq_iff q.block_hash h,
            bytes_eq_iff q.block_hash r.block_hash,
          ))
          k.0 k.0 in
      let wallet_of : r.wallet_address ≡ wallet = free.0.1 here in
      rw (here, update_rows_missing h (link accepting) rows others)
        (
          All-zip (λ q. Beside r q × (bytes_eq q.block_hash h ≡ false)) (IsFree h wallet accepting)
              (Beside (link accepting r)) rows
              (λ q b f. record { hashes = b.0.hashes; bookings = rw wallet_of (f.0 b.1) })
              (All-zip (Beside r) (λ q. bytes_eq q.block_hash h ≡ false)
                (λ q. Beside r q × (bytes_eq q.block_hash h ≡ false)) rows (λ q b o. (b, o)) k.0
                others)
              free.1,
          k.1,
        )
  | inr other ↦ rw other (
    update_rows-All h (link accepting) (λ q. Beside r q × IsFree h wallet accepting q) (Beside r)
        rows (λ q b here. link-Beside h wallet accepting r q other free.0 b.1 b.0 here)
        (λ q b _. b.0)
        (All-zip (Beside r) (IsFree h wallet accepting)
          (λ q. Beside r q × IsFree h wallet accepting q) rows (λ q b f. (b, f)) k.0 free.1),
    link-IsKeyed h wallet accepting rows k.1 free.1,
  )
]

clash_covered :
    (h wallet accepting : Bytes) (rows : Table)
    → has_accepting_excluding wallet accepting h rows ≡ false
    → any_row (λ q. not (bytes_eq q.block_hash h) && clashes wallet (some accepting) q) rows ≡ false
unfolding has_accepting_excluding any_row
clash_covered h wallet accepting [] e = refl
clash_covered h wallet accepting (q ∷ rows) e =
    ground (arith, clash_covered h wallet accepting rows)

-- `SetAcceptingBlockHash` keeps the constraints.
pub set_accepting_block_hash-IsKeyed :
    (h accepting : Bytes) (rows rows' : Table)
    → set_accepting_block_hash h accepting rows ≡ some rows'
    → IsKeyed rows
    → IsKeyed rows'
unfolding set_accepting_block_hash
set_accepting_block_hash-IsKeyed h accepting rows rows' e k =
    elim (Option-cases (find_row h rows)) [
      | inl missing ↦ let same : rows ≡ rows' = ground arith in rw (← same) k
      | inr (r, there) ↦
          let taken = λ (q : BlockRecord).
            not (bytes_eq q.block_hash h) && clashes r.wallet_address (some accepting) q in
          let free : any_row taken rows ≡ false = ground arith in
          let same : update_rows h (link accepting) rows ≡ rows' = ground arith in
          rw (← same) (
            link-IsKeyed h r.wallet_address accepting rows k (
              All-zip (λ q. taken q ≡ false)
                (λ q. bytes_eq q.block_hash h ≡ true → q.wallet_address ≡ r.wallet_address)
                (IsFree h r.wallet_address accepting) rows (λ q f w. ((λ other. ground arith), w))
                (any_row-none taken rows free) (found_wallet h rows r k there)))
    ]

-- If the test of `HasAcceptingBlockForWalletExcluding` finds nothing, then the link can be set.
pub set_accepting_unbooked :
    (h accepting : Bytes) (rows : Table) (r : BlockRecord)
    → find_row h rows ≡ some r
    → has_accepting_excluding r.wallet_address accepting h rows ≡ false
    → set_accepting_block_hash h accepting rows ≡ some (update_rows h (link accepting) rows)
unfolding set_accepting_block_hash has_accepting_excluding
set_accepting_unbooked h accepting rows r there unbooked =
    let free = clash_covered h r.wallet_address accepting rows unbooked in ground arith
