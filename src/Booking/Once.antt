-- ===== src/Booking/Once.antt =====
-- A payment is booked once, when the lookups of `fetchAndUpdateReward` in
-- src/htnstratum/share_handler.go do not overlap.
use htn_stratum_bridge.Prelude.{
  ℕ, ◌≡◌, ◌≢◌, refl, ◌∙◌, ◌⊎◌, inl, inr, Bool, true, false, some, List, [], ◌∷◌, ◌++◌, Bytes, All,
  All-append, take, is_empty, bytes_eq, bytes_eq_iff, nat_eq, if◌then◌else◌, Bool-cases,
  Option-cases, arith, ◌+◌, length, ◌||◌, zero, suc, ℕ,
}
use htn_stratum_bridge.Db.{
  BlockRecord, Table, update_rows, update_reward, record_block, clashes, any_row,
}
use htn_stratum_bridge.Db.Keyed.{
  Beside, IsKeyed, All-zip, update_rows-All, update_reward-IsKeyed, record_block-IsKeyed,
}
use htn_stratum_bridge.Db.Linked.{link, set_accepting_block_hash-IsKeyed}
use htn_stratum_bridge.Booking.{
  View, Verdict, goes_on, settles, panics, or_unchanged, attempts, conclude,
  fetch_and_update_reward,
}
use htn_stratum_bridge.Booking.Single.{IsNamed, IsLinked, IsSettled, Writes, attempts-Writes}

abbrev IsNaming : Bytes → BlockRecord → Type 0
IsNaming h q =
    IsLinked q
    × (bytes_eq q.block_hash h ≡ true
        → (a : Bytes) × (q.accepting_block_hash ≡ some a) × (is_empty a ≡ false))

abbrev pub pay : Bytes → ℕ → BlockRecord → BlockRecord
pay status atoms r = record r { reward_atoms = atoms; status = status }

pub update_reward-some :
    (h status : Bytes) (atoms : ℕ) (rows rows' : Table)
    → update_reward h atoms status rows ≡ some rows'
    → update_rows h (pay status atoms) rows ≡ rows'
unfolding update_reward
update_reward-some h status atoms rows rows' e = ground arith

-- The last update leaves a nonzero reward only where there is a link.
update_reward-IsSettled :
    (h status : Bytes) (atoms : ℕ) (rows : Table)
    → (atoms ≢ 0 → All (IsNaming h) rows)
    → IsSettled rows
    → IsSettled (or_unchanged rows (update_reward h atoms status rows))
update_reward-IsSettled h status atoms rows naming s =
    elim (Option-cases (update_reward h atoms status rows)) [
      | inl failed ↦ rw failed s
      | inr (rows', done) ↦ rw done (record {
        keyed = update_reward-IsKeyed h status atoms rows rows' done s.keyed;
        linked = written rows' done (Bool-cases (nat_eq atoms 0));
      })
    ]
  where
    written :
        (rows' : Table)
        → update_reward h atoms status rows ≡ some rows'
        → (nat_eq atoms 0 ≡ true) ⊎ (nat_eq atoms 0 ≡ false)
        → All IsLinked rows'
    written rows' e (inl nothing) = rw (← update_reward-some h status atoms rows rows' e) (
        update_rows-All h (pay status atoms) IsLinked IsLinked rows
          (λ q l here some_reward. absurd (some_reward (ground arith))) (λ q l other. l) s.linked)
    written rows' e (inr something) = rw (← update_reward-some h status atoms rows rows' e) (
        update_rows-All h (pay status atoms) (IsNaming h) IsLinked rows (λ q n here _. n.1 here)
          (λ q n other. n.0) (naming (ground arith)))

link-IsNaming :
    (h a : Bytes) (rows : Table)
    → is_empty a ≡ false
    → All IsLinked rows
    → All (IsNaming h) (update_rows h (link a) rows)
link-IsNaming h a rows named linked =
    update_rows-All h (link a) IsLinked (IsNaming h) rows
      (λ q l here. ((λ _. (a, refl, named)), (λ _. (a, refl, named))))
      (λ q l other. (l, λ here. absurd (ground arith))) linked

naming-linked : (h : Bytes) (rows : Table) → All (IsNaming h) rows → All IsLinked rows
naming-linked h rows all = All-zip (IsNaming h) (IsNaming h) IsLinked rows (λ q n _. n.0) all all

Writes-IsSettled :
    (h status : Bytes) (atoms : ℕ) (rows rows' : Table)
    → Writes h atoms rows rows'
    → IsSettled rows
    → IsSettled (or_unchanged rows' (update_reward h atoms status rows'))
Writes-IsSettled h status atoms rows rows' (inl (nothing, same)) s =
    rw same
      (update_reward-IsSettled h status atoms rows (λ something. absurd (something nothing)) s)
Writes-IsSettled h status atoms rows rows' (inr (a, named, same, set)) s =
    let naming : All (IsNaming h) rows' = rw same (link-IsNaming h a rows named s.linked) in
    update_reward-IsSettled h status atoms rows' (λ _. naming)
      (record {
        keyed = set_accepting_block_hash-IsKeyed h a rows rows' set s.keyed;
        linked = naming-linked h rows' naming;
      })

pub All-take : (P : View → Type 0) (n : ℕ) (views : List View) → All P views → All P (take n views)
All-take P zero views all = tt
All-take P (suc n) [] all = tt
All-take P (suc n) (v ∷ views) all = (all.0, All-take P n views all.1)

module _ (to_lower : Bytes → Bytes) where
  conclude-IsSettled :
      (h : Bytes) (v : Verdict) (rows rows' : Table)
      → ((status : Bytes) (atoms : ℕ) (rows'' : Table)
          → v ≡ settles status atoms rows''
          → Writes h atoms rows rows'')
      → IsSettled rows
      → conclude to_lower h v ≡ some rows'
      → IsSettled rows'
  unfolding conclude
  conclude-IsSettled h goes_on rows rows' w s e = absurd (ground arith)
  conclude-IsSettled h panics rows rows' w s e = absurd (ground arith)
  conclude-IsSettled h (settles status atoms rows'') rows rows' w s e =
      let same : or_unchanged rows'' (update_reward h atoms status rows'') ≡ rows' = ground arith in
      rw (← same) (Writes-IsSettled h status atoms rows rows'' (w status atoms rows'' refl) s)

  pub fetch-IsSettled :
      (h : Bytes) (views : List View) (rows rows' : Table)
      → All IsNamed views
      → IsSettled rows
      → fetch_and_update_reward to_lower h views rows ≡ some rows'
      → IsSettled rows'
  unfolding fetch_and_update_reward
  fetch-IsSettled h views rows rows' named s e =
      conclude-IsSettled h (attempts to_lower h (take 15 views) rows) rows rows'
        (λ status atoms rows''.
          attempts-Writes to_lower (take 15 views) h status rows rows'' atoms
            (All-take IsNamed 15 views named))
        s e

record_block-IsSettled :
    (r : BlockRecord) (rows : Table)
    → r.reward_atoms ≡ 0
    → IsSettled rows
    → IsSettled (record_block r rows)
unfolding record_block
record_block-IsSettled r rows nothing s = record {
  keyed = record_block-IsKeyed r rows s.keyed;
  linked = go (
      any_row (λ q. bytes_eq q.block_hash r.block_hash) rows
      || any_row (clashes r.wallet_address r.accepting_block_hash) rows);
}
  where
    go :
        (b : Bool)
        → All IsLinked (if b then rows else rows ++ (record r { id = length rows + 1 } ∷ []))
    go true = s.linked
    go false = All-append IsLinked rows _ s.linked ((λ something. absurd (something nothing)), tt)

module _ (to_lower : Bytes → Bytes) where
  -- What the bridge does to the table: a found block is recorded with no reward, and its reward
  -- is looked up, with no other lookup under way.
  pub data Reach : Table → Type 0 where
    empty : Reach []
    records :
        (r : BlockRecord) (rows : Table)
        → Reach rows
        → r.reward_atoms ≡ 0
        → Reach (record_block r rows)
    looks_up :
        (h : Bytes) (views : List View) (rows rows' : Table)
        → Reach rows
        → All IsNamed views
        → fetch_and_update_reward to_lower h views rows ≡ some rows'
        → Reach rows'

  Reach-IsSettled : (rows : Table) → Reach rows → IsSettled rows
  Reach-IsSettled rows empty = record { keyed = tt; linked = tt }
  Reach-IsSettled _ (records r rows before nothing) =
      record_block-IsSettled r rows nothing (Reach-IsSettled rows before)
  Reach-IsSettled _ (looks_up h views rows rows' before named done) =
      fetch-IsSettled to_lower h views rows rows' named (Reach-IsSettled rows before) done

-- Two rows of one wallet, each with a reward, whose payments are the same.
abbrev pub BothPaid : BlockRecord → BlockRecord → Type 0
BothPaid r q =
    (q.wallet_address ≡ r.wallet_address)
    × (r.reward_atoms ≢ 0)
    × (q.reward_atoms ≢ 0)
    × (q.accepting_block_hash ≡ r.accepting_block_hash)

-- No two rows of a table stand in a relation.
abbrev pub NoTwo : (BlockRecord → BlockRecord → Type 0) → Table → Type 0
NoTwo R [] = Unit
NoTwo R (r ∷ rows) = All (λ q. ¬ R r q) rows × NoTwo R rows

both_clash :
    (wallet a : Bytes) (q : BlockRecord)
    → q.wallet_address ≡ wallet
    → q.accepting_block_hash ≡ some a
    → is_empty a ≡ false
    → clashes wallet (some a) q ≡ true
both_clash wallet a q w e named =
    rw (named, w, e) (ground (arith, bytes_eq_iff wallet wallet, bytes_eq_iff a a))

settled_once : (rows : Table) → IsKeyed rows → All IsLinked rows → NoTwo BothPaid rows
settled_once [] k l = tt
settled_once (r ∷ rows) k l = (
  All-zip (Beside r) IsLinked (λ q. ¬ BothPaid r q) rows
      (λ q b lq (same, paid, paid', booked).
        let (a, is_a, named) = l.0 paid in
        let clash : clashes r.wallet_address (some a) q ≡ true =
          both_clash r.wallet_address a q same (booked ∙ is_a) named in
        let free : clashes r.wallet_address (some a) q ≡ false = rw is_a at (b.bookings) in cc)
      k.0 l.1,
  settled_once rows k.1 l.1,
)

module _ (to_lower : Bytes → Bytes) where
  -- However found blocks are recorded and their rewards looked up, one lookup after the other, no
  -- two rows of one wallet have a reward, not zero, with the same accepting block: no payment is
  -- booked twice. The node's chains name no block by an empty hash.
  pub booked_once : (rows : Table) → Reach to_lower rows → NoTwo BothPaid rows
  booked_once rows r = let s = Reach-IsSettled to_lower rows r in settled_once rows s.keyed s.linked
