-- ===== src/Stratum/Connection.antt =====
-- src/gostratum/stratum_context.go: how a message is written, and how a connection ends.
use htn_stratum_bridge.Prelude.{
  ℕ, zero, suc, ◌+◌, ◌≡◌, refl, ◌⊎◌, Bool, true, false, List, [], ◌∷◌, if◌then◌else◌, arith,
}

-- What one call of `write` comes to: an error of the socket also starts `Disconnect`.
pub data WriteResult : Type 0 where
  written : WriteResult
  blocked : WriteResult
  write_error : WriteResult

pub data SendResult : Type 0 where
  sent : SendResult
  disconnected : SendResult
  failed : SendResult

-- The loop of `writeWithBackoff`, over what the calls of `write` come to; where the list ends no
-- call was made.
unfoldable pub write_with_backoff : ℕ → List WriteResult → SendResult
write_with_backoff zero results = failed
write_with_backoff (suc attempts) [] = failed
write_with_backoff (suc attempts) (written ∷ results) = sent
write_with_backoff (suc attempts) (blocked ∷ results) = write_with_backoff attempts results
write_with_backoff (suc attempts) (write_error ∷ results) = failed

abbrev pub write_attempts : ℕ
write_attempts = 3

-- `Reply` and `Send`, of a message that can be encoded.
unfoldable pub send : Bool → List WriteResult → SendResult
unfolding write_with_backoff
send true results = disconnected
send false results = write_with_backoff write_attempts results

-- `Disconnect`: whether the connection is disconnecting afterwards, and whether it was closed and
-- the listener notified.
unfoldable pub disconnect : Bool → Bool × Bool
disconnect true = (true, false)
disconnect false = (true, true)

-- How often the listener is notified in a number of calls of `Disconnect`.
unfoldable pub notifications : ℕ → Bool → ℕ
unfolding disconnect
notifications zero d = 0
notifications (suc n) d =
    let (d', notified) = disconnect d in (if notified then 1 else 0) + notifications n d'

none_after : (n : ℕ) → notifications n true ≡ 0
unfolding notifications disconnect
none_after zero = refl
none_after (suc n) = omega (arith, none_after n)

-- However often a connection is disconnected, by whichever of its goroutines, the listener is
-- notified exactly once, and afterwards nothing is sent on it.
pub disconnect_once :
    (n : ℕ) (results : List WriteResult)
    → (notifications (suc n) false ≡ 1) × (send (disconnect false).0 results ≡ disconnected)
unfolding notifications disconnect send
disconnect_once n results = (omega (arith, none_after n), refl)

-- A message is sent if and only if one of the first three writes goes through, and those before it
-- were all blocked by another write.
pub send_lem :
    (a b c : WriteResult) (rest : List WriteResult)
    → let results = a ∷ b ∷ c ∷ rest in
      (send false results ≡ sent
        → (a ≡ written)
          ⊎ ((a ≡ blocked) × (b ≡ written))
          ⊎ ((a ≡ blocked) × (b ≡ blocked) × (c ≡ written)))
      × ((a ≡ written)
            ⊎ ((a ≡ blocked) × (b ≡ written))
            ⊎ ((a ≡ blocked) × (b ≡ blocked) × (c ≡ written))
          → send false results ≡ sent)
unfolding send write_with_backoff
send_lem a b c rest = ground arith
