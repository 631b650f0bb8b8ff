-- ===== src/Rewards/Announced.antt =====
-- The worker's name that src/htnstratum/htnapi.go has put into coinbases, and that
-- src/htnstratum/miner_rewards.go reads back.
use htn_stratum_bridge.Prelude.{
  ℕ, ◌≤◌, ◌≡◌, refl, ap, ◌∙◌, Bool, true, false, ◌&&◌, not, List, [], ◌∷◌, ◌++◌, Bytes, codes, All,
  All-append, length, ltb, leb, ℤ, pos, ltb_ℤ, int_eq, if◌then◌else◌, arith,
}
use htn_stratum_bridge.Worker.{IsAllowed, sanitize_worker_id, sanitize_worker_id_safe}
use htn_stratum_bridge.Api.{version, extra_data}
use htn_stratum_bridge.Rewards.Payload.{
  in_word, after_word, skip_blanks, take_name, or_else, name_of, match_here, find_name,
  written_name, worker_in,
}
use htn_stratum_bridge.Rewards.Reading.{
  IsPrint, runes-print, IsData, take_name-all, allowed-IsPrint, data-IsPrint, allowed-in_name,
  find_name-address, written_name-all,
}

-- What stands behind the address of the miner.
abbrev pub between : Bytes
between = codes "via htn-stratum-bridge_" ++ version ++ codes " as worker "

-- The name itself.
find_name-last :
    (w : Bytes)
    → All IsAllowed w
    → length w ≤ 32
    → find_name false (codes "as worker " ++ w) ≡ name_of w
unfolding find_name match_here after_word skip_blanks take_name
find_name-last [] h le = refl
find_name-last (c ∷ w) h le =
    let later = or_else (match_here (c ∷ w)) (find_name (in_word c) w) in
    ap (λ b. or_else (name_of (take_name 32 (if b then skip_blanks w else c ∷ w))) later)
      (allowed-in_name c h.0).1
    ∙ ap (λ name. or_else (name_of name) later) (take_name-all 32 (c ∷ w) h le)

-- No name begins in the text before it.
find_name-between :
    (w : Bytes) → find_name false (between ++ w) ≡ find_name false (codes "as worker " ++ w)
unfolding find_name match_here after_word skip_blanks take_name
find_name-between w = refl

-- No name begins in the text before the data.
find_name-begin :
    (rest : List ℕ) → find_name false (codes "Mined by hoosat:" ++ rest) ≡ find_name false rest
unfolding find_name match_here after_word skip_blanks
find_name-begin rest = refl

are_printed : Bytes → Bool
are_printed [] = true
are_printed (c ∷ s) = (leb 32 c && ltb c 128) && are_printed s

are_printed-IsPrint : (s : Bytes) → are_printed s ≡ true → All IsPrint s
unfolding are_printed
are_printed-IsPrint [] e = tt
are_printed-IsPrint (c ∷ s) e = (ground (arith, e), are_printed-IsPrint s (ground (arith, e)))

All-map : (P Q : ℕ → Type 0) (s : Bytes) → ((c : ℕ) → P c → Q c) → All P s → All Q s
All-map P Q [] f h = tt
All-map P Q (c ∷ s) f h = (f c h.0, All-map P Q s f h.1)

-- The text of a template without voting, where templates are not cached.
abbrev announced : Bytes → Bytes → Bytes
announced q w = codes "Mined by hoosat:" ++ (q ++ (32 ∷ (between ++ w)))

appended :
    (q w : Bytes)
    → q ++ codes " via htn-stratum-bridge_" ++ version ++ codes " as worker " ++ w
      ≡ q ++ (32 ∷ (between ++ w))
appended [] w = refl
appended (c ∷ q) w = ap (λ rest. c ∷ rest) (appended q w)

announced-IsPrint : (q w : Bytes) → All IsData q → All IsAllowed w → All IsPrint (announced q w)
unfolding are_printed
announced-IsPrint q w data_ name =
    All-append IsPrint (codes "Mined by hoosat:") _
      (are_printed-IsPrint (codes "Mined by hoosat:") refl)
      (All-append IsPrint q _ (All-map IsData IsPrint q data-IsPrint data_) (
        All-append IsPrint (32 ∷ between) w (are_printed-IsPrint (32 ∷ between) refl)
          (All-map IsAllowed IsPrint w allowed-IsPrint name)))

worker_in-announced :
    (q w : Bytes) → All IsData q → All IsAllowed w → length w ≤ 32 → worker_in (announced q w) ≡ w
unfolding worker_in
worker_in-announced q w data_ name le =
    ap written_name (
      ap (find_name false) (runes-print (announced q w) (announced-IsPrint q w data_ name))
      ∙ find_name-begin (q ++ (32 ∷ (between ++ w)))
      ∙ find_name-address q _ data_
      ∙ find_name-between w
      ∙ find_name-last w name le)
    ∙ written_name-all w name le

-- What the bridge has put into a coinbase, the rewards page reads back: the text of a template that
-- is neither cached nor votes, made out to an address of the main network, gives the sanitized name
-- of the worker, as it stood there.
pub worker_announced :
    (ttl poll vote : ℤ) (q worker_name : Bytes)
    → ltb_ℤ (pos 0) ttl ≡ false
    → not (int_eq poll (pos 0)) && not (int_eq vote (pos 0)) ≡ false
    → All IsData q
    → worker_in (extra_data ttl poll vote (codes "hoosat:" ++ q) worker_name)
      ≡ sanitize_worker_id worker_name
unfolding extra_data
worker_announced ttl poll vote q worker_name fresh silent data_ =
    let safe = sanitize_worker_id_safe worker_name in
    rw (silent, fresh)
      (ap (λ text. worker_in (codes "Mined by hoosat:" ++ text))
          (appended q (sanitize_worker_id worker_name))
        ∙ worker_in-announced q (sanitize_worker_id worker_name) data_ safe.0 safe.1)
