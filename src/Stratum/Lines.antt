-- ===== src/Stratum/Lines.antt =====
-- The lines of a buffer in `readFromConnection` of src/gostratum/stratum_client.go.
use htn_stratum_bridge.Prelude.{
  ℕ, ◌≡◌, refl, ap, ◌∙◌, Bool, true, false, Option, none, some, List, [], ◌∷◌, ◌++◌, map, All,
  Bytes, nat_eq,
}
use htn_stratum_bridge.Stratum.Listen.{
  Event, Failure, failure, Handled, goes_on, errs, panics_at, then_handle, then_listen,
  handle_parsed, ReadResult, chunk, handle_lines, read_from_connection, listen, drop_nuls, drop_cr,
  begin_with, split_lines, scan_lines,
}

-- How a miner ends its messages.
abbrev pub ended : List Bytes → Bytes
ended [] = []
ended (line ∷ lines) = line ++ (10 ∷ ended lines)

-- A message has no NUL, no line feed and no carriage return.
abbrev pub IsPlain : Bytes → Type 0
IsPlain = All (λ c. (nat_eq c 0 ≡ false) × (nat_eq c 10 ≡ false) × (nat_eq c 13 ≡ false))

drop_nuls-line :
    (line rest : Bytes)
    → IsPlain line
    → drop_nuls (line ++ (10 ∷ rest)) ≡ line ++ (10 ∷ drop_nuls rest)
unfolding drop_nuls
drop_nuls-line [] rest plain = refl
drop_nuls-line (c ∷ line) rest plain =
    rw (plain.0.0) (ap (λ rest. c ∷ rest) (drop_nuls-line line rest plain.1))

split_lines-line :
    (line rest : Bytes) → IsPlain line → split_lines (line ++ (10 ∷ rest)) ≡ line ∷ split_lines rest
unfolding split_lines
split_lines-line [] rest plain = refl
split_lines-line (c ∷ line) rest plain =
    rw (plain.0.1) (ap (begin_with c) (split_lines-line line rest plain.1))

drop_cr-plain : (line : Bytes) → IsPlain line → drop_cr line ≡ line
unfolding drop_cr
drop_cr-plain [] plain = refl
drop_cr-plain (c ∷ line) plain = rw (plain.0.2) (ap (λ rest. c ∷ rest) (drop_cr-plain line plain.1))

no_nuls : (text : Bytes) → IsPlain text → drop_nuls text ≡ text
unfolding drop_nuls
no_nuls [] plain = refl
no_nuls (c ∷ text) plain = rw (plain.0.0) (ap (λ rest. c ∷ rest) (no_nuls text plain.1))

one_line : (c : ℕ) (text : Bytes) → IsPlain (c ∷ text) → split_lines (c ∷ text) ≡ (c ∷ text) ∷ []
unfolding split_lines
one_line c [] plain = rw (plain.0.1) refl
one_line c (d ∷ text) plain = rw (plain.0.1) (ap (begin_with c) (one_line d text plain.1))

drop_nuls-ended : (lines : List Bytes) → All IsPlain lines → drop_nuls (ended lines) ≡ ended lines
unfolding drop_nuls
drop_nuls-ended [] plain = refl
drop_nuls-ended (line ∷ lines) plain =
    drop_nuls-line line (ended lines) plain.0
    ∙ ap (λ rest. line ++ (10 ∷ rest)) (drop_nuls-ended lines plain.1)

split_lines-ended : (lines : List Bytes) → All IsPlain lines → split_lines (ended lines) ≡ lines
unfolding split_lines
split_lines-ended [] plain = refl
split_lines-ended (line ∷ lines) plain =
    split_lines-line line (ended lines) plain.0
    ∙ ap (λ rest. line ∷ rest) (split_lines-ended lines plain.1)

map-drop_cr : (lines : List Bytes) → All IsPlain lines → map drop_cr lines ≡ lines
map-drop_cr [] plain = refl
map-drop_cr (line ∷ lines) plain = rw (drop_cr-plain line plain.0, map-drop_cr lines plain.1) refl

scan_lines-ended :
    (lines : List Bytes) → All IsPlain lines → scan_lines (drop_nuls (ended lines)) ≡ lines
unfolding scan_lines
scan_lines-ended lines plain =
    ap (λ text. map drop_cr (split_lines text)) (drop_nuls-ended lines plain)
    ∙ ap (map drop_cr) (split_lines-ended lines plain)
    ∙ map-drop_cr lines plain

-- The beginning of a message, alone in its chunk.
scan_lines-part :
    (c : ℕ) (part : Bytes)
    → IsPlain (c ∷ part)
    → scan_lines (drop_nuls (c ∷ part)) ≡ (c ∷ part) ∷ []
unfolding scan_lines
scan_lines-part c part plain =
    ap (λ text. map drop_cr (split_lines text)) (no_nuls (c ∷ part) plain)
    ∙ ap (map drop_cr) (one_line c part plain)
    ∙ rw (drop_cr-plain (c ∷ part) plain) refl

module _ {S : Type 0} (handle : Event → S → Handled S) (unmarshal : Bytes → Option Event) where
  -- How messages are handled from a state: one after the other, each from the state that the one
  -- before left; an error, a panic or a line that is no event is the last thing that happens.
  pub data Handles : List Bytes → S → Handled S → Type 0 where
    done : {s : S} → Handles [] s (goes_on s)
    next :
        {line : Bytes} {lines : List Bytes} {e : Event} {s s' : S} {r : Handled S}
        → unmarshal line ≡ some e
        → handle e s ≡ goes_on s'
        → Handles lines s' r
        → Handles (line ∷ lines) s r
    fails :
        {line : Bytes} {lines : List Bytes} {e : Event} {f : Failure} {s s' : S}
        → unmarshal line ≡ some e
        → handle e s ≡ errs f s'
        → Handles (line ∷ lines) s (errs f s')
    panics :
        {line : Bytes} {lines : List Bytes} {e : Event} {s s' : S}
        → unmarshal line ≡ some e
        → handle e s ≡ panics_at s'
        → Handles (line ∷ lines) s (panics_at s')
    unparsed :
        {line : Bytes} {lines : List Bytes} {s : S}
        → unmarshal line ≡ none
        → Handles (line ∷ lines) s (errs failure s)

  handle_lines-Handles :
      (lines : List Bytes) (s : S) → Handles lines s (handle_lines handle unmarshal lines s)
  unfolding handle_lines
  handle_lines-Handles [] s = done
  handle_lines-Handles (line ∷ lines) s = parsed (handle_lines-Handles lines) (unmarshal line) refl
    where
      handled :
          ((s' : S) → Handles lines s' (handle_lines handle unmarshal lines s'))
          → (e : Event) (h : Handled S) → unmarshal line ≡ some e
          → handle e s ≡ h
          → Handles (line ∷ lines) s (then_handle (handle_lines handle unmarshal lines) h)
      handled rest e (goes_on s') read went = next read went (rest s')
      handled rest e (errs f s') read went = fails read went
      handled rest e (panics_at s') read went = panics read went

      parsed :
          ((s' : S) → Handles lines s' (handle_lines handle unmarshal lines s'))
          → (event : Option Event) → unmarshal line ≡ event
          → Handles (line ∷ lines) s (
              then_handle
                (handle_lines handle unmarshal lines)
                (handle_parsed handle unmarshal event s))
      parsed rest none broken = unparsed broken
      parsed rest (some e) read = handled rest e (handle e s) read refl

  -- Messages that come in one chunk, each ended by a line feed, are handled one after the other, in
  -- order, each from the state that the one before left, up to the first error, panic or line that
  -- is no event. The messages hold no NUL, line feed or carriage return.
  pub messages_handled :
      (lines : List Bytes) (s : S)
      → All IsPlain lines
      → Handles lines s (read_from_connection handle unmarshal (chunk (ended lines)) s)
  unfolding read_from_connection
  messages_handled lines s plain = rw (scan_lines-ended lines plain) (handle_lines-Handles lines s)

  -- A message whose beginning comes in a chunk of its own ends the connection and is not handled,
  -- since the beginning alone is no event; what comes afterwards is not read.
  pub split_message_ends :
      (c : ℕ) (part : Bytes) (reads : List (ReadResult × Bool)) (s : S)
      → IsPlain (c ∷ part)
      → unmarshal (c ∷ part) ≡ none
      → listen handle unmarshal ((chunk (c ∷ part), false) ∷ reads) s ≡ (s, true)
  unfolding listen read_from_connection handle_lines
  split_message_ends c part reads s plain broken =
      ap
        (λ ls.
          then_listen (listen handle unmarshal reads) false (handle_lines handle unmarshal ls s))
        (scan_lines-part c part plain)
      ∙ ap
          (λ event.
            then_listen (listen handle unmarshal reads) false
              (then_handle goes_on (handle_parsed handle unmarshal event s)))
          broken
