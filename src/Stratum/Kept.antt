-- ===== src/Stratum/Kept.antt =====
-- Invariants of a connection under the loop of src/gostratum/stratum_client.go.
use htn_stratum_bridge.Prelude.{
  ◌≡◌, refl, Bool, true, false, Option, none, some, List, [], ◌∷◌, Bytes,
}
use htn_stratum_bridge.Stratum.Listen.{
  Event, Failure, deadline, failure, Handled, goes_on, errs, panics_at, ReadResult, chunk,
  read_error, handle_lines, handle_parsed, then_handle, then_listen, read_from_connection, listen,
  scan_lines, drop_nuls,
}

-- `Inv` where the connection goes on, `End` where it ends.
abbrev pub Keeps : {S : Type 0} (Inv End : S → Type 0) → Handled S → Type 0
Keeps Inv End (goes_on s) = Inv s
Keeps Inv End (errs deadline s) = Inv s
Keeps Inv End (errs failure s) = End s
Keeps Inv End (panics_at s) = End s

module _ {S : Type 0} (handle : Event → S → Handled S) (unmarshal : Bytes → Option Event)
    (Inv End : S → Type 0) (ends : (s : S) → Inv s → End s)
    (step : (line : Bytes) (event : Event) (s : S)
      → unmarshal line ≡ some event
      → Inv s
      → Keeps Inv End (handle event s)) where
  errs-Keeps : (e : Failure) (s : S) → Inv s → Keeps Inv End (errs e s)
  errs-Keeps deadline s i = i
  errs-Keeps failure s i = ends s i

  handle_parsed-Keeps :
      (line : Bytes) (event : Option Event) (s : S)
      → unmarshal line ≡ event
      → Inv s
      → Keeps Inv End (handle_parsed handle unmarshal event s)
  handle_parsed-Keeps line none s parsed i = ends s i
  handle_parsed-Keeps line (some event) s parsed i = step line event s parsed i

  then_handle-Keeps :
      (more : S → Handled S)
      → ((s : S) → Inv s → Keeps Inv End (more s))
      → (h : Handled S) → Keeps Inv End h
      → Keeps Inv End (then_handle more h)
  then_handle-Keeps more next (goes_on s) k = next s k
  then_handle-Keeps more next (errs deadline s) k = k
  then_handle-Keeps more next (errs failure s) k = k
  then_handle-Keeps more next (panics_at s) k = k

  handle_lines-Keeps :
      (lines : List Bytes) (s : S) → Inv s → Keeps Inv End (handle_lines handle unmarshal lines s)
  unfolding handle_lines
  handle_lines-Keeps [] s i = i
  handle_lines-Keeps (line ∷ lines) s i =
      then_handle-Keeps (handle_lines handle unmarshal lines) (handle_lines-Keeps lines)
        (handle_parsed handle unmarshal (unmarshal line) s)
        (handle_parsed-Keeps line (unmarshal line) s refl i)

  read-Keeps :
      (read : ReadResult) (s : S)
      → Inv s
      → Keeps Inv End (read_from_connection handle unmarshal read s)
  unfolding read_from_connection
  read-Keeps (read_error e) s i = errs-Keeps e s i
  read-Keeps (chunk buffer) s i = handle_lines-Keeps (scan_lines (drop_nuls buffer)) s i

  then_listen-Keeps :
      (more : S → S × Bool)
      → ((s : S) → Inv s → End (more s).0)
      → (cancelled : Bool) (h : Handled S) → Keeps Inv End h
      → End (then_listen more cancelled h).0
  then_listen-Keeps more next true (goes_on s) k = ends s k
  then_listen-Keeps more next false (goes_on s) k = next s k
  then_listen-Keeps more next cancelled (errs deadline s) k = next s k
  then_listen-Keeps more next cancelled (errs failure s) k = k
  then_listen-Keeps more next cancelled (panics_at s) k = k

  -- What each handler keeps holds to the end of the connection.
  pub listen-Keeps :
      (reads : List (ReadResult × Bool)) (s : S) → Inv s → End (listen handle unmarshal reads s).0
  unfolding listen
  listen-Keeps [] s i = ends s i
  listen-Keeps ((read, cancelled) ∷ reads) s i =
      then_listen-Keeps (listen handle unmarshal reads) (listen-Keeps reads) cancelled
        (read_from_connection handle unmarshal read s) (read-Keeps read s i)
