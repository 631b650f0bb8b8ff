-- ===== src/Stratum/Listen.antt =====
-- The loop that reads a miner's connection: `spawnClientListener` and `readFromConnection` of
-- src/gostratum/stratum_client.go, `HandleEvent` of src/gostratum/stratum_listener.go. The parsing
-- of JSON is a parameter; times and the log are left out.
use htn_stratum_bridge.Prelude.{
  ℕ, Bool, true, false, Option, none, some, List, [], ◌∷◌, map, Bytes, Map, lookup, bytes_Eq,
  nat_eq, is_empty, if◌then◌else◌,
}
use htn_stratum_bridge.Stratum.{Param}

-- The fields of a `JsonRpcEvent` that handlers read; its id is only echoed.
pub record Event : Type 0 where
  pub method : Bytes
  pub params : List Param

-- An error: a deadline that is exceeded, which the loop takes for an idle connection, or another.
pub data Failure : Type 0 where
  deadline : Failure
  failure : Failure

-- What a handler, or a number of them, comes to.
pub data Handled (S : Type 0) : Type 0 where
  goes_on : S → Handled S
  errs : Failure → S → Handled S
  panics_at : S → Handled S

-- What `connection.Read` comes to: bytes, maybe with the end of the stream, or an error.
pub data ReadResult : Type 0 where
  chunk : Bytes → ReadResult
  read_error : Failure → ReadResult

-- `make([]byte, 8096*2)`: no chunk is longer.
abbrev pub buffer_size : ℕ
buffer_size = 16192

-- `bytes.ReplaceAll(buffer, []byte("\x00"), nil)`
unfoldable pub drop_nuls : Bytes → Bytes
drop_nuls [] = []
drop_nuls (c ∷ s) = let rest = drop_nuls s in if nat_eq c 0 then rest else c ∷ rest

-- A line without a carriage return at its end.
unfoldable pub drop_cr : Bytes → Bytes
drop_cr [] = []
drop_cr (c ∷ s) =
    let rest = drop_cr s in if nat_eq c 13 then (if is_empty s then [] else c ∷ rest) else c ∷ rest

abbrev pub begin_with : ℕ → List Bytes → List Bytes
begin_with c [] = (c ∷ []) ∷ []
begin_with c (line ∷ lines) = (c ∷ line) ∷ lines

-- The text between line feeds. The last line needs no line feed, but is not empty.
unfoldable pub split_lines : Bytes → List Bytes
split_lines [] = []
split_lines (c ∷ s) =
    let rest = split_lines s in if nat_eq c 10 then [] ∷ rest else begin_with c rest

-- The tokens of a `bufio.Scanner`, whose own limit is beyond the buffer.
unfoldable pub scan_lines : Bytes → List Bytes
unfolding split_lines drop_cr
scan_lines buffer = map drop_cr (split_lines buffer)

module _ {S : Type 0} where
  abbrev pub then_handle : (S → Handled S) → Handled S → Handled S
  then_handle more (goes_on s) = more s
  then_handle more (errs e s) = errs e s
  then_handle more (panics_at s) = panics_at s

  abbrev pub then_listen : (S → S × Bool) → Bool → Handled S → S × Bool
  then_listen more cancelled (goes_on s) = if cancelled then (s, true) else more s
  then_listen more cancelled (errs deadline s) = more s
  then_listen more cancelled (errs failure s) = (s, true)
  then_listen more cancelled (panics_at s) = (s, true)

module _ {S : Type 0} (handle : Event → S → Handled S) (unmarshal : Bytes → Option Event) where
  -- The callback: a line that is no event is an error, and ends the connection.
  abbrev pub handle_parsed : Option Event → S → Handled S
  handle_parsed none s = errs failure s
  handle_parsed (some event) s = handle event s

  -- `for scanner.Scan()`, which the first error ends.
  unfoldable pub handle_lines : List Bytes → S → Handled S
  handle_lines [] s = goes_on s
  handle_lines (line ∷ lines) s =
      then_handle (handle_lines lines) (handle_parsed (unmarshal line) s)

  -- `readFromConnection`
  unfoldable pub read_from_connection : ReadResult → S → Handled S
  unfolding handle_lines scan_lines drop_nuls
  read_from_connection (read_error e) s = errs e s
  read_from_connection (chunk buffer) s = handle_lines (scan_lines (drop_nuls buffer)) s

  -- The loop of `spawnClientListener`, over what the reads come to and whether the listener was
  -- cancelled after each. `true` is the end of the connection.
  unfoldable pub listen : List (ReadResult × Bool) → S → S × Bool
  unfolding read_from_connection
  listen [] s = (s, false)
  listen ((read, cancelled) ∷ reads) s =
      then_listen (listen reads) cancelled (read_from_connection read s)

abbrev pub call_handler : {S : Type 0} → Option (Event → S → Handled S) → Event → S → Handled S
call_handler none event s = goes_on s
call_handler (some handler) event s = handler event s

-- `HandleEvent`: a method that has no handler is ignored.
unfoldable pub handle_event :
    {S : Type 0} → Map Bytes (Event → S → Handled S) → Event → S → Handled S
handle_event handlers event s = call_handler (lookup event.method handlers) event s
