-- ===== src/Stratum/Tests.antt =====
-- Runs of src/gostratum, where every text that begins with `hoosat:` decodes.
use htn_stratum_bridge.Prelude.{
  ◌≤◌, ◌≡◌, refl, Bool, true, false, Option, none, some, List, [], ◌∷◌, Bytes, codes, length,
  has_prefix, All, bytes_eq, if◌then◌else◌, pos, int_inc,
}
use htn_stratum_bridge.Stratum.{Param, text, is_wallet, clean_wallet, split_dots}
use htn_stratum_bridge.Stratum.Authorize.{Session, handle_authorize, handle_authorize_valid}
use htn_stratum_bridge.Stratum.Listen.{
  Event, Handled, goes_on, chunk, handle_lines, read_from_connection, listen,
}
use htn_stratum_bridge.Stratum.Lines.{ended, IsPlain, Handles, messages_handled, split_message_ends}

abbrev decodes : Bytes → Bytes → Bool
decodes prefix s = has_prefix s (codes "hoosat:")

cleaned : clean_wallet decodes (codes "qq") ≡ some (codes "hoosat:qq")
unfolding clean_wallet has_prefix
cleaned = refl

abbrev session : Session
session = record { wallet_addr = []; worker_name = []; authorize_count = pos 0 }

abbrev request : List Param
request = text (codes "hoosat:qq.rig") ∷ []

accepted : (handle_authorize decodes request session).1 ≡ true
unfolding handle_authorize clean_wallet split_dots has_prefix int_inc
accepted = refl

handle_authorize_valid_example :
    let (s', _) = handle_authorize decodes request session in
    (is_wallet decodes s'.wallet_addr ≡ true) × (length s'.worker_name ≤ 64)
handle_authorize_valid_example = handle_authorize_valid decodes request session accepted

abbrev parse : Bytes → Option Event
parse line =
    if bytes_eq line (codes "A")
    then some (record { method = codes "a"; params = [] })
    else if bytes_eq line (codes "BC")
    then some (record { method = codes "bc"; params = [] })
    else none

-- Collects the methods.
abbrev collect : Event → List Bytes → Handled (List Bytes)
collect event methods = goes_on (event.method ∷ methods)

messages-IsPlain : All IsPlain (codes "A" ∷ codes "BC" ∷ [])
messages-IsPlain = (((refl, refl, refl), tt), (((refl, refl, refl), ((refl, refl, refl), tt)), tt))

messages_handled_example :
    Handles collect parse
      (codes "A" ∷ codes "BC" ∷ [])
      []
      (read_from_connection collect parse (chunk (ended (codes "A" ∷ codes "BC" ∷ []))) [])
messages_handled_example =
    messages_handled collect parse (codes "A" ∷ codes "BC" ∷ []) [] messages-IsPlain

both_handled :
    handle_lines collect parse (codes "A" ∷ codes "BC" ∷ []) []
    ≡ goes_on (codes "bc" ∷ codes "a" ∷ [])
unfolding handle_lines bytes_eq
both_handled = refl

unparsed : parse (codes "B") ≡ none
unfolding bytes_eq
unparsed = refl

split_message_ends_example :
    listen collect parse
      ((chunk (codes "B"), false) ∷ (chunk (ended (codes "C" ∷ [])), false) ∷ [])
      []
    ≡ ([], true)
split_message_ends_example =
    split_message_ends collect parse b'B' [] ((chunk (ended (codes "C" ∷ [])), false) ∷ []) []
      ((refl, refl, refl), tt) unparsed
