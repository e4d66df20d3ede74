-- ===== src/Tests/Messages.antt =====
-- A node that answers three messages.
use fusotao_rust_client.Prelude.{
  String, true, ◌≡◌, refl, Option, none, some, List, [], ◌∷◌, ◌==◌, string_eq, replicate,
  if◌then◌else◌,
}
use fusotao_rust_client.Prelude.Result.{Result, ok, err}
use fusotao_rust_client.Prelude.Outcome.{Outcome}
use fusotao_rust_client.Prelude.Text.{Text, Bytes, codes, text_eq}
use fusotao_rust_client.External.Json.{Json}
use fusotao_rust_client.Utils.{hash_from_hex}
use fusotao_rust_client.Utils.RoundTrip.{prefixed, quoted}
use fusotao_rust_client.Rpc.Types.{in_block, ready}
use fusotao_rust_client.Rpc.Requests.{Serialize}
use fusotao_rust_client.Rpc.Status.{parse_status, into_extrinsic_err}
use fusotao_rust_client.Rpc.Handlers.{
  on_extrinsic_msg_until_finalized, on_extrinsic_msg_until_in_block,
  on_extrinsic_msg_until_broadcast, on_extrinsic_msg_until_ready, on_extrinsic_msg_submit_only,
}
use fusotao_rust_client.Rpc.Handlers.Laws.{IsLeftOrEnded, on_extrinsic_msg_ends_once}
use fusotao_rust_client.Rpc.Client.{Node, answer, send_extrinsic, connected}
use fusotao_rust_client.Rpc.Client.Answers.{send_extrinsic_included, send_extrinsic_unhashed}
use fusotao_rust_client.Rpc.Client.Waiting.{in_block_in_block, ready_gives, IsEnd, ArePending}
use fusotao_rust_client.Rpc.Handlers.{Message}
use fusotao_rust_client.Rpc.Threads.{System, Reach, start, next, handle}
use fusotao_rust_client.Rpc.Threads.Included.{block_client, Inevitably-TellsHash}
use fusotao_rust_client.Rpc.Threads.Progress.{Inevitably}
use fusotao_rust_client.Tests.Samples.{hex}

-- JSON without numbers and arrays; an object is a chain of fields.
pub data Value : Type 0 where
  missing : Value
  str : Text → Value
  entry : String → Value → Value → Value

abbrev field_of : Value → String → Value
field_of (entry name v rest) key = let later = field_of rest key in if name == key then v else later
field_of _ key = missing

abbrev get_of : Value → String → Option Value
get_of (entry name v rest) key =
    let later = get_of rest key in if name == key then some v else later
get_of _ key = none

abbrev text_of : Value → Option Text
text_of (str t) = some t
text_of _ = none

abbrev object_of : Value → Option Value
object_of (entry name v rest) = some (entry name v rest)
object_of _ = none

abbrev print : Value → Text
print (str t) = quoted t
print _ = []

abbrev object : List (String × Value) → Value
object [] = missing
object ((name, v) ∷ fields) = entry name v (object fields)

abbrev status : Value → Value
status v = entry "params" (entry "result" v missing) missing

abbrev block_hash : Bytes
block_hash = replicate 32 0xab

abbrev ready_message : Text
ready_message = codes "1"

abbrev in_block_message : Text
in_block_message = codes "2"

abbrev error_message : Text
error_message = codes "3"

-- The three messages, each under a digit.
abbrev parse : Text → Result String Value
parse t =
    if text_eq t ready_message
    then ok (status (str (codes "ready")))
    else if text_eq t in_block_message
    then ok (status (entry "inBlock" (str (prefixed (hex.encode block_hash))) missing))
    else if text_eq t error_message
    then ok (entry "error" (entry "message" (str (codes "Invalid Transaction")) missing) missing)
    else err "expected value"

abbrev pub json : Json
json = record {
  Value = Value;
  Object = Value;
  SerdeError = String;
  null = missing;
  string = str;
  array = λ _. missing;
  object = object;
  field = field_of;
  place = λ _ _. missing;
  as_str = text_of;
  as_object = object_of;
  as_i64 = λ _. none;
  get = get_of;
  to_text = print;
  from_text = parse;
}

abbrev serialize : Serialize json Text
serialize = record { hash = str; storage_key = λ _. missing; number = λ _. missing }

abbrev node : Node
node _ = some (some ready_message ∷ some in_block_message ∷ some error_message ∷ [])

abbrev failing_node : Node
failing_node _ = some (some error_message ∷ [])

abbrev hash_text : Text
hash_text = quoted (prefixed (hex.encode block_hash))

ready_status : parse_status json ready_message ≡ Outcome.ok (ready, none)
unfolding parse_status
ready_status = refl

in_block_status : parse_status json in_block_message ≡ Outcome.ok (in_block, some hash_text)
unfolding parse_status
in_block_status = refl

hash_read : hash_from_hex hex hash_text ≡ ok block_hash
unfolding hash_from_hex
hash_read = refl

send_extrinsic_included_example :
    send_extrinsic json serialize hex node (codes "0x00") in_block ≡ answer (ok (some block_hash))
send_extrinsic_included_example =
    send_extrinsic_included json serialize hex node (codes "0x00") (some ready_message ∷ [])
      (some error_message ∷ []) in_block_message hash_text block_hash in_block_in_block refl
      ((ready, (none, (ready_status, refl))), tt) in_block_status hash_read

error_status : IsEnd ready (parse_status json error_message)
unfolding parse_status into_extrinsic_err
error_status = tt

send_extrinsic_unhashed_example :
    send_extrinsic json serialize hex failing_node (codes "0x00") ready ≡ answer (ok none)
send_extrinsic_unhashed_example =
    send_extrinsic_unhashed json serialize hex failing_node (codes "0x00") [] [] error_message
      ready_gives refl tt error_status

on_extrinsic_msg_ends_once_example :
    IsLeftOrEnded connected
      ((on_extrinsic_msg_until_finalized json (some error_message) connected).0)
    × IsLeftOrEnded connected
        ((on_extrinsic_msg_until_in_block json (some error_message) connected).0)
    × IsLeftOrEnded connected
        ((on_extrinsic_msg_until_broadcast json (some error_message) connected).0)
    × IsLeftOrEnded connected ((on_extrinsic_msg_until_ready json (some error_message) connected).0)
    × IsLeftOrEnded connected ((on_extrinsic_msg_submit_only json (some error_message) connected).0)
on_extrinsic_msg_ends_once_example = on_extrinsic_msg_ends_once json (some error_message) connected

abbrev block_messages : List Message
block_messages = some ready_message ∷ some in_block_message ∷ some error_message ∷ []

-- The thread has handled the first two messages, the second of which ends the wait.
abbrev told : System
told = record {
  incoming = some error_message ∷ [];
  connection = record connected { closed = true; sent = hash_text ∷ [] };
  running = true;
  taken = [];
}

told_reached : Reach json (on_extrinsic_msg_until_in_block json) block_messages told
unfolding on_extrinsic_msg_until_in_block parse_status
told_reached = next (next start (handle _ _ _ refl refl)) (handle _ _ _ refl refl)

pending : ArePending json in_block (some ready_message ∷ [])
pending = ((ready, (none, (ready_status, refl))), tt)

Inevitably-TellsHash_example :
    Inevitably json
      (block_client json in_block_in_block)
      (λ u. (others : List Text) × (u.taken ≡ hash_text ∷ others))
      told
Inevitably-TellsHash_example =
    Inevitably-TellsHash json in_block_in_block (some ready_message ∷ []) (some error_message ∷ [])
      in_block_message hash_text pending in_block_status told_reached refl
