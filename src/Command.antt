-- ===== src/Command.antt =====
-- vermay/main_agent/models.py: the durable worker commands of a queued local Task, and their JSON
-- column (`queued_task_execution_payload_to_dict`, `..._from_dict`).
pub mod Roundtrip
use vermay_agent.Prelude.{
  ℕ, String, String-discrete, Bool, true, false, not, ◌&&◌, Option, none, some, List, [], ◌∷◌,
  nat_eq, if◌then◌else◌,
}
use vermay_agent.Exec.{
  Result, ok, err, payload_kind_mismatch, unsupported_command_version, invalid_command,
}
use vermay_agent.Json.{
  Json, null, bool, num, str, arr, obj, Items, Fields, end, field, Json-discrete, get, only_keys,
  items, list_of_items, all_objects, entry, is_empty,
}
use mathlib.Core.Bool.{Bool-discrete}

-- `QueuedTaskExecutionKind`
pub data CommandKind : Type 0 where
  initial approval user_input : CommandKind

abbrev pub kind_eq : CommandKind → CommandKind → Bool
kind_eq initial initial = true
kind_eq approval approval = true
kind_eq user_input user_input = true
kind_eq _ _ = false

abbrev pub local_execution_command_version : ℕ
local_execution_command_version = 1

-- `QueuedTaskExecutionPayload`: the metadata is a mapping or `None`, the parts are mappings.
pub data Payload : Type 0 where
  start : Payload
  decide : Bool → Option String → Payload
  input : List Json → Option Fields → Payload

pub Payload-discrete : Discrete Payload
Payload-discrete = hlevel (Json-discrete, Bool-discrete, String-discrete)

-- `UserInputTaskExecutionPayload.from_values`, with the checks of `__post_init__`
unfoldable pub input_from_values : List Json → Option Fields → Result Payload
unfolding all_objects
input_from_values [] metadata = err invalid_command
input_from_values (part ∷ parts) metadata =
    if not (all_objects (part ∷ parts))
    then err invalid_command
    else ok (input (part ∷ parts) metadata)

unfoldable pub payload_to_dict : CommandKind → Payload → Result Fields
unfolding items
payload_to_dict initial start = ok end
payload_to_dict approval (decide approved none) = ok (entry "approved" (bool approved))
payload_to_dict approval (decide approved (some reason)) =
    ok (field "approved" (bool approved) (entry "reason" (str reason)))
payload_to_dict user_input (input parts none) =
    ok (field "parts" (arr (items parts)) (entry "metadata" null))
payload_to_dict user_input (input parts (some metadata)) =
    ok (field "parts" (arr (items parts)) (entry "metadata" (obj metadata)))
payload_to_dict _ _ = err payload_kind_mismatch

-- `reason is not None and not isinstance(reason, str)`, after `.get`
reason_of : Option Json → Result (Option String)
reason_of none = ok none
reason_of (some null) = ok none
reason_of (some (str reason)) = ok (some reason)
reason_of (some _) = err invalid_command

metadata_of : Option Json → Result (Option Fields)
metadata_of none = ok none
metadata_of (some null) = ok none
metadata_of (some (obj metadata)) = ok (some metadata)
metadata_of (some _) = err invalid_command

decide_from : Option Json → Result (Option String) → Result Payload
decide_from (some (bool approved)) (ok reason) = ok (decide approved reason)
decide_from _ _ = err invalid_command

input_from : Option Json → Result (Option Fields) → Result Payload
unfolding list_of_items all_objects input_from_values
input_from (some (arr parts)) (ok metadata) =
    if not (all_objects (list_of_items parts))
    then err invalid_command
    else input_from_values (list_of_items parts) metadata
input_from _ _ = err invalid_command

from_dict_kind : CommandKind → Fields → Result Payload
unfolding get only_keys reason_of metadata_of decide_from input_from
from_dict_kind initial payload = if not (is_empty payload) then err invalid_command else ok start
from_dict_kind approval payload =
    if not (only_keys "approved" "reason" payload)
    then err invalid_command
    else decide_from (get "approved" payload) (reason_of (get "reason" payload))
from_dict_kind user_input payload =
    if not (only_keys "parts" "metadata" payload)
    then err invalid_command
    else input_from (get "parts" payload) (metadata_of (get "metadata" payload))

unfoldable pub payload_from_dict : CommandKind → ℕ → Fields → Result Payload
unfolding from_dict_kind
payload_from_dict kind version payload =
    if not (nat_eq version local_execution_command_version)
    then err unsupported_command_version
    else from_dict_kind kind payload
