-- ===== src/Command/Roundtrip.antt =====
-- A worker command survives its JSON column.
use vermay_agent.Prelude.{
  ◌≡◌, refl, Bool, true, false, none, some, Option, List, [], ◌∷◌, arith, ap,
}
use vermay_agent.Exec.{ok}
use vermay_agent.Json.{Json, Fields, list_of_items, items, all_objects}
use vermay_agent.Command.{
  CommandKind, initial, approval, user_input, Payload, start, decide, input, input_from_values,
  payload_to_dict, payload_from_dict, local_execution_command_version,
}

list_of_items-items : (xs : List Json) → list_of_items (items xs) ≡ xs
unfolding list_of_items items
list_of_items-items [] = refl
list_of_items-items (x ∷ xs) = ap (λ ys. x ∷ ys) (list_of_items-items xs)

-- What the constructor of the payload has checked: `__post_init__` of the user input.
unfoldable pub is_built : Payload → Bool
unfolding all_objects
is_built start = true
is_built (decide _ _) = true
is_built (input [] _) = false
is_built (input (part ∷ parts) _) = all_objects (part ∷ parts)

input_survives :
    (parts : List Json) (metadata : Option Fields)
    → is_built (input parts metadata) ≡ true
    → input_from_values parts metadata ≡ ok (input parts metadata)
unfolding is_built input_from_values
input_survives [] metadata h = cc
input_survives (part ∷ parts) metadata h = ground arith

built_objects :
    (parts : List Json) (metadata : Option Fields)
    → is_built (input parts metadata) ≡ true
    → all_objects parts ≡ true
unfolding is_built
built_objects [] metadata h = cc
built_objects (part ∷ parts) metadata h = h

-- A payload that its constructor has accepted, once written under the kind that fits it, is read
-- back from the column as it was.
pub payload_from_dict-payload_to_dict :
    (kind : CommandKind) (payload : Payload) (written : Fields)
    → is_built payload ≡ true
    → payload_to_dict kind payload ≡ ok written
    → payload_from_dict kind local_execution_command_version written ≡ ok payload
unfolding payload_to_dict payload_from_dict
payload_from_dict-payload_to_dict initial start written b h = ground arith
payload_from_dict-payload_to_dict approval (decide approved none) written b h = ground arith
payload_from_dict-payload_to_dict approval (decide approved (some reason)) written b h =
    ground arith
payload_from_dict-payload_to_dict user_input (input parts none) written b h =
    ground (arith, list_of_items-items parts, input_survives parts none, built_objects parts none)
payload_from_dict-payload_to_dict user_input (input parts (some metadata)) written b h = ground (
  arith,
  list_of_items-items parts,
  input_survives parts (some metadata),
  built_objects parts (some metadata),
)
payload_from_dict-payload_to_dict kind payload written b h = cc
