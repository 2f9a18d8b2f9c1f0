-- ===== src/Message/Tests.antt =====
-- runner/v1/message.go: validation of the envelope, run on small inputs.
use nodima_sdk.Base.{some, [], ◌∷◌, ◌≡◌, ◌↔◌, refl, ok, err, errorf, str}
use nodima_sdk.Session.{abi_version, Credit}
use nodima_sdk.Message.{validate_message, validate_placement}
use nodima_sdk.Message.Types.{Message, credit, ready, new_message, type_text}
use nodima_sdk.Message.Valid.{IsPlaced, IsContent, validate_message_iff}

abbrev grant : Credit
grant = record { edge_id = "e"; node_id = ""; port_id = ""; batches = 4 }

abbrev granted : Message
granted = record (new_message credit) { credit = some grant }

misplaced_credit :
    validate_message (record granted { type = ready })
    ≡ err (errorf "%s message cannot contain credit" (str "ready" ∷ []))
unfolding validate_message validate_placement type_text
misplaced_credit = refl

validate_message_iff_example :
    (validate_message granted ≡ ok tt)
    ↔ ((granted.abi ≡ abi_version) × IsPlaced granted × IsContent credit granted)
validate_message_iff_example = validate_message_iff granted
