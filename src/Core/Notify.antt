-- ===== src/Core/Notify.antt =====
-- crates/rithmic-exec/src/notify.rs: which action kind a notification has, and what it asks for.
use rithmic_nt_connect.Base.{
  String, ◌||◌, not, Option, none, some, List, [], ◌∷◌, ◌==◌, if◌then◌else◌, upper_string, strip,
}

rithmic_kind : String → String → String → Option String
rithmic_kind name status text =
    if name == "OPEN"
    then some "accepted"
    else if name == "TRIGGER_PENDING"
    then some "accepted"
    else if name == "MODIFIED"
    then some "updated"
    else if name == "MODIFICATION_FAILED"
    then some "modify_rejected"
    else if name == "CANCELLATION_FAILED"
    then some "cancel_rejected"
    else if name == "COMPLETE"
    then (let done = upper_string status in
        if done == "CANCELLED" || done == "CANCELED"
        then some "canceled"
        else if not (strip text == "")
        then some "rejected"
        else none)
    else none

exchange_kind : String → Option String
exchange_kind name =
    if name == "FILL"
    then some "filled"
    else if name == "REJECT"
    then some "rejected"
    else if name == "CANCEL"
    then some "canceled"
    else if name == "TRIGGER"
    then some "triggered"
    else if name == "NOT_MODIFIED"
    then some "modify_rejected"
    else if name == "NOT_CANCELLED" || name == "NOT_CANCELED"
    then some "cancel_rejected"
    else none

-- The extension passes `""` for an absent status or text.
unfoldable pub kind_from_notify : String → String → String → String → Option String
unfolding rithmic_kind exchange_kind
kind_from_notify source notify_type_name status text =
    let name = upper_string notify_type_name in
    if source == "rithmic"
    then rithmic_kind name status text
    else if source == "exchange"
    then exchange_kind name
    else none

-- The first reason that is there and not empty.
first_reason : List (Option String) → String → String
first_reason [] default = default
first_reason (none ∷ rest) default = first_reason rest default
first_reason (some s ∷ rest) default = if s == "" then first_reason rest default else s

unfoldable pub notification_action :
    String → Option String → Option String → Option String → Option (String × Option String)
unfolding first_reason
notification_action kind text report_text status =
    let refusal =
      λ (default : String). some (first_reason (text ∷ report_text ∷ status ∷ []) default) in
    if kind == "accepted"
    then some ("accepted", none)
    else if kind == "updated"
    then some ("updated", none)
    else if kind == "canceled"
    then some ("canceled", none)
    else if kind == "triggered"
    then some ("triggered", none)
    else if kind == "filled"
    then some ("filled", none)
    else if kind == "rejected"
    then some ("rejected", refusal "REJECT")
    else if kind == "modify_rejected"
    then some ("modify_rejected", refusal "NOT_MODIFIED")
    else if kind == "cancel_rejected"
    then some ("cancel_rejected", refusal "NOT_CANCELLED")
    else none
