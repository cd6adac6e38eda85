-- ===== src/Commands/Gates.antt =====
-- execution.py: the gates of the commands, and what a command that raised means.
use Prim.Native.String.{◌++◌ as append}
use rithmic_nt_connect.Base.{
  String, Bool, true, false, not, Option, none, some, List, [], ◌∷◌, ◌==◌, if◌then◌else◌, ℤ,
  mem_text,
}
use rithmic_nt_connect.Values.{Error, value_error, convert_error, order_map_error, unreadable_event}
use rithmic_nt_connect.Polling.{Failure}
use rithmic_nt_connect.OrderPlant.{allow_submit, allow_modify, allow_cancel, reject_reason}
use rithmic_nt_connect.Nautilus.{Order, Event, Request}
use rithmic_nt_connect.Client.State.{Host, Action, ◌>>◌, pure, emit, latch_order_plant}

-- `except ValueError`
abbrev pub is_value_error : Error → Bool
is_value_error value_error = true
is_value_error convert_error = true
is_value_error order_map_error = true
is_value_error unreadable_event = true
is_value_error _ = false

pub data CommandKind : Type 0 where
  submit modify cancel : CommandKind

abbrev pub kind_name : CommandKind → String
kind_name submit = "submit"
kind_name modify = "modify"
kind_name cancel = "cancel"

abbrev pub trading_disabled_reason : String
trading_disabled_reason = "Rithmic trading disabled (enable_trading=False)"

unfoldable pub plant_allows : {Price : Type 0} → CommandKind → Host Price → Bool
plant_allows submit h = allow_submit h.order_plant
plant_allows modify h = allow_modify h.order_plant
plant_allows cancel h = allow_cancel h.order_plant

-- `_command_refusal`
unfoldable pub command_refusal : {Price : Type 0} → CommandKind → Host Price → Option String
command_refusal kind h =
    if not h.enable_trading
    then some trading_disabled_reason
    else if not h.gateway_trading
    then some "Rithmic parent gateway trading disabled"
    else if not (plant_allows kind h)
    then some (reject_reason (kind_name kind) h.order_plant)
    else none

pub data FailureClass : Type 0 where
  rejected not_sent unknown : FailureClass

abbrev pub rejected_codes : List String
rejected_codes = "venue_rejected" ∷ []

abbrev pub not_sent_codes : List String
not_sent_codes = "not_sent" ∷ "not_ready" ∷ "trading_disabled" ∷ "cancel_all_denied" ∷ []

-- `_failure_class`
unfoldable pub failure_class : Failure → FailureClass
failure_class e = elim (e.code) [
  | none ↦ unknown
  | some code ↦
      if mem_text code rejected_codes
      then rejected
      else if mem_text code not_sent_codes
      then not_sent
      else unknown
]

-- `_failure_reason`
unfoldable pub failure_reason : FailureClass → Failure → String
failure_reason not_sent e = append "not sent: " e.text
failure_reason _ e = append "venue rejected: " e.text

-- `venue_id or "UNKNOWN"`
unfoldable pub known_or_unknown : Option String → String
known_or_unknown none = "UNKNOWN"
known_or_unknown (some v) = if v == "" then "UNKNOWN" else v

module _ {Price : Type 0} where
  -- `_order_command_failed`, where `reject` is the callback
  unfoldable pub failed_as :
      FailureClass → Failure → (String → Action Price (Unit {0})) → Action Price (Unit {0})
  failed_as unknown e reject = latch_order_plant
  failed_as kind e reject = reject (failure_reason kind e)

  unfoldable pub order_command_failed :
      Failure → (String → Action Price (Unit {0})) → Action Price (Unit {0})
  order_command_failed e reject = failed_as (failure_class e) e reject

  -- A request goes to the session, and what the session raises is handled by its class.
  unfoldable pub answered :
      Option Failure → (String → Action Price (Unit {0})) → Action Price (Unit {0})
  answered none reject = pure tt
  answered (some e) reject = order_command_failed e reject

  unfoldable pub request :
      (Request Price → Option Failure)
      → Request Price
      → (String → Action Price (Unit {0}))
      → Action Price (Unit {0})
  request session r reject = do emit (Event.requested r); answered (session r) reject

  -- `_reject_all` and `_deny_all`
  unfoldable pub reject_all : List (Order Price) → ℤ → String → Action Price (Unit {0})
  reject_all [] now reason = pure tt
  reject_all (o ∷ orders) now reason =
      let rest = reject_all orders now reason in
      do emit (Event.rejected o.client_order_id reason now); rest

  unfoldable pub deny_all : List (Order Price) → ℤ → String → Action Price (Unit {0})
  deny_all [] now reason = pure tt
  deny_all (o ∷ orders) now reason =
      let rest = deny_all orders now reason in
      do emit (Event.denied o.client_order_id reason now); rest

  -- `_modify_rejected` and `_cancel_rejected`
  unfoldable pub modify_rejected : String → Option String → ℤ → String → Action Price (Unit {0})
  modify_rejected cid venue_id now reason =
      emit (Event.modify_rejected cid (known_or_unknown venue_id) reason now)

  unfoldable pub cancel_rejected : String → Option String → ℤ → String → Action Price (Unit {0})
  cancel_rejected cid venue_id now reason =
      emit (Event.cancel_rejected cid (known_or_unknown venue_id) reason now)
