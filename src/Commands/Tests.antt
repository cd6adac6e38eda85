-- ===== src/Commands/Tests.antt =====
-- Runs of the order commands: a submit, a cancel, an observer and a bracket.
use rithmic_nt_connect.Base.{
  String, Bool, true, false, Option, none, some, List, [], ◌∷◌, ℤ, pos, ◌≡◌, refl, ◌⊎◌,
}
use rithmic_nt_connect.Values.{finite, ok, Error}
use rithmic_nt_connect.Values.Doubles.{quotient, difference}
use rithmic_nt_connect.Polling.{Failure, gateway}
use rithmic_nt_connect.OrderRows.{OrderType}
use rithmic_nt_connect.Nautilus.{Order, Request, Cache, Instrument}
use rithmic_nt_connect.Client.State.{Host}
use rithmic_nt_connect.Fixtures.{library, host_with, cache_of, open_order}
use rithmic_nt_connect.Commands.Gates.{command_refusal}
use rithmic_nt_connect.Commands.Change.{CancelCommand}
use rithmic_nt_connect.Commands.Submit.{submit_order}
use rithmic_nt_connect.Commands.Traces.{
  SubmitTrace, submit_order-Trace, CancelTrace, cancel_order-Trace,
}
use rithmic_nt_connect.Commands.Change.{cancel_order}
use rithmic_nt_connect.Commands.Bracket.{
  ticks_between, submit_order_list, is_bracket_order_list, links, in_list,
}
use rithmic_nt_connect.Commands.Shut.{
  Command, submits, cancels, cancels_all, perform_all, Harmless, Shut, closed_gates_send_nothing,
}
use rithmic_nt_connect.Commands.Brackets.{sent_of, OneBracket, bracket_is_whole_or_unsent}

abbrev instrument : Instrument ℤ
instrument = record {
  make_price = λ v. ok (pos 100);
  rithmic_product_code = some "NQ";
  rithmic_symbol = some "NQZ6";
  rithmic_exchange = some "CME";
  price_increment = finite (pos 1) 0;
}

abbrev cache : Cache ℤ
cache = record (cache_of open_order) { instrument = λ s. some instrument }

-- the venue rejects every request
abbrev rejects : Request ℤ → Option Failure
rejects q = some (record { cls = gateway; code = some "venue_rejected"; text = "no" })

-- nobody knows what became of the request
abbrev lost : Request ℤ → Option Failure
lost q = some (record { cls = gateway; code = none; text = "timeout" })

abbrev accepts : Request ℤ → Option Failure
accepts q = none

abbrev error_text : Error → String
error_text e = "error"

submit_order-Trace_example :
    SubmitTrace rejects open_order
      (pos 7)
      (host_with cache)
      (submit_order rejects error_text open_order (pos 7) (host_with cache))
submit_order-Trace_example =
    submit_order-Trace rejects error_text open_order (pos 7) (host_with cache)

abbrev cancel_one : CancelCommand
cancel_one = record { client_order_id = "O-1"; venue_order_id = some "b1" }

cancel_order-Trace_example :
    CancelTrace lost cancel_one
      (pos 7)
      (host_with cache)
      (cancel_order lost error_text cancel_one (pos 7) (host_with cache))
cancel_order-Trace_example = cancel_order-Trace lost error_text cancel_one (pos 7) (host_with cache)

-- an observer: trading is disabled
abbrev observer : Host ℤ
observer = record (host_with cache) { enable_trading = false }

observer-Shut : Shut observer
unfolding command_refusal
observer-Shut k = (_, refl)

abbrev three_commands : List (Command ℤ)
three_commands = submits open_order ∷ cancels cancel_one ∷ cancels_all (open_order ∷ []) ∷ []

closed_gates_send_nothing_example :
    Harmless observer (perform_all library accepts error_text (pos 7) three_commands observer)
closed_gates_send_nothing_example =
    closed_gates_send_nothing library accepts error_text (pos 7) three_commands observer
      observer-Shut

abbrev stop_leg : Order ℤ
stop_leg = record open_order {
  client_order_id = "O-2";
  order_type = OrderType.stop_market;
  parent_order_id = some "O-1";
  trigger_price = some (pos 96);
}

abbrev target_leg : Order ℤ
target_leg = record open_order {
  client_order_id = "O-3";
  parent_order_id = some "O-1";
  price = some (pos 104);
}

abbrev bracket : List (Order ℤ)
bracket = open_order ∷ stop_leg ∷ target_leg ∷ []

bracket_is_whole_or_unsent_example :
    (sent_of
        (submit_order_list library accepts error_text true bracket
          (pos 7)
          (host_with cache)).1.emitted
      ≡ [])
    ⊎ ((◌≡◌ {A = Bool} true true)
        × OneBracket library accepts error_text bracket
            (pos 7)
            (host_with cache)
            (submit_order_list library accepts error_text true bracket (pos 7) (host_with cache)).1)
unfolding is_bracket_order_list sent_of links in_list
bracket_is_whole_or_unsent_example =
    bracket_is_whole_or_unsent library accepts error_text bracket (pos 7) true (host_with cache)
      refl

-- A stop at 99.125 below an entry at 100 lies three and a half ticks of 0.25 away: it goes out as 4.
off_tick_leg :
    ticks_between (finite (pos 1) 2) (finite (pos 100) 0) (finite (pos 793) 3) ≡ ok (pos 4)
unfolding ticks_between
off_tick_leg = refl

one_third : quotient (finite (pos 1) 0) (finite (pos 3) 0) ≡ ok (finite (pos 6004799503160661) 54)
unfolding quotient
one_third = refl

-- 2 ^ 54 + 2 + 1 has 55 digits
large_difference :
    difference (finite (pos 18014398509481987) 0) (finite (pos 0) 0)
    ≡ finite (pos 18014398509481988) 0
unfolding difference
large_difference = refl
