-- ===== src/Commands/Shut.antt =====
-- execution.py: sequences of commands while the gates are shut.
use rithmic_nt_connect.Base.{
  ℕ, ◌+◌, String, Bool, Option, none, some, List, [], ◌∷◌, ◌++◌, ℤ, ◌≡◌, refl, inl, inr, Bool-cases,
  ◌∙◌, arith,
}
use rithmic_nt_connect.Values.{Result, ok, err, Error}
use rithmic_nt_connect.Polling.{Failure}
use rithmic_nt_connect.Nautilus.{Library, Order, Event, Request}
use rithmic_nt_connect.Client.State.{Host, Action, ◌>>=◌, continue, emit, raise}
use rithmic_nt_connect.Client.Keeps.{Frame, Keeps, Keeps-pure, Keeps-raise, Keeps-bind, Keeps-if}
use rithmic_nt_connect.Commands.Gates.{
  CommandKind, submit, modify, cancel, command_refusal, plant_allows, deny_all, modify_rejected,
  cancel_rejected, is_value_error, trading_disabled_reason,
}
use rithmic_nt_connect.Commands.Submit.{if_allowed, submit_order}
use rithmic_nt_connect.Commands.Change.{
  ModifyCommand, CancelCommand, modify_if_allowed, modify_order, cancel_venue_id, cancel_if_allowed,
  cancel_order, batch_cancel_orders, cancel_all_orders,
}
use rithmic_nt_connect.Commands.Bracket.{
  Legs, send_bracket, bracket_mapped, bracket_with_ticks, bracket_with_legs, bracket_ticks,
  bracket_legs, submit_bracket, submit_each, submit_order_list, is_bracket_order_list,
  bracket_request,
}

-- How many requests went to the session.
unfoldable pub requests : {Price : Type 0} → List (Event Price) → ℕ
requests [] = 0
requests (Event.requested q ∷ es) = 1 + requests es
requests (e ∷ es) = requests es

module _ {Price : Type 0} where
  pub requests-append :
      (es fs : List (Event Price)) → requests (es ++ fs) ≡ requests es + requests fs
  unfolding requests
  requests-append [] fs = ground arith
  requests-append (Event.requested q ∷ es) fs = ground (arith, requests-append es fs)
  requests-append (e ∷ es) fs = ground (arith, requests-append es fs)

  -- No request went out and no gate moved.
  pub record Harmless (a b : Host Price) : Type 0 where
    pub trading : b.enable_trading ≡ a.enable_trading
    pub gateway : b.gateway_trading ≡ a.gateway_trading
    pub plant : b.order_plant ≡ a.order_plant
    pub sent : requests b.emitted ≡ requests a.emitted

  abbrev pub harmless : Frame Price
  harmless = record {
    Rel = Harmless;
    reflexive = λ h. record { trading = refl; gateway = refl; plant = refl; sent = refl };
    transitive = λ a b c p q. record {
      trading = q.trading ∙ p.trading;
      gateway = q.gateway ∙ p.gateway;
      plant = q.plant ∙ p.plant;
      sent = q.sent ∙ p.sent;
    };
  }

  abbrev IsAnswer : Event Price → Type 0
  IsAnswer e = requests (e ∷ []) ≡ 0

  Harmless-emit : (e : Event Price) → IsAnswer e → Keeps harmless (emit e)
  unfolding emit
  Harmless-emit e p = record {
    at = λ h. record {
      trading = refl;
      gateway = refl;
      plant = refl;
      sent = requests-append h.emitted (e ∷ []) ∙ omega (arith, p);
    };
  }

  Harmless-deny_all :
      (orders : List (Order Price)) (now : ℤ) (reason : String)
      → Keeps harmless (deny_all orders now reason)
  unfolding deny_all requests
  Harmless-deny_all [] now reason = Keeps-pure tt
  Harmless-deny_all (o ∷ orders) now reason =
      Keeps-bind (emit (Event.denied o.client_order_id reason now)) _ (Harmless-emit _ refl)
        (λ u. Harmless-deny_all orders now reason)

  Harmless-modify_rejected :
      (cid : String) (v : Option String) (now : ℤ) (reason : String)
      → Keeps harmless (modify_rejected {Price = Price} cid v now reason)
  unfolding modify_rejected requests
  Harmless-modify_rejected cid v now reason = Harmless-emit _ refl

  Harmless-cancel_rejected :
      (cid : String) (v : Option String) (now : ℤ) (reason : String)
      → Keeps harmless (cancel_rejected {Price = Price} cid v now reason)
  unfolding cancel_rejected requests
  Harmless-cancel_rejected cid v now reason = Harmless-emit _ refl

  command_refusal-Harmless :
      (a b : Host Price)
      → Harmless a b
      → (k : CommandKind) → command_refusal k b ≡ command_refusal k a
  unfolding command_refusal plant_allows
  command_refusal-Harmless a b q submit = rw (q.trading, q.gateway, q.plant) refl
  command_refusal-Harmless a b q modify = rw (q.trading, q.gateway, q.plant) refl
  command_refusal-Harmless a b q cancel = rw (q.trading, q.gateway, q.plant) refl

  -- Every kind of command is refused.
  abbrev pub Shut : Host Price → Type 0
  Shut h = (k : CommandKind) → (reason : String) × (command_refusal k h ≡ some reason)

  Shut-Harmless : (a b : Host Price) → Harmless a b → Shut a → Shut b
  Shut-Harmless a b q s k = ((s k).0, command_refusal-Harmless a b q k ∙ (s k).1)

module _ {Price A B : Type 0} where
  Harmless-seq :
      (m : Action Price A) (f : A → Action Price B) (h : Host Price)
      → Harmless h (m h).1
      → ((a : A) (h1 : Host Price) → Harmless h h1 → Harmless h1 (f a h1).1)
      → Harmless h ((m >>= f) h).1
  unfolding ◌>>=◌
  Harmless-seq m f h q k = go (m h).0 (m h).1 q
    where
      go : (r : Result A) (h1 : Host Price) → Harmless h h1 → Harmless h (continue r f h1).1
      go (ok a) h1 q = harmless.transitive h h1 (f a h1).1 q (k a h1 q)
      go (err e) h1 q = q

-- A command of the engine.
pub data Command (Price : Type 0) : Type 0 where
  submits : Order Price → Command Price
  submits_list : (brackets_enabled : Bool) → List (Order Price) → Command Price
  modifies : ModifyCommand Price → Command Price
  cancels : CancelCommand → Command Price
  cancels_batch : List CancelCommand → Command Price
  cancels_all : List (Order Price) → Command Price

module _ {Price : Type 0} (nt : Library Price) (session : Request Price → Option Failure)
    (show_error : Error → String) (now : ℤ) where
  unfoldable pub perform : Command Price → Action Price (Unit {0})
  perform (submits o) = submit_order session show_error o now
  perform (submits_list enabled orders) = submit_order_list nt session show_error enabled orders now
  perform (modifies m) = modify_order session show_error m now
  perform (cancels m) = cancel_order session show_error m now
  perform (cancels_batch ms) = batch_cancel_orders session show_error ms now
  perform (cancels_all orders) = cancel_all_orders session show_error orders now

  -- An exception ends its own command only.
  unfoldable pub perform_all : List (Command Price) → Host Price → Host Price
  unfolding perform
  perform_all [] h = h
  perform_all (c ∷ cs) h = perform_all cs (perform c h).1

  submit-Shut :
      (o : Order Price) (h : Host Price)
      → Shut h
      → Harmless h (submit_order session show_error o now h).1
  unfolding submit_order if_allowed
  submit-Shut o h s =
      rw ((s submit).1, if_allowed) ((Harmless-deny_all (o ∷ []) now (s submit).0).at h)

  modify-Shut :
      (m : ModifyCommand Price) (h : Host Price)
      → Shut h
      → Harmless h (modify_order session show_error m now h).1
  unfolding modify_order modify_if_allowed
  modify-Shut m h s =
      rw ((s modify).1, modify_if_allowed)
        ((Harmless-modify_rejected m.client_order_id m.venue_order_id now (s modify).0).at h)

  cancel-Shut :
      (m : CancelCommand) (h : Host Price)
      → Shut h
      → Harmless h (cancel_order session show_error m now h).1
  unfolding cancel_order cancel_if_allowed
  cancel-Shut m h s =
      rw ((s cancel).1, cancel_if_allowed)
        ((Harmless-cancel_rejected m.client_order_id (cancel_venue_id h.cache m) now
            (s cancel).0).at
          h)

  batch-Shut :
      (ms : List CancelCommand) (h : Host Price)
      → Shut h
      → Harmless h (batch_cancel_orders session show_error ms now h).1
  unfolding batch_cancel_orders
  batch-Shut [] h s = (Keeps-pure {F = harmless} tt).at h
  batch-Shut (m ∷ ms) h s =
      Harmless-seq (cancel_order session show_error m now) _ h (cancel-Shut m h s)
        λ u h1 q. batch-Shut ms h1 (Shut-Harmless h h1 q s)

  each-Shut :
      (orders : List (Order Price)) (h : Host Price)
      → Shut h
      → Harmless h (submit_each nt session show_error orders now h).1
  unfolding submit_each
  each-Shut [] h s = (Keeps-pure {F = harmless} tt).at h
  each-Shut (o ∷ orders) h s =
      Harmless-seq (submit_order session show_error o now) _ h (submit-Shut o h s)
        λ u h1 q. each-Shut orders h1 (Shut-Harmless h h1 q s)

  mapped-Shut :
      (orders : List (Order Price)) (p : Result (Request Price)) (h : Host Price)
      → Shut h
      → Harmless h (bracket_mapped nt session show_error orders now p h).1
  unfolding bracket_mapped send_bracket
  mapped-Shut orders (ok r) h s =
      rw ((s submit).1, send_bracket) ((Harmless-deny_all orders now (s submit).0).at h)
  mapped-Shut orders (err e) h s =
      (Keeps-if (is_value_error e) (deny_all orders now (show_error e)) (raise e)
          (Harmless-deny_all orders now (show_error e)) (Keeps-raise e)).at
        h

  ticks-Shut :
      (orders : List (Order Price)) (entry : Order Price) (ticks : Option ℤ × Option ℤ)
      (h : Host Price)
      → Shut h
      → Harmless h (bracket_with_ticks nt session show_error orders now entry ticks h).1
  unfolding bracket_with_ticks
  ticks-Shut orders entry (some a, some b) h s =
      mapped-Shut orders (bracket_request h.cache entry a b) h s
  ticks-Shut orders entry (some a, none) h s = (Harmless-deny_all orders now _).at h
  ticks-Shut orders entry (none, t) h s = (Harmless-deny_all orders now _).at h

  legs-Shut :
      (orders : List (Order Price)) (legs : Option (Legs Price)) (h : Host Price)
      → Shut h
      → Harmless h (bracket_with_legs nt session show_error orders now legs h).1
  unfolding bracket_with_legs
  legs-Shut orders none h s = (Harmless-deny_all orders now _).at h
  legs-Shut orders (some legs) h s = ticks-Shut orders legs.0 (bracket_ticks nt h.cache legs) h s

  list-Shut :
      (enabled : Bool) (orders : List (Order Price)) (h : Host Price)
      → Shut h
      → Harmless h (submit_order_list nt session show_error enabled orders now h).1
  unfolding submit_order_list submit_bracket
  list-Shut enabled orders h s = elim (Bool-cases h.enable_trading) [
    | inr e ↦
        simp (submit_order_list, e) ((Harmless-deny_all orders now trading_disabled_reason).at h)
    | inl e ↦ elim (Bool-cases (is_bracket_order_list orders)) [
      | inr b ↦ simp (submit_order_list, e, b) (each-Shut orders h s)
      | inl b ↦ elim (Bool-cases enabled) [
        | inl c ↦
            simp (submit_order_list, e, b, c, submit_bracket)
              (legs-Shut orders (bracket_legs orders) h s)
        | inr c ↦
            simp (submit_order_list, e, b, c, submit_bracket)
              ((Harmless-deny_all orders now _).at h)
      ]
    ]
  ]

  perform-Shut : (c : Command Price) (h : Host Price) → Shut h → Harmless h (perform c h).1
  unfolding perform cancel_all_orders
  perform-Shut (submits o) h s = submit-Shut o h s
  perform-Shut (submits_list enabled orders) h s = list-Shut enabled orders h s
  perform-Shut (modifies m) h s = modify-Shut m h s
  perform-Shut (cancels m) h s = cancel-Shut m h s
  perform-Shut (cancels_batch ms) h s = batch-Shut ms h s
  perform-Shut (cancels_all orders) h s = batch-Shut _ h s

  -- While every kind of command is refused, no sequence of commands, of any kind and with any
  -- answers, sends a request, and the gates stay as they are.
  pub closed_gates_send_nothing :
      (cs : List (Command Price)) (h : Host Price) → Shut h → Harmless h (perform_all cs h)
  unfolding perform_all
  closed_gates_send_nothing [] h s = harmless.reflexive h
  closed_gates_send_nothing (c ∷ cs) h s =
      let q = perform-Shut c h s in
      harmless.transitive h (perform c h).1 (perform_all cs (perform c h).1) q
        (closed_gates_send_nothing cs (perform c h).1 (Shut-Harmless h (perform c h).1 q s))
