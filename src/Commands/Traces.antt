-- ===== src/Commands/Traces.antt =====
-- execution.py: what a command leaves behind, on each of its branches.
use rithmic_nt_connect.Base.{
  String, false, Option, none, some, List, [], ◌∷◌, ◌++◌, ℤ, ◌≡◌, ◌≢◌, refl, ◌⊎◌, inl, inr,
  Bool-cases,
}
use rithmic_nt_connect.Values.{Result, ok, err, Error, has_text}
use rithmic_nt_connect.Polling.{Failure}
use rithmic_nt_connect.OrderPlant.{latch}
use rithmic_nt_connect.Nautilus.{Order, Event, Request}
use rithmic_nt_connect.Client.State.{Host, Action, ◌>>=◌, emit, pure, latch_order_plant}
use rithmic_nt_connect.Commands.Gates.{
  submit, cancel, command_refusal, failure_class, FailureClass, rejected, not_sent, unknown,
  failed_as, failure_reason, order_command_failed, answered, request, reject_all, deny_all,
  is_value_error, cancel_rejected, known_or_unknown,
}
use rithmic_nt_connect.Commands.Submit.{place_request, send_order, if_allowed, submit_order}
use rithmic_nt_connect.Commands.Change.{
  CancelCommand, cancel_venue_id, send_cancel, cancel_if_allowed, cancel_order,
}

abbrev pub Outcome : Type 0 → Type 0
Outcome Price = Result (Unit {0}) × Host Price

module _ {Price : Type 0} where
  -- the client after events went out
  abbrev pub after : Host Price → List (Event Price) → Host Price
  after h [] = h
  after h (e ∷ es) = after (record h { emitted = h.emitted ++ e ∷ [] }) es

  abbrev pub latched : Host Price → Host Price
  latched h = record h { order_plant = latch h.order_plant }

module _ {Price : Type 0} (session : Request Price → Option Failure) where
  -- What follows a request `q` that went out: nothing when the session returned; a latched plant when
  -- the outcome at the venue is unknown; the event `refuse reason` when it is known that the order
  -- is not live.
  abbrev pub Answered : Request Price → (String → Event Price) → Host Price → Outcome Price → Type 0
  Answered q refuse h r =
      ((session q ≡ none) × (r ≡ (ok tt, h)))
      ⊎ ((f : Failure) × ((session q ≡ some f)
            × (((failure_class f ≡ unknown) × (r ≡ (ok tt, latched h)))
                ⊎ ((failure_class f ≢ unknown)
                    × ((reason : String) × (r ≡ (ok tt, after h (refuse reason ∷ []))))))))

  failed-Answered :
      (q : Request Price) (refuse : String → Event Price)
      (reject : String → Action Price (Unit {0})) (f : Failure) (h : Host Price)
      → ((reason : String) (h1 : Host Price)
          → reject reason h1 ≡ (ok tt, after h1 (refuse reason ∷ [])))
      → session q ≡ some f
      → (k : FailureClass) → failure_class f ≡ k
      → Answered q refuse h (failed_as k f reject h)
  unfolding failed_as latch_order_plant
  failed-Answered q refuse reject f h does e unknown k = inr (f, (e, inl (k, refl)))
  failed-Answered q refuse reject f h does e rejected k =
      inr (f, (e, inr ((λ u. cc), (failure_reason rejected f, does (failure_reason rejected f) h))))
  failed-Answered q refuse reject f h does e not_sent k =
      inr (f, (e, inr ((λ u. cc), (failure_reason not_sent f, does (failure_reason not_sent f) h))))

  answered-Answered :
      (q : Request Price) (refuse : String → Event Price)
      (reject : String → Action Price (Unit {0})) (h : Host Price) (v : Option Failure)
      → ((reason : String) (h1 : Host Price)
          → reject reason h1 ≡ (ok tt, after h1 (refuse reason ∷ [])))
      → session q ≡ v
      → Answered q refuse h (answered v reject h)
  unfolding answered order_command_failed pure
  answered-Answered q refuse reject h none does e = inl (e, refl)
  answered-Answered q refuse reject h (some f) does e =
      failed-Answered q refuse reject f h does e (failure_class f) refl

  request-Answered :
      (q : Request Price) (refuse : String → Event Price)
      (reject : String → Action Price (Unit {0})) (h : Host Price)
      → ((reason : String) (h1 : Host Price)
          → reject reason h1 ≡ (ok tt, after h1 (refuse reason ∷ [])))
      → Answered q refuse (after h (Event.requested q ∷ [])) (request session q reject h)
  unfolding request ◌>>=◌
  request-Answered q refuse reject h does =
      answered-Answered q refuse reject (after h (Event.requested q ∷ [])) (session q) does refl

  -- The ways a submit ends: denied with nothing sent, an exception with nothing done, or announced
  -- and then requested, with the gate open and the order expressed in the venue's words.
  abbrev pub SubmitTrace : Order Price → ℤ → Host Price → Outcome Price → Type 0
  SubmitTrace o now h r =
      ((reason : String) × (r ≡ (ok tt, after h (Event.denied o.client_order_id reason now ∷ []))))
      ⊎ (((e : Error) × ((is_value_error e ≡ false) × (r ≡ (err e, h))))
          ⊎ ((q : Request Price) × ((command_refusal submit h ≡ none)
                × ((place_request h.cache o ≡ ok q)
                    × Answered q (λ reason. Event.rejected o.client_order_id reason now)
                        (after h (Event.submitted o.client_order_id now ∷ Event.requested q ∷ []))
                        r))))

  send_order-Trace :
      (show_error : Error → String) (o : Order Price) (now : ℤ) (h : Host Price)
      (p : Result (Request Price))
      → command_refusal submit h ≡ none
      → place_request h.cache o ≡ p
      → SubmitTrace o now h (send_order session show_error o now p h)
  unfolding send_order ◌>>=◌ deny_all reject_all
  send_order-Trace show_error o now h (ok q) gate_open e = inr (
      inr (
        q,
        (
          gate_open,
          (
            e,
            request-Answered q _ (reject_all (o ∷ []) now)
                (after h (Event.submitted o.client_order_id now ∷ [])) (λ reason h1. refl),
          ),
        ),
      ))
  send_order-Trace show_error o now h (err x) gate_open e = elim (Bool-cases (is_value_error x)) [
    | inl b ↦ rw b (inl (show_error x, refl))
    | inr b ↦ rw b (inr (inl (x, (b, refl))))
  ]

  if_allowed-Trace :
      (show_error : Error → String) (o : Order Price) (now : ℤ) (h : Host Price) (v : Option String)
      → command_refusal submit h ≡ v
      → SubmitTrace o now h (if_allowed session show_error o now v h)
  unfolding if_allowed deny_all ◌>>=◌
  if_allowed-Trace show_error o now h none e =
      send_order-Trace show_error o now h (place_request h.cache o) e refl
  if_allowed-Trace show_error o now h (some reason) e = inl (reason, refl)

  -- Every submit ends in one of five ways. It is denied, and nothing else happens; or mapping the
  -- order raises an exception that is no `ValueError`, and nothing happens; or, with the gate open,
  -- it is announced as submitted and then its request goes out once: the session returns and that is
  -- all, the venue's answer is definitive and the order is rejected, or the outcome is unknown, the
  -- order is not rejected and the plant latches.
  pub submit_order-Trace :
      (show_error : Error → String) (o : Order Price) (now : ℤ) (h : Host Price)
      → SubmitTrace o now h (submit_order session show_error o now h)
  unfolding submit_order
  submit_order-Trace show_error o now h =
      if_allowed-Trace show_error o now h (command_refusal submit h) refl

  -- The ways a cancel ends.
  abbrev pub CancelTrace : CancelCommand → ℤ → Host Price → Outcome Price → Type 0
  CancelTrace m now h r =
      ((venue_id : Option String) × ((reason : String) × (r ≡ (
        ok tt,
        after h
            (Event.cancel_rejected m.client_order_id (known_or_unknown venue_id) reason now ∷ []),
      ))))
      ⊎ ((basket : String) × ((cancel_venue_id h.cache m ≡ some basket)
            × ((command_refusal cancel h ≡ none)
                × Answered (Request.cancel_order basket)
                    (λ reason.
                      Event.cancel_rejected m.client_order_id (known_or_unknown (some basket))
                        reason now)
                    (after h (Event.requested (Request.cancel_order basket) ∷ [])) r)))

  send_cancel-Trace :
      (show_error : Error → String) (m : CancelCommand) (now : ℤ) (h : Host Price)
      (v : Option String)
      → cancel_venue_id h.cache m ≡ v
      → command_refusal cancel h ≡ none
      → CancelTrace m now h (send_cancel session show_error m now v h)
  unfolding send_cancel cancel_rejected emit
  send_cancel-Trace show_error m now h none e gate_open =
      inl (none, ("no venue basket_id for cancel", refl))
  send_cancel-Trace show_error m now h (some b) e gate_open =
      elim (Bool-cases (has_text (some b))) [
        | inl t ↦ rw t (
            inr (
              b,
              (
                e,
                (
                  gate_open,
                  request-Answered (Request.cancel_order b) _
                      (cancel_rejected m.client_order_id (some b) now) h (λ reason h1. refl),
                ),
              ),
            ))
        | inr t ↦ rw t (inl (none, ("no venue basket_id for cancel", refl)))
      ]

  cancel_if_allowed-Trace :
      (show_error : Error → String) (m : CancelCommand) (now : ℤ) (h : Host Price)
      (v : Option String)
      → command_refusal cancel h ≡ v
      → CancelTrace m now h
          (cancel_if_allowed session show_error m now (cancel_venue_id h.cache m) v h)
  unfolding cancel_if_allowed cancel_rejected emit
  cancel_if_allowed-Trace show_error m now h none e =
      send_cancel-Trace show_error m now h (cancel_venue_id h.cache m) refl e
  cancel_if_allowed-Trace show_error m now h (some reason) e =
      inl (cancel_venue_id h.cache m, (reason, refl))

  -- Every cancel ends in one of these ways. It is refused with a cancel-rejected event and nothing
  -- else; or, with the gate open and a venue id known, its request goes out once: the session
  -- returns and that is all, the answer is definitive and the cancel is rejected, or the outcome is
  -- unknown and the plant latches.
  pub cancel_order-Trace :
      (show_error : Error → String) (m : CancelCommand) (now : ℤ) (h : Host Price)
      → CancelTrace m now h (cancel_order session show_error m now h)
  unfolding cancel_order
  cancel_order-Trace show_error m now h =
      cancel_if_allowed-Trace show_error m now h (command_refusal cancel h) refl
