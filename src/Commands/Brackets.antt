-- ===== src/Commands/Brackets.antt =====
-- execution.py: what goes out for a list of three linked orders.
use rithmic_nt_connect.Base.{
  String, Bool, true, Option, none, some, List, [], ◌∷◌, ◌++◌, ℤ, ◌≡◌, ap, refl, ◌⊎◌, inl, inr,
  Bool-cases, ◌∙◌,
}
use rithmic_nt_connect.Values.{Result, ok, err, Error}
use rithmic_nt_connect.Polling.{Failure}
use rithmic_nt_connect.Nautilus.{Library, Order, Event, Request}
use rithmic_nt_connect.Client.State.{
  Host, Action, ◌>>=◌, continue, emit, pure, raise, latch_order_plant,
}
use rithmic_nt_connect.Client.Keeps.{Frame, Keeps, Keeps-pure, Keeps-raise, Keeps-bind, Keeps-if}
use rithmic_nt_connect.Commands.Gates.{
  submit, command_refusal, deny_all, reject_all, failed_as, FailureClass, rejected, not_sent,
  unknown, failure_class, failure_reason, answered, order_command_failed, request, is_value_error,
  trading_disabled_reason,
}
use rithmic_nt_connect.Commands.Distances.{Away, ticks_with-Away}
use rithmic_nt_connect.Commands.Bracket.{
  Legs, send_bracket, bracket_mapped, bracket_with_ticks, bracket_with_legs, bracket_ticks,
  bracket_legs, submit_bracket, submit_order_list, is_bracket_order_list, bracket_request,
  announce_submitted,
}

-- The requests that went to the session, in order.
unfoldable pub sent_of : {Price : Type 0} → List (Event Price) → List (Request Price)
sent_of [] = []
sent_of (Event.requested q ∷ es) = q ∷ sent_of es
sent_of (e ∷ es) = sent_of es

append_empty : {A : Type 0} → (xs : List A) → xs ++ [] ≡ xs
append_empty [] = refl
append_empty (x ∷ xs) = ap (λ l. x ∷ l) (append_empty xs)

module _ {Price : Type 0} where
  sent_of-append : (es fs : List (Event Price)) → sent_of (es ++ fs) ≡ sent_of es ++ sent_of fs
  unfolding sent_of
  sent_of-append [] fs = refl
  sent_of-append (Event.requested q ∷ es) fs = ap (λ x. q ∷ x) (sent_of-append es fs)
  sent_of-append (e ∷ es) fs = sent_of-append es fs

  -- No request goes out.
  abbrev unrequested : Frame Price
  unrequested = record {
    Rel = λ a b. sent_of b.emitted ≡ sent_of a.emitted;
    reflexive = λ h. refl;
    transitive = λ a b c p q. q ∙ p;
  }

  unrequested-emit : (e : Event Price) → sent_of (e ∷ []) ≡ [] → Keeps unrequested (emit e)
  unfolding emit
  unrequested-emit e p = record {
    at = λ h.
        sent_of-append h.emitted (e ∷ [])
        ∙ ap (λ x. sent_of h.emitted ++ x) p
        ∙ append_empty (sent_of h.emitted);
  }

  unrequested-deny :
      (orders : List (Order Price)) (now : ℤ) (reason : String)
      → Keeps unrequested (deny_all orders now reason)
  unfolding deny_all sent_of
  unrequested-deny [] now reason = Keeps-pure tt
  unrequested-deny (o ∷ orders) now reason =
      Keeps-bind (emit (Event.denied o.client_order_id reason now)) _ (unrequested-emit _ refl)
        (λ u. unrequested-deny orders now reason)

  unrequested-reject :
      (orders : List (Order Price)) (now : ℤ) (reason : String)
      → Keeps unrequested (reject_all orders now reason)
  unfolding reject_all sent_of
  unrequested-reject [] now reason = Keeps-pure tt
  unrequested-reject (o ∷ orders) now reason =
      Keeps-bind (emit (Event.rejected o.client_order_id reason now)) _ (unrequested-emit _ refl)
        (λ u. unrequested-reject orders now reason)

  unrequested-announce :
      (orders : List (Order Price)) (now : ℤ) → Keeps unrequested (announce_submitted orders now)
  unfolding announce_submitted sent_of
  unrequested-announce [] now = Keeps-pure tt
  unrequested-announce (o ∷ orders) now =
      Keeps-bind (emit (Event.submitted o.client_order_id now)) _ (unrequested-emit _ refl)
        (λ u. unrequested-announce orders now)

  unrequested-latch : Keeps unrequested (latch_order_plant {Price = Price})
  unfolding latch_order_plant
  unrequested-latch = record { at = λ h. refl }

  unrequested-failed :
      (orders : List (Order Price)) (now : ℤ) (k : FailureClass) (f : Failure)
      → Keeps unrequested (failed_as k f (reject_all orders now))
  unfolding failed_as
  unrequested-failed orders now unknown f = unrequested-latch
  unrequested-failed orders now rejected f =
      unrequested-reject orders now (failure_reason rejected f)
  unrequested-failed orders now not_sent f =
      unrequested-reject orders now (failure_reason not_sent f)

  unrequested-answered :
      (orders : List (Order Price)) (now : ℤ) (v : Option Failure)
      → Keeps unrequested (answered v (reject_all orders now))
  unfolding answered order_command_failed
  unrequested-answered orders now none = Keeps-pure tt
  unrequested-answered orders now (some f) = unrequested-failed orders now (failure_class f) f

module _ {Price A B : Type 0} where
  -- After an action that returns, the next one goes on from its state.
  after-ok :
      (m : Action Price A) (f : A → Action Price B) (h : Host Price) {a : A}
      → (m h).0 ≡ ok a
      → (P : Host Price → Type 0) → P (f a (m h).1).1
      → P ((m >>= f) h).1
  unfolding ◌>>=◌ continue
  after-ok m f h e P p = rw (e, continue) p

module _ {Price : Type 0} (nt : Library Price) (session : Request Price → Option Failure)
    (show_error : Error → String) (orders : List (Order Price)) (now : ℤ) where
  abbrev pub LegsAway : Host Price → Legs Price → ℤ → ℤ → Type 0
  LegsAway h (entry, stop, target) s t =
      Away nt (h.cache.instrument entry.instrument_id) entry.price stop target s t

  -- One request left, for legs that are a bracket, with rounded distances above zero.
  pub record OneBracket (h h1 : Host Price) : Type 0 where
    pub gate : command_refusal submit h ≡ none
    pub legs : Legs Price
    pub a_bracket : bracket_legs orders ≡ some legs
    pub stop_ticks : ℤ
    pub target_ticks : ℤ
    pub ticks : bracket_ticks nt h.cache legs ≡ (some stop_ticks, some target_ticks)
    pub away : LegsAway h legs stop_ticks target_ticks
    pub bracket : Request Price
    pub mapped : bracket_request h.cache legs.0 stop_ticks target_ticks ≡ ok bracket
    pub sent : sent_of h1.emitted ≡ sent_of h.emitted ++ (bracket ∷ [])

  abbrev Outcome : Host Price → Host Price → Type 0
  Outcome h h1 = (sent_of h1.emitted ≡ sent_of h.emitted) ⊎ OneBracket h h1

  request_sends :
      (q : Request Price) (h : Host Price)
      → sent_of (request session q (reject_all orders now) h).1.emitted
        ≡ sent_of h.emitted ++ (q ∷ [])
  unfolding request ◌>>=◌ emit sent_of
  request_sends q h =
      (unrequested-answered orders now (session q)).at _
      ∙ sent_of-append h.emitted (Event.requested q ∷ [])

  announce-ok : (os : List (Order Price)) (h : Host Price) → (announce_submitted os now h).0 ≡ ok tt
  unfolding announce_submitted ◌>>=◌ emit pure
  announce-ok [] h = refl
  announce-ok (o ∷ os) h = announce-ok os _

  announce-request :
      (q : Request Price) (h : Host Price)
      → sent_of (send_bracket nt session show_error orders now none q h).1.emitted
        ≡ sent_of h.emitted ++ (q ∷ [])
  unfolding send_bracket
  announce-request q h =
      after-ok (announce_submitted orders now) _ h (announce-ok orders h)
        (λ x. sent_of x.emitted ≡ sent_of h.emitted ++ (q ∷ []))
        (request_sends q (announce_submitted orders now h).1
          ∙ ap (λ x. x ++ (q ∷ [])) ((unrequested-announce orders now).at h))

  gated_outcome :
      (g : Option String) (q : Request Price) (h : Host Price)
      → (sent_of (send_bracket nt session show_error orders now g q h).1.emitted
          ≡ sent_of h.emitted)
        ⊎ ((g ≡ none)
            × (sent_of (send_bracket nt session show_error orders now g q h).1.emitted
                ≡ sent_of h.emitted ++ (q ∷ [])))
  unfolding send_bracket
  gated_outcome (some reason) q h = inl ((unrequested-deny orders now reason).at h)
  gated_outcome none q h = inr (refl, announce-request q h)

  -- Legs and ticks of the list, as the code found them.
  pub record Found (h : Host Price) (entry : Order Price) (s t : ℤ) : Type 0 where
    pub legs : Legs Price
    pub a_bracket : bracket_legs orders ≡ some legs
    pub is_entry_leg : legs.0 ≡ entry
    pub ticks : bracket_ticks nt h.cache legs ≡ (some s, some t)

  bracket_ticks-Away :
      (legs : Legs Price) (h : Host Price) (s t : ℤ)
      → bracket_ticks nt h.cache legs ≡ (some s, some t)
      → LegsAway h legs s t
  unfolding bracket_ticks
  bracket_ticks-Away (entry, stop, target) h =
      ticks_with-Away nt (h.cache.instrument entry.instrument_id) entry.price stop target

  mapped_outcome :
      (entry : Order Price) (s t : ℤ) (h : Host Price) (f : Found h entry s t)
      → (r : Result (Request Price)) → bracket_request h.cache entry s t ≡ r
      → Outcome h (bracket_mapped nt session show_error orders now r h).1
  unfolding bracket_mapped
  mapped_outcome entry s t h f (err e) p = inl (
      (Keeps-if (is_value_error e) (deny_all orders now (show_error e)) (raise e)
          (unrequested-deny orders now (show_error e)) (Keeps-raise e)).at
        h)
  mapped_outcome entry s t h f (ok q) p = elim (gated_outcome (command_refusal submit h) q h) [
    | inl k ↦ inl k
    | inr (g, k) ↦ inr record {
      gate = g;
      legs = f.legs;
      a_bracket = f.a_bracket;
      stop_ticks = s;
      target_ticks = t;
      ticks = f.ticks;
      away = bracket_ticks-Away f.legs h s t f.ticks;
      bracket = q;
      mapped = ap (λ x. bracket_request h.cache x s t) f.is_entry_leg ∙ p;
      sent = k;
    }
  ]

  ticks_outcome :
      (legs : Legs Price) (ticks : Option ℤ × Option ℤ) (h : Host Price)
      → bracket_legs orders ≡ some legs
      → bracket_ticks nt h.cache legs ≡ ticks
      → Outcome h (bracket_with_ticks nt session show_error orders now legs.0 ticks h).1
  unfolding bracket_with_ticks
  ticks_outcome legs (some s, some t) h p q =
      mapped_outcome legs.0 s t h
        record { legs = legs; a_bracket = p; is_entry_leg = refl; ticks = q }
        (bracket_request h.cache legs.0 s t) refl
  ticks_outcome legs (some s, none) h p q = inl ((unrequested-deny orders now _).at h)
  ticks_outcome legs (none, t) h p q = inl ((unrequested-deny orders now _).at h)

  legs_outcome :
      (legs : Option (Legs Price)) (h : Host Price)
      → bracket_legs orders ≡ legs
      → Outcome h (bracket_with_legs nt session show_error orders now legs h).1
  unfolding bracket_with_legs
  legs_outcome none h p = inl ((unrequested-deny orders now _).at h)
  legs_outcome (some legs) h p = ticks_outcome legs (bracket_ticks nt h.cache legs) h p refl

  -- A list of three linked orders sends nothing, or sends one request: then the submit gate was
  -- open, brackets were enabled, the list is an entry with a stop and a target, the entry has a
  -- limit price and its instrument a tick above zero, the distance of each exit's price from the
  -- entry's (of the stop its trigger, where it has one), in ticks and rounded to a whole number, is
  -- above zero, and the request is the one those legs and ticks map to.
  pub bracket_is_whole_or_unsent :
      (enabled : Bool) (h : Host Price)
      → is_bracket_order_list orders ≡ true
      → (sent_of (submit_order_list nt session show_error enabled orders now h).1.emitted
          ≡ sent_of h.emitted)
        ⊎ ((enabled ≡ true)
            × OneBracket h (submit_order_list nt session show_error enabled orders now h).1)
  unfolding submit_order_list submit_bracket
  bracket_is_whole_or_unsent enabled h b = elim (Bool-cases h.enable_trading) [
    | inr e ↦
        inl
          (simp (submit_order_list, e) ((unrequested-deny orders now trading_disabled_reason).at h))
    | inl e ↦ elim (Bool-cases enabled) [
      | inr c ↦
          inl (
            simp (submit_order_list, e, b, c, submit_bracket)
              ((unrequested-deny orders now _).at h))
      | inl c ↦
          simp (submit_order_list, e, b, c, submit_bracket)
            (elim (legs_outcome (bracket_legs orders) h refl) [
              | inl k ↦ inl k
              | inr k ↦ inr (refl, k)
            ])
    ]
  ]
