-- ===== src/Intake/Redelivered.antt =====
-- notification_intake.py: a tracked fill without a usable price or quantity, and its redeliveries.
use rithmic_nt_connect.Base.{
  some, [], ◌∷◌, ◌++◌, Bool-cases, Option-cases, inl, inr, sym, ◌∙◌, ap, subst, ◌≡◌, refl, String,
  Option, List, suc, none, lookup, ℤ, ◌≤◌, All, ℕ, if◌then◌else◌,
}
use rithmic_nt_connect.Values.{Value, Result, ok, err, Error}
use rithmic_nt_connect.Notice.{Fields}
use rithmic_nt_connect.Notice.Identity.{fill_identity_ts, fill_dedup_key}
use rithmic_nt_connect.OrderPlant.{latch, allow_submit, allow_modify, allow_cancel}
use rithmic_nt_connect.Core.Lru
use rithmic_nt_connect.Core.Lru.{Lru}
use rithmic_nt_connect.Core.Lru.Bounds.{IsValid, lookup-insert_self}
use rithmic_nt_connect.Core.Lru.Eviction.{has_miss, lookup-put}
use rithmic_nt_connect.Nautilus.{Library, Order, Event}
use rithmic_nt_connect.Client.Fills.{commission_rate}
use rithmic_nt_connect.Client.State.{Host, mark_fill_key, ◌>>=◌, fill_key_seen, latch_order_plant}
use rithmic_nt_connect.Intake.Dispatch.{exceeds, handle_tracked_fill, fill_terms, send_fill}
use rithmic_nt_connect.Intake.Tracked.{AllGatesShut}

-- One delivery of a tracked fill: the arguments of the handler.
pub record Delivery (Price : Type 0) : Type 0 where
  pub order : Order Price
  pub cid : String
  pub vid : String
  pub fields : Fields
  pub ts : ℤ
  pub qty : ℤ
  pub px : Value
  pub trade_id : String

module _ {Price : Type 0} (nt : Library Price) where
  abbrev pub key_of : Delivery Price → String
  key_of d = fill_dedup_key nt.show_float d.fields (fill_identity_ts d.fields)

  abbrev pub terms_of : Delivery Price → Host Price → Result (Option (ℤ × Price))
  terms_of d h = fill_terms nt d.order d.qty d.px h

  abbrev pub deliver : Delivery Price → Host Price → Result (Unit {0}) × Host Price
  deliver d h = handle_tracked_fill nt d.order d.cid d.vid d.fields d.ts d.qty d.px d.trade_id h

  abbrev pub deliver_all : List (Delivery Price) → Host Price → Host Price
  deliver_all [] h = h
  deliver_all (d ∷ ds) h = deliver_all ds (deliver d h).1

  abbrev pub event_of : Delivery Price → ℤ → Price → Host Price → Event Price
  event_of d n p h =
      Event.filled d.cid d.vid d.trade_id n p
        (commission_rate nt h d.order.instrument_id d.fields.symbol) d.ts

  abbrev or_rest :
      (ℤ → Price → Event Price)
      → List (Event Price)
      → Result (Option (ℤ × Price))
      → List (Event Price)
  or_rest priced rest (err e) = rest
  or_rest priced rest (ok none) = rest
  or_rest priced rest (ok (some (n, p))) = priced n p ∷ []

  -- what ought to go out: the first delivery that can be priced, and no other
  abbrev pub first_priced : List (Delivery Price) → Host Price → List (Event Price)
  first_priced [] h = []
  first_priced (d ∷ ds) h = or_rest (λ n p. event_of d n p h) (first_priced ds h) (terms_of d h)

  seen_delivery :
      (d : Delivery Price) (h : Host Price) (x : Unit {0} × ℕ)
      → lookup (key_of d) h.seen_fill_keys.entries ≡ some x
      → deliver d h ≡ (ok tt, record h { seen_fill_keys = Lru.touch (key_of d) h.seen_fill_keys })
  unfolding handle_tracked_fill ◌>>=◌ fill_key_seen Lru.has
  seen_delivery d h x e = rw (e, Lru.has) refl

  raising_delivery :
      (d : Delivery Price) (h : Host Price) (e : Error)
      → lookup (key_of d) h.seen_fill_keys.entries ≡ none
      → terms_of d h ≡ err e
      → deliver d h ≡ (err e, h)
  unfolding handle_tracked_fill ◌>>=◌ fill_key_seen
  raising_delivery d h e fresh t = rw (has_miss (key_of d) h.seen_fill_keys fresh, t) refl

  unpriced_delivery :
      (d : Delivery Price) (h : Host Price)
      → lookup (key_of d) h.seen_fill_keys.entries ≡ none
      → terms_of d h ≡ ok none
      → deliver d h ≡ (ok tt, record h { order_plant = latch h.order_plant })
  unfolding handle_tracked_fill ◌>>=◌ fill_key_seen send_fill latch_order_plant
  unpriced_delivery d h fresh t = rw (has_miss (key_of d) h.seen_fill_keys fresh, t) refl

  priced_delivery :
      (d : Delivery Price) (h : Host Price) (n : ℤ) (p : Price)
      → lookup (key_of d) h.seen_fill_keys.entries ≡ none
      → terms_of d h ≡ ok (some (n, p))
      → deliver d h ≡ (
        ok tt,
        record h {
          order_plant =
              if exceeds nt n d.order.leaves_qty then latch h.order_plant else h.order_plant;
          seen_fill_keys = Lru.put (key_of d) tt h.seen_fill_keys;
          emitted = h.emitted ++ event_of d n p h ∷ [];
        },
      )
  unfolding handle_tracked_fill ◌>>=◌ fill_key_seen send_fill latch_order_plant mark_fill_key
      commission_rate
  priced_delivery d h n p fresh t =
      rw (has_miss (key_of d) h.seen_fill_keys fresh, t)
        (elim (Bool-cases (exceeds nt n d.order.leaves_qty)) [
          | inl e ↦ rw e refl
          | inr e ↦ rw e refl
        ])

  -- the key of a fill that went out stays in the store while that fill alone is delivered
  abbrev InStore : String → Host Price → Type 0
  InStore k h = (x : Unit {0} × ℕ) × (lookup k h.seen_fill_keys.entries ≡ some x)

  touch-InStore :
      (k : String) (c : Lru (Unit {0})) (x : Unit {0} × ℕ)
      → lookup k c.entries ≡ some x
      → lookup k (Lru.touch k c).entries ≡ some (x.0, suc c.clock)
  unfolding Lru.touch
  touch-InStore k c x e = rw (e, Lru.touch) (lookup-insert_self k (x.0, suc c.clock) c.entries)

  InStore-sends_nothing :
      (k : String) (ds : List (Delivery Price)) (h : Host Price)
      → All (λ d. key_of d ≡ k) ds
      → InStore k h
      → (deliver_all ds h).emitted ≡ h.emitted
  InStore-sends_nothing k [] h same seen = refl
  InStore-sends_nothing k (d ∷ ds) h (q, same) (x, e) =
      let step = seen_delivery d h x (ap (λ j. lookup j h.seen_fill_keys.entries) q ∙ e) in
      subst (λ r. (deliver_all ds r.1).emitted ≡ h.emitted) (sym step)
        (InStore-sends_nothing k ds _ same (
          (x.0, suc h.seen_fill_keys.clock),
          subst
              (λ j.
                lookup k (Lru.touch j h.seen_fill_keys).entries
                ≡ some (x.0, suc h.seen_fill_keys.clock))
              (sym q) (touch-InStore k h.seen_fill_keys x e),
        ))

  -- the plant has no part in what a fill is sent with
  first_priced-plant :
      (ds : List (Delivery Price)) (h : Host Price)
      → first_priced ds (record h { order_plant = latch h.order_plant }) ≡ first_priced ds h
  unfolding fill_terms commission_rate
  first_priced-plant [] h = refl
  first_priced-plant (d ∷ ds) h =
      ap (λ rest. or_rest (λ n p. event_of d n p h) rest (terms_of d h)) (first_priced-plant ds h)

  append_nothing : {A : Type 0} (xs : List A) → xs ++ [] ≡ xs
  append_nothing [] = refl
  append_nothing (x ∷ xs) = ap (λ l. x ∷ l) (append_nothing xs)

  -- Deliveries of one fill with a new key send the first that can be priced.
  sends_first_priced :
      (k : String) (ds : List (Delivery Price)) (h : Host Price)
      → IsValid h.seen_fill_keys
      → 1 ≤ h.seen_fill_keys.max_size
      → lookup k h.seen_fill_keys.entries ≡ none
      → All (λ d. key_of d ≡ k) ds
      → (deliver_all ds h).emitted ≡ h.emitted ++ first_priced ds h
  sends_first_priced k [] h valid room fresh same = sym (append_nothing h.emitted)
  sends_first_priced k (d ∷ ds) h valid room fresh (q, same) =
      go (λ h1 v r f. sends_first_priced k ds h1 v r f same) (terms_of d h) refl
    where
      new : lookup (key_of d) h.seen_fill_keys.entries ≡ none
      new = ap (λ j. lookup j h.seen_fill_keys.entries) q ∙ fresh

      go :
          ((h1 : Host Price)
            → IsValid h1.seen_fill_keys
            → 1 ≤ h1.seen_fill_keys.max_size
            → lookup k h1.seen_fill_keys.entries ≡ none
            → (deliver_all ds h1).emitted ≡ h1.emitted ++ first_priced ds h1)
          → (t : Result (Option (ℤ × Price))) → terms_of d h ≡ t
          → (deliver_all ds (deliver d h).1).emitted ≡ h.emitted ++ first_priced (d ∷ ds) h
      go rest (err e) p = rw (raising_delivery d h e new p, p) (rest h valid room fresh)
      go rest (ok none) p =
          rw (unpriced_delivery d h new p, p)
            (rest _ valid room fresh ∙ ap (λ l. h.emitted ++ l) (first_priced-plant ds h))
      go rest (ok (some (n, price))) p =
          rw (priced_delivery d h n price new p, p)
            (InStore-sends_nothing k ds _ same (
              _,
              subst
                  (λ j.
                    lookup k (Lru.put j tt h.seen_fill_keys).entries
                    ≡ some (tt, suc h.seen_fill_keys.clock))
                  (sym q) (lookup-put k tt h.seen_fill_keys valid room),
            ))

  delivery-plant :
      (d : Delivery Price) (h : Host Price) → AllGatesShut h → AllGatesShut (deliver d h).1
  unfolding allow_submit allow_modify allow_cancel latch
  delivery-plant d h shut = elim (Option-cases (lookup (key_of d) h.seen_fill_keys.entries)) [
    | inr (x, e) ↦ subst (λ r. AllGatesShut r.1) (sym (seen_delivery d h x e)) shut
    | inl fresh ↦ go fresh (terms_of d h) refl
  ]
    where
      go :
          lookup (key_of d) h.seen_fill_keys.entries ≡ none
          → (t : Result (Option (ℤ × Price))) → terms_of d h ≡ t
          → AllGatesShut (deliver d h).1
      go fresh (err e) p = subst (λ r. AllGatesShut r.1) (sym (raising_delivery d h e fresh p)) shut
      go fresh (ok none) p =
          subst (λ r. AllGatesShut r.1) (sym (unpriced_delivery d h fresh p)) (refl, (refl, refl))
      go fresh (ok (some (n, price))) p =
          subst (λ r. AllGatesShut r.1) (sym (priced_delivery d h n price fresh p))
            (elim (Bool-cases (exceeds nt n d.order.leaves_qty)) [
              | inl e ↦ rw e (refl, (refl, refl))
              | inr e ↦ rw e shut
            ])

  deliveries-plant :
      (ds : List (Delivery Price)) (h : Host Price)
      → AllGatesShut h
      → AllGatesShut (deliver_all ds h)
  deliveries-plant [] h shut = shut
  deliveries-plant (d ∷ ds) h shut = deliveries-plant ds (deliver d h).1 (delivery-plant d h shut)

  -- A tracked fill whose key is new to a valid store with room for an entry, and whose quantity or
  -- price does not convert, is not lost: submits, modifies and cancels are shut and stay so over any
  -- redeliveries of that fill, one after the other, and of all these deliveries the first whose terms
  -- convert goes out, with its own terms and rate, and no other; nothing goes out where none does.
  pub unpriced_fill_is_sent_later :
      (d : Delivery Price) (ds : List (Delivery Price)) (h : Host Price)
      → IsValid h.seen_fill_keys
      → 1 ≤ h.seen_fill_keys.max_size
      → lookup (key_of d) h.seen_fill_keys.entries ≡ none
      → terms_of d h ≡ ok none
      → All (λ e. key_of e ≡ key_of d) ds
      → AllGatesShut (deliver_all (d ∷ ds) h)
        × ((deliver_all (d ∷ ds) h).emitted ≡ h.emitted ++ first_priced (d ∷ ds) h)
  unfolding allow_submit allow_modify allow_cancel latch
  unpriced_fill_is_sent_later d ds h valid room fresh bad same = (
    deliveries-plant ds (deliver d h).1 (
        subst (λ r. AllGatesShut r.1) (sym (unpriced_delivery d h fresh bad)) (refl, (refl, refl))),
    sends_first_priced (key_of d) (d ∷ ds) h valid room fresh (refl, same),
  )
