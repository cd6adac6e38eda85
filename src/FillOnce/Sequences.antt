-- ===== src/FillOnce/Sequences.antt =====
-- Any number of deliveries of one fill, over the live feed and over reconciliation, in any order.
use rithmic_nt_connect.Base.{
  ℕ, suc, ◌+◌, ◌≤◌, ◌≡◌, Option, String, inl, inr, arith, ℤ, List, [], ◌∷◌, subst,
}
use rithmic_nt_connect.Notice.{Fields}
use rithmic_nt_connect.Notice.Identity.{fill_identity_ts, fill_dedup_key}
use rithmic_nt_connect.Nautilus.{Library}
use rithmic_nt_connect.Client.State.{Host}
use rithmic_nt_connect.Client.Keeps.Quiet.{fill_events}
use rithmic_nt_connect.Recon.Rows.{DrainRowResult}
use rithmic_nt_connect.Recon.Reports.{fill_row}
use rithmic_nt_connect.Intake.Dispatch.{handle_order_notification}
use rithmic_nt_connect.FillOnce.{StoreOk, HasKey, Outcome, OutcomeOf, reported}
use rithmic_nt_connect.FillOnce.Paths.{no_report, one_report, recon-Outcome}
use rithmic_nt_connect.FillOnce.Notices.{handle_order_notification-Outcome}

-- A notification of the live feed, or a row of a fill reconciliation with its filters.
pub data Delivery (Price : Type 0) : Type 0 where
  notified : (f : Fields) (now : ℤ) → Delivery Price
  reconciled :
      (instrument_id venue_order_id : Option String) (now : ℤ) (row : DrainRowResult Price)
      → Delivery Price

module _ {Price : Type 0} (nt : Library Price) where
  unfoldable pub delivery_key : Delivery Price → String
  delivery_key (notified f now) = fill_dedup_key nt.show_float f (fill_identity_ts f)
  delivery_key (reconciled i v now row) = fill_dedup_key nt.show_float row.fields row.ts_event

  -- One delivery: the client after it, and the fill reports that its caller returns to the engine.
  unfoldable pub deliver : Delivery Price → Host Price → Host Price × ℕ
  deliver (notified f now) h = (
    (handle_order_notification nt f now h).1,
    reported no_report (handle_order_notification nt f now h).0,
  )
  deliver (reconciled i v now row) h =
      ((fill_row nt i v now row h).1, reported one_report (fill_row nt i v now row h).0)

  unfoldable pub deliver_all : List (Delivery Price) → Host Price → Host Price × ℕ
  unfolding deliver
  deliver_all [] h = (h, 0)
  deliver_all (d ∷ ds) h =
      let (h1, n) = deliver d h in let (h2, m) = deliver_all ds h1 in (h2, n + m)

  -- every delivery carries the fill with the key `key`
  abbrev pub SameFill : String → List (Delivery Price) → Type 0
  SameFill key [] = Unit {0}
  SameFill key (d ∷ ds) = (delivery_key d ≡ key) × SameFill key ds

  abbrev fills_out : Host Price × ℕ → ℕ
  fills_out (h, n) = fill_events h.emitted + n

  deliver-Outcome :
      (key : String) (d : Delivery Price) (h : Host Price)
      → delivery_key d ≡ key
      → Outcome key h (deliver d h).0 (deliver d h).1
  unfolding deliver delivery_key
  deliver-Outcome key (notified f now) h same =
      subst (λ k. OutcomeOf no_report k h (handle_order_notification nt f now h)) same
        (handle_order_notification-Outcome nt f now h)
  deliver-Outcome key (reconciled i v now row) h same = recon-Outcome nt key i v now row h same

  known_sends_nothing :
      (key : String) (ds : List (Delivery Price)) (h : Host Price)
      → SameFill key ds
      → StoreOk h
      → HasKey key h
      → fills_out (deliver_all ds h) ≡ fill_events h.emitted
  unfolding deliver_all
  known_sends_nothing key [] h same s k = omega arith
  known_sends_nothing key (d ∷ ds) h (same, rest) s k = elim (deliver-Outcome key d h same) [
    | inl q ↦
        let ih = known_sends_nothing key ds (deliver d h).0 rest (q.keeps_ok s) (q.keeps_key k) in
        omega (arith, q.sent, ih)
    | inr q ↦ absurd (ground (arith, q.fresh, k.1))
  ]

  -- However often and over whichever path one fill is delivered, the engine receives it at most
  -- once, the reports that reconciliation returns included, when the client starts with a valid
  -- dedup store that has room for a key.
  pub one_fill_one_report :
      (key : String) (ds : List (Delivery Price)) (h : Host Price)
      → SameFill key ds
      → StoreOk h
      → fills_out (deliver_all ds h) ≤ suc (fill_events h.emitted)
  unfolding deliver_all
  one_fill_one_report key [] h same s = omega arith
  one_fill_one_report key (d ∷ ds) h (same, rest) s = elim (deliver-Outcome key d h same) [
    | inl q ↦
        let ih = one_fill_one_report key ds (deliver d h).0 rest (q.keeps_ok s) in
        omega (arith, q.sent, ih)
    | inr q ↦
        let ih = known_sends_nothing key ds (deliver d h).0 rest (q.keeps_ok s) (q.known s) in
        omega (arith, q.sent, ih)
  ]
