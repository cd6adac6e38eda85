-- ===== src/FillOnce/Notices.antt =====
-- What one order notification does with the fills that go out and with the dedup store.
use rithmic_nt_connect.Base.{
  refl, Option, none, some, String, if◌then◌else◌, ℤ, Bool-cases, Option-cases, inl, inr,
}
use rithmic_nt_connect.Values.{has_text, text_or_empty}
use rithmic_nt_connect.Notice.{Fields}
use rithmic_nt_connect.Notice.Identity.{fill_identity_ts, fill_dedup_key}
use rithmic_nt_connect.Nautilus.{Library, Order, Event, OrderStatusReport}
use rithmic_nt_connect.Client.State.{Host, StatusKey, pure, gets, lift}
use rithmic_nt_connect.Client.Identity.{bind_venue_id}
use rithmic_nt_connect.Client.Fills.{seed_if}
use rithmic_nt_connect.Client.Keeps.{keeps_rules, Keeps-gets, Keeps-lift, Keeps-pure, Keeps-if}
use rithmic_nt_connect.Client.Keeps.Quiet.{
  Quiet, fill_events, IsPlain, Quiet-emit, Quiet-seed_if, Quiet-bind_venue_id, Quiet-publish,
  Quiet-drain_row,
}
use rithmic_nt_connect.Intake.Actions.{
  OrderAction, accepts, cancels, triggers, rejects, modify_rejects, cancel_rejects, updates, fills,
}
use rithmic_nt_connect.Intake.Dispatch.{
  act, act_if, emit_accepted, emit_triggered_guarded, handle_tracked, event_time,
  resolve_updated_terms, publish_untracked_status, publish_changed, publish_new, status_unchanged,
  record_status, publish_for_account, has_identity, handle_untracked_notification, handle_resolved,
  handle_order_notification,
}
use rithmic_nt_connect.FillOnce.{OutcomeOf, Outcome-bind}
use rithmic_nt_connect.FillOnce.Paths.{no_report, Quiet-call, tracked-Outcome, untracked-Outcome}

module _ (Price : Type 0) where
  IsPlain-accepted : (c v : String) (ts : ℤ) → IsPlain {Price = Price} (Event.accepted c v ts)
  unfolding fill_events
  IsPlain-accepted c v ts = refl

  IsPlain-triggered : (c v : String) (ts : ℤ) → IsPlain {Price = Price} (Event.triggered c v ts)
  unfolding fill_events
  IsPlain-triggered c v ts = refl

  IsPlain-canceled : (c v : String) (ts : ℤ) → IsPlain {Price = Price} (Event.canceled c v ts)
  unfolding fill_events
  IsPlain-canceled c v ts = refl

  IsPlain-rejected : (c r : String) (ts : ℤ) → IsPlain {Price = Price} (Event.rejected c r ts)
  unfolding fill_events
  IsPlain-rejected c r ts = refl

  IsPlain-modify_rejected :
      (c v r : String) (ts : ℤ) → IsPlain {Price = Price} (Event.modify_rejected c v r ts)
  unfolding fill_events
  IsPlain-modify_rejected c v r ts = refl

  IsPlain-cancel_rejected :
      (c v r : String) (ts : ℤ) → IsPlain {Price = Price} (Event.cancel_rejected c v r ts)
  unfolding fill_events
  IsPlain-cancel_rejected c v r ts = refl

  IsPlain-updated :
      (c v : String) (n : ℤ) (p t : Option Price) (ts : ℤ) → IsPlain (Event.updated c v n p t ts)
  unfolding fill_events
  IsPlain-updated c v n p t ts = refl

ruleset plain_rules = (
  IsPlain-accepted, IsPlain-triggered, IsPlain-canceled, IsPlain-rejected, IsPlain-modify_rejected,
  IsPlain-cancel_rejected, IsPlain-updated,
)

module _ {Price : Type 0} (nt : Library Price) where
  Quiet-accepted : (o : Order Price) (c v : String) (ts : ℤ) → Quiet (emit_accepted nt o c v ts)
  unfolding emit_accepted
  Quiet-accepted o c v ts = search (keeps_rules, Quiet-emit, plain_rules)

  Quiet-triggered :
      (o : Order Price) (c v : String) (ts : ℤ) → Quiet (emit_triggered_guarded nt o c v ts)
  unfolding emit_triggered_guarded
  Quiet-triggered o c v ts = search (keeps_rules, Quiet-emit, plain_rules)

  Quiet-unchanged : (v : String) (k : StatusKey) → Quiet (status_unchanged nt v k)
  unfolding status_unchanged
  Quiet-unchanged v k = record { at = λ h. record { store = refl; sent = refl } }

  Quiet-record : (v : String) (k : StatusKey) → Quiet (record_status nt v k)
  unfolding record_status
  Quiet-record v k = record { at = λ h. record { store = refl; sent = refl } }

  Quiet-new : (r : OrderStatusReport Price) (k : StatusKey) → Quiet (publish_new nt r k)
  unfolding publish_new
  Quiet-new r k = search (keeps_rules, Quiet-publish, Quiet-record) depth 8

  Quiet-changed : (r : Option (OrderStatusReport Price)) → Quiet (publish_changed nt r)
  unfolding publish_changed
  Quiet-changed none = search keeps_rules
  Quiet-changed (some r) = search (keeps_rules, Quiet-unchanged, Quiet-new) depth 8

  Quiet-status : (f : Fields) (ts now : ℤ) → Quiet (publish_untracked_status nt f ts now)
  unfolding publish_untracked_status
  Quiet-status f ts now = search (keeps_rules, Quiet-drain_row, Quiet-changed) depth 8

module _ {Price : Type 0} (nt : Library Price) (f : Fields) (now : ℤ) where
  abbrev pub notice_key : String
  notice_key = fill_dedup_key nt.show_float f (fill_identity_ts f)

  act-Outcome :
      (o : Order Price) (c v : String) (ts : ℤ) (a : Option OrderAction) (h : Host Price)
      → OutcomeOf no_report notice_key h (act_if nt o c v f ts a h)
  unfolding act_if act
  act-Outcome o c v ts none h = Quiet-call notice_key (pure tt) h (Keeps-pure tt)
  act-Outcome o c v ts (some accepts) h = Quiet-call notice_key _ h (Quiet-accepted nt o c v ts)
  act-Outcome o c v ts (some (rejects r)) h =
      Quiet-call notice_key _ h (Quiet-emit _ (IsPlain-rejected _ c r ts))
  act-Outcome o c v ts (some (modify_rejects r)) h =
      Quiet-call notice_key _ h (Quiet-emit _ (IsPlain-modify_rejected _ c v r ts))
  act-Outcome o c v ts (some (cancel_rejects r)) h =
      Quiet-call notice_key _ h (Quiet-emit _ (IsPlain-cancel_rejected _ c v r ts))
  act-Outcome o c v ts (some (updates n p t)) h =
      Outcome-bind no_report notice_key (lift (resolve_updated_terms nt o n p t)) _ h (Keeps-lift _)
        λ terms h1 q. Quiet-call notice_key _ h1 (Quiet-emit _ (IsPlain-updated _ c v _ _ _ ts))
  act-Outcome o c v ts (some cancels) h =
      Quiet-call notice_key _ h (Quiet-emit _ (IsPlain-canceled _ c v ts))
  act-Outcome o c v ts (some triggers) h = Quiet-call notice_key _ h (Quiet-triggered nt o c v ts)
  act-Outcome o c v ts (some (fills n p i)) h =
      tracked-Outcome nt notice_key o c v f ts n p i h refl

  handle_tracked-Outcome :
      (cid : String) (o : Order Price) (h : Host Price)
      → OutcomeOf no_report notice_key h (handle_tracked nt f now cid o h)
  unfolding handle_tracked
  handle_tracked-Outcome cid o h =
      Outcome-bind no_report notice_key
        (if has_text f.basket_id then bind_venue_id nt cid (text_or_empty f.basket_id) else pure tt)
        _ h (Keeps-if (has_text f.basket_id) _ _ (Quiet-bind_venue_id nt cid _) (Keeps-pure tt))
        λ u h1 q1. Outcome-bind no_report notice_key (gets _) _ h1 (Keeps-gets _) λ vid h2 q2.
          Outcome-bind no_report notice_key (lift _) _ h2 (Keeps-lift _)
            λ a h3 q3. act-Outcome o cid vid (event_time f now) a h3

  publish-Outcome :
      (account : Option String) (h : Host Price)
      → OutcomeOf no_report notice_key h (publish_for_account nt f now account h)
  unfolding publish_for_account
  publish-Outcome none h = Quiet-call notice_key (pure tt) h (Keeps-pure tt)
  publish-Outcome (some account) h =
      Outcome-bind no_report notice_key (publish_untracked_status nt f (event_time f now) now) _ h
        (Quiet-status nt f (event_time f now) now)
        λ forwarded h1 q. elim (Bool-cases forwarded) [
          | inl b ↦ rw b (untracked-Outcome nt notice_key f now h1 refl)
          | inr b ↦ rw b (Quiet-call notice_key (pure tt) h1 (Keeps-pure tt))
        ]

  handle_untracked-Outcome :
      (h : Host Price) → OutcomeOf no_report notice_key h (handle_untracked_notification nt f now h)
  unfolding handle_untracked_notification
  handle_untracked-Outcome h = elim (Bool-cases (has_identity nt f)) [
    | inl b ↦ rw b (
        Outcome-bind no_report notice_key (seed_if f.account_id) _ h (Quiet-seed_if f.account_id)
          λ u h1 q1.
            Outcome-bind no_report notice_key (gets _) _ h1 (Keeps-gets _)
              λ account h2 q2. publish-Outcome account h2)
    | inr b ↦ rw b (Quiet-call notice_key (pure tt) h (Keeps-pure tt))
  ]

  handle_resolved-Outcome :
      (cid : Option String) (h : Host Price)
      → OutcomeOf no_report notice_key h (handle_resolved nt f now cid h)
  unfolding handle_resolved pure
  handle_resolved-Outcome none h = handle_untracked-Outcome h
  handle_resolved-Outcome (some cid) h = elim (Option-cases (h.cache.order cid)) [
    | inl e ↦ rw (e, handle_resolved) (Quiet-call notice_key (pure tt) h (Keeps-pure tt))
    | inr (o, e) ↦ rw (e, handle_resolved) (handle_tracked-Outcome cid o h)
  ]

  -- The whole handler: it sends nothing, or one fill whose key was new and is known from then on.
  pub handle_order_notification-Outcome :
      (h : Host Price) → OutcomeOf no_report notice_key h (handle_order_notification nt f now h)
  unfolding handle_order_notification
  handle_order_notification-Outcome h =
      Outcome-bind no_report notice_key (seed_if f.account_id) _ h (Quiet-seed_if f.account_id)
        λ u h1 q1.
          Outcome-bind no_report notice_key (gets _) _ h1 (Keeps-gets _)
            λ cid h2 q2. handle_resolved-Outcome cid h2
