-- ===== src/FillOnce/Paths.antt =====
-- What one call of each path does with the fills that go out and with the dedup store.
use rithmic_nt_connect.Base.{
  ℕ, suc, ◌+◌, ◌≡◌, refl, Option, none, some, String, inl, inr, arith, lookup, if◌then◌else◌, ℤ, [],
  ◌∷◌, Bool-cases, ◌&&◌,
}
use rithmic_nt_connect.Values.{Value, Result, ok, err}
use rithmic_nt_connect.Notice.{Fields}
use rithmic_nt_connect.Notice.Identity.{fill_identity_ts, fill_dedup_key}
use rithmic_nt_connect.OrderRows.{is_kind}
use rithmic_nt_connect.Core.Lru
use rithmic_nt_connect.Core.Lru.Eviction.{put-IsValid, put-max_size, lookup-put}
use rithmic_nt_connect.Nautilus.{Library, Order, Event, FillReport, OrderStatusReport}
use rithmic_nt_connect.Client.State.{
  Host, Action, ◌>>=◌, pure, gets, asks, emit, mark_fill_key, latch_order_plant,
}
use rithmic_nt_connect.Client.Fills.{fill_report_from_fields}
use rithmic_nt_connect.Client.Keeps.{Keeps-asks, Keeps-gets, Keeps-pure, Keeps-if}
use rithmic_nt_connect.Client.Keeps.Quiet.{
  SameFills, Quiet, quiet, fill_events, fill_events-append, Quiet-latch, Quiet-fill_report,
  Quiet-drain_row, Quiet-publish,
}
use rithmic_nt_connect.Recon.Rows.{DrainRowResult, drain_row_from_fields, ts_or_now}
use rithmic_nt_connect.Recon.Reports.{
  fill_row, report_fill, publish_then_mark, publish_order_status_report,
}
use rithmic_nt_connect.Client.Identity.{matches_instrument}
use rithmic_nt_connect.Intake.Dispatch.{
  handle_tracked_fill, send_fill, exceeds, publish_untracked_fill, send_and_mark,
}
use rithmic_nt_connect.FillOnce.{Sent, Silent-SameFills, OutcomeOf, Outcome-bind, Outcome-guard}

abbrev pub no_report : Unit {0} → ℕ
no_report u = 0

-- the fill reports that reconciliation returns for a row
abbrev pub one_report : {Price : Type 0} → Option (FillReport Price) → ℕ
one_report none = 0
one_report (some r) = 1

module _ {Price : Type 0} (key : String) where
  -- `mark` after a fill went out, or with a fill report that is returned
  marked :
      (h h1 : Host Price) (n : ℕ)
      → h1.seen_fill_keys ≡ Lru.put key tt h.seen_fill_keys
      → fill_events h1.emitted + n ≡ suc (fill_events h.emitted)
      → lookup key h.seen_fill_keys.entries ≡ none
      → Sent key h h1 n
  marked h h1 n store sent fresh = record {
    sent = sent;
    fresh = fresh;
    keeps_ok = λ s. record {
      valid = rw store (put-IsValid key tt h.seen_fill_keys s.valid);
      room = rw (store, put-max_size key tt h.seen_fill_keys s.valid) s.room;
    };
    known = λ s.
        (suc h.seen_fill_keys.clock, rw store (lookup-put key tt h.seen_fill_keys s.valid s.room));
  }

  fresh_after :
      (h h1 : Host Price)
      → SameFills h h1
      → lookup key h.seen_fill_keys.entries ≡ none
      → lookup key h1.seen_fill_keys.entries ≡ none
  fresh_after h h1 q e = rw q.store e

  -- An event that reports a fill goes out, then its key is marked.
  emit_then_mark :
      (e : Event Price) (h : Host Price)
      → fill_events (e ∷ []) ≡ 1
      → lookup key h.seen_fill_keys.entries ≡ none
      → OutcomeOf no_report key h ((emit e >>= λ _. mark_fill_key key) h)
  unfolding ◌>>=◌ mark_fill_key
  emit_then_mark e h one fresh =
      inr (marked h _ 0 refl (omega (arith, fill_events-append h.emitted (e ∷ []), one)) fresh)

  pub Quiet-call :
      (m : Action Price (Unit {0})) (h : Host Price) → Quiet m → OutcomeOf no_report key h (m h)
  Quiet-call m h q = go (m h).0 (m h).1 (q.at h)
    where
      go :
          (r : Result (Unit {0})) (h1 : Host Price)
          → SameFills h h1
          → OutcomeOf no_report key h (r, h1)
      go (ok u) h1 s = inl (Silent-SameFills key h h1 s)
      go (err e) h1 s = inl (Silent-SameFills key h h1 s)

module _ {Price : Type 0} where
  counts_filled :
      (cid vid trade_id : String) (qty : ℤ) (px : Price) (rate : Option String) (ts : ℤ)
      → fill_events (Event.filled cid vid trade_id qty px rate ts ∷ []) ≡ 1
  unfolding fill_events
  counts_filled cid vid trade_id qty px rate ts = refl

  counts_reported : (r : FillReport Price) → fill_events (Event.fill_reported r ∷ []) ≡ 1
  unfolding fill_events
  counts_reported r = refl

module _ {Price : Type 0} (nt : Library Price) (key : String) where
  send_fill-Outcome :
      (order : Order Price) (cid vid trade_id : String) (ts : ℤ) (symbol : Option String)
      (terms : Option (ℤ × Price)) (h : Host Price)
      → lookup key h.seen_fill_keys.entries ≡ none
      → OutcomeOf no_report key h (send_fill nt order cid vid trade_id ts key symbol terms h)
  unfolding send_fill
  send_fill-Outcome order cid vid trade_id ts symbol none h e =
      Quiet-call key latch_order_plant h Quiet-latch
  send_fill-Outcome order cid vid trade_id ts symbol (some (qty, px)) h e =
      Outcome-bind no_report key
        (if exceeds nt qty order.leaves_qty then latch_order_plant else pure tt) _ h
        (Keeps-if (exceeds nt qty order.leaves_qty) _ _ Quiet-latch (Keeps-pure tt))
        λ u h1 q. Outcome-bind no_report key (gets _) _ h1 (Keeps-gets _) λ rate h2 q2.
          emit_then_mark key _ h2 (counts_filled cid vid trade_id qty px rate ts)
            (fresh_after key h1 h2 q2 (fresh_after key h h1 q e))

  -- A tracked fill under the key `key`.
  pub tracked-Outcome :
      (order : Order Price) (cid vid : String) (f : Fields) (ts qty : ℤ) (px : Value)
      (trade_id : String) (h : Host Price)
      → fill_dedup_key nt.show_float f (fill_identity_ts f) ≡ key
      → OutcomeOf no_report key h (handle_tracked_fill nt order cid vid f ts qty px trade_id h)
  unfolding handle_tracked_fill
  tracked-Outcome order cid vid f ts qty px trade_id h same = rw same (
      Outcome-guard no_report key tt _ h refl λ e.
        Outcome-bind no_report key (asks _) _ h (Keeps-asks _) λ terms h1 q.
          send_fill-Outcome order cid vid trade_id ts f.symbol terms h1 (fresh_after key h h1 q e))

  untracked_report-Outcome :
      (report : Option (FillReport Price)) (h : Host Price)
      → lookup key h.seen_fill_keys.entries ≡ none
      → OutcomeOf no_report key h (send_and_mark nt key report h)
  unfolding send_and_mark
  untracked_report-Outcome none h e = Quiet-call key (pure tt) h (Keeps-pure tt)
  untracked_report-Outcome (some r) h e = emit_then_mark key _ h (counts_reported r) e

  -- A fill of an order that the client does not track.
  pub untracked-Outcome :
      (f : Fields) (now : ℤ) (h : Host Price)
      → fill_dedup_key nt.show_float f (fill_identity_ts f) ≡ key
      → OutcomeOf no_report key h (publish_untracked_fill nt f now h)
  unfolding publish_untracked_fill
  untracked-Outcome f now h same = rw same (elim (Bool-cases (is_kind "filled" f.kind)) [
    | inl k ↦ rw k (
        Outcome-guard no_report key tt _ h refl λ e.
          Outcome-bind no_report key (fill_report_from_fields nt f (fill_identity_ts f) now) _ h
            (Quiet-fill_report nt f (fill_identity_ts f) now)
            λ report h1 q. untracked_report-Outcome report h1 (fresh_after key h h1 q e))
    | inr k ↦ rw k (Quiet-call key (pure tt) h (Keeps-pure tt))
  ])

  mark_and_return :
      (r : FillReport Price) (h : Host Price)
      → lookup key h.seen_fill_keys.entries ≡ none
      → OutcomeOf one_report key h ((mark_fill_key key >>= λ _. pure (some r)) h)
  unfolding ◌>>=◌ mark_fill_key
  mark_and_return r h e = inr (marked key h _ 1 refl (omega arith) e)

  nothing_returned : (h : Host Price) → OutcomeOf (one_report {Price = Price}) key h (pure none h)
  unfolding pure
  nothing_returned h = inl (Silent-SameFills key h h (quiet.reflexive h))

  publish_then_mark-Outcome :
      (r : FillReport Price) (status : Option (OrderStatusReport Price)) (h : Host Price)
      → lookup key h.seen_fill_keys.entries ≡ none
      → OutcomeOf one_report key h (publish_then_mark nt key r status h)
  unfolding publish_then_mark
  publish_then_mark-Outcome r none h e = nothing_returned h
  publish_then_mark-Outcome r (some status) h e =
      Outcome-bind one_report key (publish_order_status_report nt status) _ h
        (Quiet-publish nt status)
        λ sent h1 q. elim (Bool-cases sent) [
          | inl b ↦ rw b (mark_and_return r h1 (fresh_after key h h1 q e))
          | inr b ↦ rw b (nothing_returned h1)
        ]

  report_fill-Outcome :
      (row : DrainRowResult Price) (now : ℤ) (report : Option (FillReport Price)) (h : Host Price)
      → lookup key h.seen_fill_keys.entries ≡ none
      → OutcomeOf one_report key h (report_fill nt row now key report h)
  unfolding report_fill
  report_fill-Outcome row now none h e = nothing_returned h
  report_fill-Outcome row now (some r) h e =
      Outcome-bind one_report key
        (drain_row_from_fields nt row.fields (ts_or_now row.ts_event now) now) _ h
        (Quiet-drain_row nt row.fields (ts_or_now row.ts_event now) now)
        λ status h1 q. publish_then_mark-Outcome r status.report h1 (fresh_after key h h1 q e)

  -- A row of the fill reconciliation; the report it returns goes out too.
  pub recon-Outcome :
      (i vid : Option String) (now : ℤ) (row : DrainRowResult Price) (h : Host Price)
      → fill_dedup_key nt.show_float row.fields row.ts_event ≡ key
      → OutcomeOf one_report key h (fill_row nt i vid now row h)
  unfolding fill_row
  recon-Outcome i vid now row h same =
      rw same
        (elim (Bool-cases
          (is_kind "filled" row.fields.kind && matches_instrument row.fields i vid)) [
            | inl k ↦ rw k (
                Outcome-guard one_report key none _ h refl λ e.
                  Outcome-bind one_report key
                    (fill_report_from_fields nt row.fields row.ts_event now) _ h
                    (Quiet-fill_report nt row.fields row.ts_event now)
                    λ report h1 q. report_fill-Outcome row now report h1 (fresh_after key h h1 q e))
            | inr k ↦ rw k (nothing_returned h)
          ])
