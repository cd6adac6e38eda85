-- ===== src/Exposure/Counts.antt =====
-- execution.py: an order row that cannot be read leaves the count of working orders unknown.
use rithmic_nt_connect.Client.Returned.{returned}
use rithmic_nt_connect.Base.{
  ℕ, suc, ◌≤◌, ◌<◌, String, Bool, true, false, not, ◌&&◌, ◌||◌, Option, none, some, List, [], ◌∷◌,
  if◌then◌else◌, ℤ, eqb, ◌≡◌, refl, sym, ◌∙◌, ap, subst, arith, length, select, any, is_some,
}
use rithmic_nt_connect.Values.{Result, ok, err, has_text}
use rithmic_nt_connect.Core.ExposureRules.{exposure_complete, matches_root}
use rithmic_nt_connect.Notice.{Wire, Fields}
use rithmic_nt_connect.Notice.Normalize.{
  order_notification_to_fields, order_notification_to_fields-symbol,
}
use rithmic_nt_connect.Nautilus.{Library, OrderStatusReport}
use rithmic_nt_connect.Client.State.{Host, Action, ◌>>=◌, pure, given, lift}
use rithmic_nt_connect.Recon.Rows.{
  DrainRowResult, iter_drain_rows, read_row, visit, keep, drain_row_from_fields,
  order_status_report_from_fields, bindable_row, row_ts,
}
use rithmic_nt_connect.Exposure.{ExposureSnapshot, complete, exposure_snapshot}
use rithmic_nt_connect.Exposure.Feed.{Money, Client}
use rithmic_nt_connect.Exposure.Request.{
  of_root, root_rows, row_if, count_usable, known_or_none, working_orders_for_root, drained, as_int,
  counted_orders, request_exposure,
}

module _ {Price : Type 0} (nt : Library Price) where
  -- A row with fields and a basket.
  abbrev pub reads_with_basket : Wire → Bool
  reads_with_basket raw = elim (order_notification_to_fields nt.parse_float raw) [
    | err e ↦ false
    | ok f ↦ has_text f.basket_id
  ]

  abbrev usable : String → Wire → Bool
  usable root raw = of_root root raw.symbol && reads_with_basket raw

  drain_row-fields :
      (f : Fields) (ts now : ℤ) (h : Host Price) (row : DrainRowResult Price)
      → (drain_row_from_fields nt f ts now h).0 ≡ ok row
      → row.fields ≡ f
  unfolding drain_row_from_fields pure
  drain_row-fields f ts now h row e =
      let (report, (p, e1)) = returned (order_status_report_from_fields nt f ts now) _ h row e in
      let (b, (q, e2)) = returned (lift (bindable_row nt f report)) _ _ row e1 in fields_of _ row e2
    where
      fields_of :
          (a b : DrainRowResult Price)
          → ◌≡◌ {A = Result (DrainRowResult Price)} (ok a) (ok b)
          → b.fields ≡ a.fields
      fields_of a b e = cc

  kept :
      (row : DrainRowResult Price) (b : Bool) (a : Option (DrainRowResult Price))
      → ◌≡◌ {A = Result (Option (DrainRowResult Price))} (ok (if b then some row else none)) (ok a)
      → is_some a ≡ true
      → b ≡ true
  kept row true a e s = refl
  kept row false none e s = cc
  kept row false (some x) e s = cc

  none_kept :
      (b : Bool) (a : Option (DrainRowResult Price))
      → ◌≡◌ {A = Result (Option (DrainRowResult Price))} (ok none) (ok a)
      → is_some a ≡ true
      → b ≡ true
  none_kept b none e s = cc
  none_kept b (some x) e s = cc

  -- What the loop keeps of a row is of the root.
  visited :
      (root : String) (row : DrainRowResult Price) (h : Host Price)
      (a : Option (DrainRowResult Price))
      → (visit nt (row_if root) row h).0 ≡ ok a
      → is_some a ≡ true
      → of_root root row.fields.symbol ≡ true
  unfolding visit given pure
  visited root row h a e s = go row.report e
    where
      go :
          (report : Option (OrderStatusReport Price))
          → (given report (pure none) (λ r. row_if root row) h).0 ≡ ok a
          → of_root root row.fields.symbol ≡ true
      go none e = none_kept _ a e s
      go (some r) e = kept row (of_root root row.fields.symbol) a e s

  same_root :
      (root : String) (raw : Wire) (f : Fields)
      → order_notification_to_fields nt.parse_float raw ≡ ok f
      → of_root root f.symbol ≡ of_root root raw.symbol
  unfolding of_root
  same_root root raw f e =
      ap (λ x. matches_root x root) (order_notification_to_fields-symbol nt.parse_float raw f e)

  row_read :
      (root : String) (raw : Wire) (f : Fields) (now : ℤ) (h : Host Price)
      (a : Option (DrainRowResult Price))
      → order_notification_to_fields nt.parse_float raw ≡ ok f
      → ((drain_row_from_fields nt f (row_ts f) now >>= visit nt (row_if root)) h).0 ≡ ok a
      → is_some a ≡ true
      → of_root root raw.symbol ≡ true
  row_read root raw f now h a q e s =
      let (row, (p, e1)) =
        returned (drain_row_from_fields nt f (row_ts f) now) (visit nt (row_if root)) h a e in
      sym (same_root root raw f q)
      ∙ ap (λ x. of_root root x.symbol) (sym (drain_row-fields f (row_ts f) now h row p))
      ∙ visited root row _ a e1 s

  read_row-usable :
      (root : String) (raw : Wire) (now : ℤ) (h : Host Price) (a : Option (DrainRowResult Price))
      → (read_row nt raw now (row_if root) h).0 ≡ ok a
      → is_some a ≡ true
      → usable root raw ≡ true
  unfolding read_row pure
  read_row-usable root raw now h a e s = go (order_notification_to_fields nt.parse_float raw) refl e
    where
      go :
          (r : Result Fields)
          → order_notification_to_fields nt.parse_float raw ≡ r
          → (elim r as (λ x. Action Price (Option (DrainRowResult Price))) [
            | err e ↦ pure none
            | ok f ↦
                if has_text f.basket_id
                then drain_row_from_fields nt f (row_ts f) now >>= visit nt (row_if root)
                else pure none
          ]
              h).0
            ≡ ok a
          → usable root raw ≡ true
      go (err x) p e = none_kept _ a e s
      go (ok f) p e = read_or_not f p (has_text f.basket_id) refl e
        where
          both :
              of_root root raw.symbol ≡ true → reads_with_basket raw ≡ true → usable root raw ≡ true
          both x y = rw (x, y) refl

          read_or_not :
              (f : Fields)
              → order_notification_to_fields nt.parse_float raw ≡ ok f
              → (b : Bool) → has_text f.basket_id ≡ b
              → ((if b
                    then drain_row_from_fields nt f (row_ts f) now >>= visit nt (row_if root)
                    else pure none)
                  h).0
                ≡ ok a
              → usable root raw ≡ true
          read_or_not f p true t e =
              both (row_read root raw f now h a p e s) (rw (p, reads_with_basket) t)
          read_or_not f p false t e = none_kept _ a e s

  rows_of :
      {a b : List (DrainRowResult Price)}
      → ◌≡◌ {A = Result (List (DrainRowResult Price))} (ok a) (ok b)
      → a ≡ b
  rows_of e = cc

  not_both : false ≡ true → ⊥
  not_both e = cc

  -- The loop keeps no more rows than are usable.
  kept-le :
      (root : String) (events : List Wire) (now : ℤ) (h : Host Price)
      (rows : List (DrainRowResult Price))
      → (iter_drain_rows nt events now (row_if root) h).0 ≡ ok rows
      → length rows ≤ length (select (usable root) events)
  unfolding iter_drain_rows pure
  kept-le root [] now h [] e = ground arith
  kept-le root [] now h (r ∷ rows) e = cc
  kept-le root (raw ∷ events) now h rows e =
      let (a, (p, e1)) = returned (read_row nt raw now (row_if root)) _ h rows e in
      let (rest, (q, e2)) = returned (iter_drain_rows nt events now (row_if root)) _ _ rows e1 in
      keep-le a rest rows (usable root raw) (read_row-usable root raw now h a p) e2
        (kept-le root events now _ rest q)
    where
      keep-le :
          (a : Option (DrainRowResult Price)) (rest rows : List (DrainRowResult Price)) (b : Bool)
          → (is_some a ≡ true → b ≡ true)
          → ◌≡◌ {A = Result (List (DrainRowResult Price))} (ok (keep nt a rest)) (ok rows)
          → length rest ≤ length (select (usable root) events)
          → length rows
            ≤ length (if b then raw ∷ select (usable root) events else select (usable root) events)
      keep-le none rest rows true g e l =
          subst (λ x. length x ≤ suc (length (select (usable root) events))) (rows_of e)
            (omega (arith, l))
      keep-le none rest rows false g e l =
          subst (λ x. length x ≤ length (select (usable root) events)) (rows_of e) l
      keep-le (some r) rest rows true g e l =
          subst (λ x. length x ≤ suc (length (select (usable root) events))) (rows_of e)
            (omega (arith, l))
      keep-le (some r) rest rows false g e l = absurd (not_both (g refl))

  fewer_usable :
      (root : String) (events : List Wire)
      → any (λ raw. of_root root raw.symbol && not (reads_with_basket raw)) events ≡ true
      → length (select (usable root) events) < root_rows root events
  unfolding root_rows
  fewer_usable root [] e = cc
  fewer_usable root (raw ∷ events) e =
      step (of_root root raw.symbol) (reads_with_basket raw) e (fewer_usable root events)
        (usable-le root events)
    where
      usable-le :
          (root : String) (es : List Wire) → length (select (usable root) es) ≤ root_rows root es
      usable-le root [] = omega arith
      usable-le root (x ∷ es) = ground (arith, usable-le root es)

      step :
          (b r : Bool)
          → (b && not r
              || any (λ raw. of_root root raw.symbol && not (reads_with_basket raw)) events)
            ≡ true
          → (any (λ raw. of_root root raw.symbol && not (reads_with_basket raw)) events ≡ true
              → length (select (usable root) events) < root_rows root events)
          → length (select (usable root) events) ≤ root_rows root events
          → length
              (if b && r then raw ∷ select (usable root) events else select (usable root) events)
            < length (
                if b
                then raw ∷ select (λ raw. of_root root raw.symbol) events
                else select (λ raw. of_root root raw.symbol) events)
      step true true e k l = omega (arith, k e)
      step true false e k l = omega (arith, l)
      step false r e k l = k e

  -- A root row that does not read, or has no basket, leaves the count unknown.
  unread_row_no_count :
      (root : String) (events : List Wire) (now : ℤ) (h : Host Price) (n : Option ℕ)
      → any (λ raw. of_root root raw.symbol && not (reads_with_basket raw)) events ≡ true
      → (working_orders_for_root nt events root now h).0 ≡ ok n
      → n ≡ none
  unfolding working_orders_for_root known_or_none pure
  unread_row_no_count root events now h n bad e =
      let (rows, (p, e1)) = returned (iter_drain_rows nt events now (row_if root)) _ h n e in
      counted rows n _
        (different (length rows) (root_rows root events) (kept-le root events now h rows p)
          (fewer_usable root events bad))
        e1
    where
      different : (a b : ℕ) {m : ℕ} → a ≤ m → m < b → eqb a b ≡ false
      different a b l k = ground arith

      counted :
          (rows : List (DrainRowResult Price)) (n : Option ℕ) (h : Host Price)
          → eqb (length rows) (root_rows root events) ≡ false
          → (known_or_none nt root events now rows h).0 ≡ ok n
          → n ≡ none
      counted rows n h b e =
          none_of n (
            subst (λ x. ((if x then count_usable nt events now rows else pure none) h).0 ≡ ok n) b
              e)
        where
          none_of : (n : Option ℕ) → ◌≡◌ {A = Result (Option ℕ)} (ok none) (ok n) → n ≡ none
          none_of n e = cc

module _ {Price Decimal : Type 0} (nt : Library Price) (money : Money Decimal) where
  uncounted :
      (now : ℤ) (r : Result (Option ℕ))
      → ((n : Option ℕ) → r ≡ ok n → n ≡ none)
      → (drained now r).0 ≡ none
  unfolding drained as_int
  uncounted now (err e) k = refl
  uncounted now (ok n) k = ap as_int (k n refl)

  incomplete : (s : ExposureSnapshot) → s.open_orders ≡ none → complete s ≡ false
  unfolding complete exposure_complete
  incomplete s e = ap (λ o. exposure_complete s.net o s.pnl_ts_ns s.drain_ts_ns) e ∙ go s.net
    where
      go : (net : Option ℤ) → exposure_complete net none s.pnl_ts_ns s.drain_ts_ns ≡ false
      go none = refl
      go (some n) = refl

  -- When a drain has a row of the root that does not normalize or has no basket, the snapshot that
  -- answers a request has no count of open orders and is not complete.
  pub unread_row_is_never_complete :
      (root : String) (events : List Wire) (now : ℤ) (c : Client Price Decimal)
      → any (λ raw. of_root root raw.symbol && not (reads_with_basket nt raw)) events ≡ true
      → ((request_exposure nt money root now (ok events) c).0.open_orders ≡ none)
        × (complete (request_exposure nt money root now (ok events) c).0 ≡ false)
  unfolding request_exposure counted_orders exposure_snapshot
  unread_row_is_never_complete root events now c bad =
      let n =
        uncounted now (working_orders_for_root nt events root now c.host).0
          (λ n e. unread_row_no_count nt root events now c.host n bad e) in
      (n, incomplete (request_exposure nt money root now (ok events) c).0 n)
