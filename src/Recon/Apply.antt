-- ===== src/Recon/Apply.antt =====
-- recon.py: what reconciliation does with one row.
use rithmic_nt_connect.Base.{
  true, false, Option, none, some, List, [], ◌∷◌, ◌++◌, ◌≡◌, refl, ◌⊎◌, inl, inr, String,
  Bool-cases, Option-cases, is_some, if◌then◌else◌, All, subst, sym, ◌∙◌,
}
use mathlib.Core.Bool.{true≢false}
use rithmic_nt_connect.Values.{text_or_empty, Result, ok, err, query_unavailable}
use rithmic_nt_connect.Core.DrainRules.{stale_reason}
use rithmic_nt_connect.OrderRows.{is_terminal}
use rithmic_nt_connect.Nautilus.{Library, Cache, Order, Event, OrderStatusReport}
use rithmic_nt_connect.Client.State.{Host, ◌>>=◌, emit}
use rithmic_nt_connect.Client.Identity.{drain_client_order_id, bind_venue_id}
use rithmic_nt_connect.Recon.Rows.{DrainRowResult}
use rithmic_nt_connect.Recon.Reports.{
  apply_row, row_stale_reason, order_stale_reason, non_terminal, publish_then_bind,
  publish_order_status_report, bind_row, forwarded,
}
use rithmic_nt_connect.Recon.Stale.{RowOrder, IsStale, row_stale_reason-IsStale, fresh_row, Binds}

module _ {Price : Type 0} (nt : Library Price) where
  abbrev pub Bound : Host Price → DrainRowResult Price → Cache Price → Type 0
  Bound h row c =
      ((cid : String) × (Binds h row cid
          × (c ≡ nt.add_venue_order_id h.cache cid (text_or_empty row.fields.basket_id))))
      ⊎ ((¬ ((cid : String) × Binds h row cid)) × (c ≡ h.cache))

  skip_stale :
      (h : Host Price) (row : DrainRowResult Price)
      → is_some (row_stale_reason (drain_client_order_id h.cache row.fields) row true h) ≡ true
      → apply_row nt row h ≡ (ok tt, h)
  unfolding apply_row
  skip_stale h row s = elim (Option-cases row.report) [
    | inl e ↦ rw (e, apply_row) refl
    | inr (r, e) ↦ rw (e, apply_row, s) refl
  ]

  -- What became of a report: refused, with nothing changed, or sent, with the venue id bound.
  abbrev pub Published :
      Host Price
      → DrainRowResult Price
      → OrderStatusReport Price
      → Result (Unit {0}) × Host Price
      → Type 0
  Published h row report (r, h1) =
      ((nt.send_fails report ≡ true) × ((r ≡ err query_unavailable) × (h1 ≡ h)))
      ⊎ ((nt.send_fails report ≡ false)
          × ((r ≡ ok tt)
              × ((h1.emitted ≡ h.emitted ++ Event.status_reported report ∷ [])
                  × Bound h row h1.cache)))

  -- What became of a row: skipped, for want of a report or as stale, or its report was published.
  abbrev pub RowOutcome :
      Host Price → DrainRowResult Price → Result (Unit {0}) × Host Price → Type 0
  RowOutcome h row (r, h1) =
      (((row.report ≡ none) ⊎ IsStale h row) × ((r ≡ ok tt) × (h1 ≡ h)))
      ⊎ ((report : OrderStatusReport Price) × ((row.report ≡ some report)
            × ((¬ IsStale h row) × Published h row report (r, h1))))

  abbrev BindsOnly : Host Price → DrainRowResult Price → Result (Unit {0}) × Host Price → Type 0
  BindsOnly h row (r, h1) = (r ≡ ok tt) × ((h1.emitted ≡ h.emitted) × Bound h row h1.cache)

  bind_row-Bound :
      (row : DrainRowResult Price) (h : Host Price) (cid : Option String)
      → drain_client_order_id h.cache row.fields ≡ cid
      → BindsOnly h row (bind_row nt cid row h)
  unfolding bind_row bind_venue_id
  bind_row-Bound row h none q = (refl, (refl, inr (λ (cid, (e, b)). cc, refl)))
  bind_row-Bound row h (some cid) q = elim (Bool-cases row.bindable) [
    | inr b ↦ unbound (simp (b, bind_row)) (λ (c, (e, (b1, (o1, v1)))). true≢false (sym b1 ∙ b))
    | inl b ↦ elim (Bool-cases (is_some (h.cache.order cid))) [
      | inr o ↦ unbound (simp (b, o, bind_row)) (λ (c, (e, (b1, (o1, v1)))). cc)
      | inl o ↦ elim (Bool-cases (is_some (h.cache.venue_order_id cid))) [
        | inl v ↦ unbound (simp (b, o, v, bind_row)) (λ (c, (e, (b1, (o1, v1)))). cc)
        | inr v ↦ bound (simp (b, o, v, bind_row)) (q, (b, (o, v)))
      ]
    ]
  ]
    where
      bound :
          bind_row nt (some cid) row h ≡ bind_venue_id nt cid (text_or_empty row.fields.basket_id) h
          → Binds h row cid
          → BindsOnly h row (bind_row nt (some cid) row h)
      bound e w = subst (BindsOnly h row) (sym e) (refl, (refl, inl (cid, (w, refl))))

      unbound :
          bind_row nt (some cid) row h ≡ (ok tt, h)
          → ¬ ((c : String) × Binds h row c)
          → BindsOnly h row (bind_row nt (some cid) row h)
      unbound e free = subst (BindsOnly h row) (sym e) (refl, (refl, inr (free, refl)))

  publish-Published :
      (row : DrainRowResult Price) (report : OrderStatusReport Price) (h : Host Price)
      → Published h row report
          (publish_then_bind nt (drain_client_order_id h.cache row.fields) row report h)
  unfolding publish_then_bind publish_order_status_report ◌>>=◌ emit
  publish-Published row report h = elim (Bool-cases (nt.send_fails report)) [
    | inl e ↦ rw (e, publish_then_bind, publish_order_status_report) (inl (refl, (refl, refl)))
    | inr e ↦
        rw (e, publish_then_bind, publish_order_status_report)
          (inr (
            refl,
            bind_row-Bound row (emit (Event.status_reported report) h).1
                (drain_client_order_id h.cache row.fields) refl,
          ))
  ]

  -- A drained row at a re-arm is skipped with nothing changed exactly when it has no report or is
  -- stale: its order is closed locally, or is open with an event later than the time of the row. Any other row has its report
  -- published: when the engine refuses it, "query unavailable" is raised with nothing changed and no
  -- venue id bound; else the report goes out once, and the venue id is bound exactly where the row
  -- is bindable to an order that is cached and has none yet.
  pub apply_row-Outcome :
      (row : DrainRowResult Price) (h : Host Price) → RowOutcome h row (apply_row nt row h)
  unfolding apply_row
  apply_row-Outcome row h = elim (Option-cases row.report) [
    | inl e ↦ rw (e, apply_row) (inl (inl refl, (refl, refl)))
    | inr (r, e) ↦
        elim (Bool-cases
          (is_some (row_stale_reason (drain_client_order_id h.cache row.fields) row true h))) [
            | inl s ↦
                subst (RowOutcome h row) (sym (skip_stale h row s))
                  (inl (inr (row_stale_reason-IsStale h row s), (refl, refl)))
            | inr s ↦
                subst (RowOutcome h row) (sym (published r e s))
                  (inr (r, (e, (fresh_row h row s, publish-Published row r h))))
          ]
  ]
    where
      published :
          (r : OrderStatusReport Price)
          → row.report ≡ some r
          → is_some (row_stale_reason (drain_client_order_id h.cache row.fields) row true h) ≡ false
          → apply_row nt row h
            ≡ publish_then_bind nt (drain_client_order_id h.cache row.fields) row r h
      published r e s = simp (apply_row, e, s)

  abbrev pub In : DrainRowResult Price → List (DrainRowResult Price) → Type 0
  In row [] = ⊥
  In row (r ∷ rows) = (row ≡ r) ⊎ In row rows

  -- the report of a row, and it is terminal where the row's order is closed locally
  abbrev pub FromRow : Host Price → List (DrainRowResult Price) → OrderStatusReport Price → Type 0
  FromRow h rows r =
      (row : DrainRowResult Price) × (In row rows
        × ((row.report ≡ some r)
            × ((o : Order Price)
                → RowOrder h row o
                → o.is_closed ≡ true
                → is_terminal r.order_status ≡ true)))

  FromRow-more :
      (h : Host Price) (row : DrainRowResult Price) (rows : List (DrainRowResult Price))
      (rs : List (OrderStatusReport Price))
      → All (FromRow h rows) rs
      → All (FromRow h (row ∷ rows)) rs
  FromRow-more h row rows [] a = tt
  FromRow-more h row rows (r ∷ rs) ((w, (m, p)), a) =
      ((w, (inr m, p)), FromRow-more h row rows rs a)

  fresh_is_terminal :
      (h : Host Price) (row : DrainRowResult Price) (r : OrderStatusReport Price) (o : Order Price)
      → row.report ≡ some r
      → is_some (row_stale_reason (drain_client_order_id h.cache row.fields) row false h) ≡ false
      → RowOrder h row o
      → o.is_closed ≡ true
      → is_terminal r.order_status ≡ true
  unfolding row_stale_reason order_stale_reason stale_reason non_terminal
  fresh_is_terminal h row r o e s (cid, (d, q)) c = elim (Bool-cases (is_terminal r.order_status)) [
    | inl t ↦ t
    | inr t ↦ absurd (true≢false (sym (lagging t) ∙ s))
  ]
    where
      lagging :
          is_terminal r.order_status ≡ false
          → is_some (row_stale_reason (drain_client_order_id h.cache row.fields) row false h) ≡ true
      lagging t =
          simp (d, q, c, e, t, row_stale_reason, order_stale_reason, stale_reason, non_terminal)

  -- the reports that one row adds
  abbrev added : DrainRowResult Price → Host Price → List (OrderStatusReport Price)
  added row h =
      if is_some (row_stale_reason (drain_client_order_id h.cache row.fields) row false h)
      then []
      else elim row.report [ none ↦ [] | some r ↦ r ∷ [] ]

  forwarded-cons :
      (row : DrainRowResult Price) (rows : List (DrainRowResult Price)) (h : Host Price)
      → forwarded nt (row ∷ rows) h ≡ added row h ++ forwarded nt rows h
  unfolding forwarded
  forwarded-cons row rows h =
      elim (Bool-cases
        (is_some (row_stale_reason (drain_client_order_id h.cache row.fields) row false h))) [
          | inl s ↦ simp (forwarded, s)
          | inr s ↦ elim (Option-cases row.report) [
            | inl e ↦ simp (forwarded, s, e)
            | inr (r, e) ↦ simp (forwarded, s, e)
          ]
        ]

  added-FromRow :
      (row : DrainRowResult Price) (rows : List (DrainRowResult Price))
      (rs : List (OrderStatusReport Price)) (h : Host Price)
      → All (FromRow h (row ∷ rows)) rs
      → All (FromRow h (row ∷ rows)) (added row h ++ rs)
  added-FromRow row rows rs h more =
      elim (Bool-cases
        (is_some (row_stale_reason (drain_client_order_id h.cache row.fields) row false h))) [
          | inl s ↦ rw s more
          | inr s ↦ elim (Option-cases row.report) [
            | inl e ↦
                subst (λ a. All (FromRow h (row ∷ rows)) (a ++ rs)) (sym (none_added s e)) more
            | inr (r, e) ↦
                subst (λ a. All (FromRow h (row ∷ rows)) (a ++ rs)) (sym (one_added s r e))
                  ((row, (inl refl, (e, λ o at c. fresh_is_terminal h row r o e s at c))), more)
          ]
        ]
    where
      none_added :
          is_some (row_stale_reason (drain_client_order_id h.cache row.fields) row false h) ≡ false
          → row.report ≡ none
          → added row h ≡ []
      none_added s e = simp (s, e)

      one_added :
          is_some (row_stale_reason (drain_client_order_id h.cache row.fields) row false h) ≡ false
          → (r : OrderStatusReport Price) → row.report ≡ some r
          → added row h ≡ r ∷ []
      one_added s r e = simp (s, e)

  -- Bulk reconciliation never reopens an order: each report it forwards is the report of one of its
  -- rows, and it is terminal when that row's order is closed locally.
  pub forwarded-FromRow :
      (rows : List (DrainRowResult Price)) (h : Host Price)
      → All (FromRow h rows) (forwarded nt rows h)
  unfolding forwarded
  forwarded-FromRow [] h = tt
  forwarded-FromRow (row ∷ rows) h =
      subst (All (FromRow h (row ∷ rows))) (sym (forwarded-cons row rows h)) (
        added-FromRow row rows (forwarded nt rows h) h
          (FromRow-more h row rows (forwarded nt rows h) (forwarded-FromRow rows h)))
