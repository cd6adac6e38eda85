-- ===== src/Recon/Stale.antt =====
-- recon.py: when a row is stale at a re-arm, and where it may bind a venue id.
use rithmic_nt_connect.Base.{
  true, false, some, ◌≡◌, refl, ◌⊎◌, inl, inr, String, pos, Bool-cases, Option-cases, is_some,
  ltb_ℤ, eqb_ℤ, sym, ◌∙◌,
}
use mathlib.Core.Bool.{true≢false}
use rithmic_nt_connect.Core.DrainRules.{stale_reason}
use rithmic_nt_connect.Nautilus.{Order}
use rithmic_nt_connect.Client.State.{Host}
use rithmic_nt_connect.Client.Identity.{drain_client_order_id}
use rithmic_nt_connect.Recon.Rows.{DrainRowResult}
use rithmic_nt_connect.Recon.Reports.{row_stale_reason, order_stale_reason, age}

module _ {Price : Type 0} where
  -- the order that a row is about, as the cache knows it
  abbrev pub RowOrder : Host Price → DrainRowResult Price → Order Price → Type 0
  RowOrder h row o =
      (cid : String) × ((drain_client_order_id h.cache row.fields ≡ some cid)
        × (h.cache.order cid ≡ some o))

  pub closed_is_stale :
      (h : Host Price) (row : DrainRowResult Price) (o : Order Price)
      → RowOrder h row o
      → o.is_closed ≡ true
      → is_some (row_stale_reason (drain_client_order_id h.cache row.fields) row true h) ≡ true
  unfolding row_stale_reason order_stale_reason stale_reason
  closed_is_stale h row o (cid, (e, q)) c =
      rw (e, row_stale_reason, q, order_stale_reason, c, stale_reason) refl

  pub older_is_stale :
      (h : Host Price) (row : DrainRowResult Price) (o : Order Price)
      → RowOrder h row o
      → o.is_closed ≡ false
      → eqb_ℤ row.ts_event (pos 0) ≡ false
      → ltb_ℤ row.ts_event o.ts_last ≡ true
      → is_some (row_stale_reason (drain_client_order_id h.cache row.fields) row true h) ≡ true
  unfolding row_stale_reason order_stale_reason stale_reason age
  older_is_stale h row o (cid, (e, q)) c z l =
      rw (e, row_stale_reason, q, order_stale_reason, c, z, age, l, stale_reason) refl

  -- a row is stale: its order is closed locally, or is open and has an event later than the row
  abbrev pub IsStale : Host Price → DrainRowResult Price → Type 0
  IsStale h row =
      (o : Order Price) × (RowOrder h row o
        × ((o.is_closed ≡ true)
            ⊎ ((o.is_closed ≡ false)
                × ((eqb_ℤ row.ts_event (pos 0) ≡ false) × (ltb_ℤ row.ts_event o.ts_last ≡ true)))))

  pub row_stale_reason-IsStale :
      (h : Host Price) (row : DrainRowResult Price)
      → is_some (row_stale_reason (drain_client_order_id h.cache row.fields) row true h) ≡ true
      → IsStale h row
  unfolding row_stale_reason order_stale_reason stale_reason age
  row_stale_reason-IsStale h row s =
      elim (Option-cases (drain_client_order_id h.cache row.fields)) [
        | inl e ↦ absurd (never (simp (e, row_stale_reason)))
        | inr (cid, e) ↦ elim (Option-cases (h.cache.order cid)) [
          | inl q ↦ absurd (never (simp (e, q, row_stale_reason, order_stale_reason)))
          | inr (o, q) ↦ elim (Bool-cases o.is_closed) [
            | inl c ↦ (o, ((cid, (e, q)), inl c))
            | inr c ↦ elim (Bool-cases (eqb_ℤ row.ts_event (pos 0))) [
              | inl z ↦
                  absurd
                    (never (simp (e, q, c, z, row_stale_reason, order_stale_reason, stale_reason)))
              | inr z ↦ elim (Bool-cases (ltb_ℤ row.ts_event o.ts_last)) [
                | inl l ↦ (o, ((cid, (e, q)), inr (c, (z, l))))
                | inr l ↦ absurd (
                    never (
                      simp
                        (e, q, c, z, age, l, row_stale_reason, order_stale_reason, stale_reason)))
              ]
            ]
          ]
        ]
      ]
    where
      never :
          is_some (row_stale_reason (drain_client_order_id h.cache row.fields) row true h) ≡ false
          → ⊥
      never f = true≢false (sym s ∙ f)

  pub fresh_row :
      (h : Host Price) (row : DrainRowResult Price)
      → is_some (row_stale_reason (drain_client_order_id h.cache row.fields) row true h) ≡ false
      → ¬ IsStale h row
  fresh_row h row s (o, (at, inl c)) = true≢false (sym (closed_is_stale h row o at c) ∙ s)
  fresh_row h row s (o, (at, inr (c, (z, l)))) =
      true≢false (sym (older_is_stale h row o at c z l) ∙ s)

  -- the order to which the row binds its venue id: cached, and without one
  abbrev pub Binds : Host Price → DrainRowResult Price → String → Type 0
  Binds h row cid =
      (drain_client_order_id h.cache row.fields ≡ some cid)
      × ((row.bindable ≡ true)
          × ((is_some (h.cache.order cid) ≡ true) × (is_some (h.cache.venue_order_id cid) ≡ false)))
