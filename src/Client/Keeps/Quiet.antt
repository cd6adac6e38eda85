-- ===== src/Client/Keeps/Quiet.antt =====
-- Actions that touch no fill: the dedup store stays, and no fill goes out.
use rithmic_nt_connect.Base.{
  ◌≡◌, refl, ◌∙◌, true, false, Option, none, some, ℕ, ◌+◌, List, [], ◌∷◌, ◌++◌, arith, String, ℤ,
  Bool-cases, ◌⊎◌, inl, inr, Option-cases, is_some, ◌&&◌,
}
use rithmic_nt_connect.Values.{has_text}
use rithmic_nt_connect.Notice.{Fields}
use rithmic_nt_connect.Nautilus.{Event, Library, OrderStatusReport}
use rithmic_nt_connect.Client.State.{
  Host, Action, emit, seed_account_if_needed, latch_order_plant, announce, set_account, account_raw,
}
use rithmic_nt_connect.Client.Keeps.{Frame, Keeps, keeps_rules}
use rithmic_nt_connect.Client.Identity.{bind_venue_id}
use rithmic_nt_connect.Client.Fills.{fill_report_from_fields, seed_if, with_account}
use rithmic_nt_connect.Recon.Rows.{order_status_report_from_fields, drain_row_from_fields}
use rithmic_nt_connect.Recon.Reports.{publish_order_status_report}

-- How many of the events report a fill.
unfoldable pub fill_events : {Price : Type 0} → List (Event Price) → ℕ
fill_events [] = 0
fill_events (Event.filled _ _ _ _ _ _ _ ∷ es) = 1 + fill_events es
fill_events (Event.fill_reported _ ∷ es) = 1 + fill_events es
fill_events (_ ∷ es) = fill_events es

module _ {Price : Type 0} where
  pub fill_events-append :
      (es fs : List (Event Price)) → fill_events (es ++ fs) ≡ fill_events es + fill_events fs
  unfolding fill_events
  fill_events-append [] fs = ground arith
  fill_events-append (Event.filled a b c d e f g ∷ es) fs = ground (arith, fill_events-append es fs)
  fill_events-append (e ∷ es) fs = ground (arith, fill_events-append es fs)

  pub record SameFills (a b : Host Price) : Type 0 where
    pub store : b.seen_fill_keys ≡ a.seen_fill_keys
    pub sent : fill_events b.emitted ≡ fill_events a.emitted

  abbrev pub quiet : Frame Price
  quiet = record {
    Rel = SameFills;
    reflexive = λ h. record { store = refl; sent = refl };
    transitive = λ a b c p q. record { store = q.store ∙ p.store; sent = q.sent ∙ p.sent };
  }

  abbrev pub Quiet : {A : Type 0} → Action Price A → Type 0
  Quiet m = Keeps quiet m

-- Events that are no fills.
abbrev pub IsPlain : {Price : Type 0} → Event Price → Type 0
IsPlain e = fill_events (e ∷ []) ≡ 0

module _ {Price : Type 0} where
  pub IsPlain-status : (r : OrderStatusReport Price) → IsPlain (Event.status_reported r)
  unfolding fill_events
  IsPlain-status r = refl

  pub Quiet-emit : (e : Event Price) → IsPlain e → Quiet (emit e)
  unfolding fill_events emit
  Quiet-emit e p = record {
    at = λ h. record {
      store = refl;
      sent = fill_events-append h.emitted (e ∷ []) ∙ omega (arith, p);
    };
  }

  pub Quiet-latch : Quiet (latch_order_plant {Price = Price})
  unfolding latch_order_plant
  Quiet-latch = record { at = λ h. record { store = refl; sent = refl } }

  announced : (raw : String) (h : Host Price) → SameFills h (announce raw h)
  unfolding announce fill_events
  announced raw h = elim (Bool-cases h.account_seeded) [
    | inl e ↦ rw (e, announce) (record { store = refl; sent = refl })
    | inr e ↦
        rw (e, announce)
          (record {
            store = refl;
            sent = fill_events-append h.emitted (Event.account_seeded raw ∷ []) ∙ omega arith;
          })
  ]

  set_account-same : (raw : String) (h : Host Price) → SameFills h (set_account raw h)
  unfolding set_account
  set_account-same raw h = elim (Option-cases h.account_id) [
    | inl e ↦ rw (e, set_account) (record { store = refl; sent = refl })
    | inr (a, e) ↦ rw (e, set_account) (record { store = refl; sent = refl })
  ]

  pub Quiet-seed : (hint : Option String) → Quiet (seed_account_if_needed {Price = Price} hint)
  unfolding seed_account_if_needed
  Quiet-seed hint = record {
    at = λ h. seeded h (Bool-cases (h.account_seeded && is_some h.account_id));
  }
    where
      seeded :
          (h : Host Price)
          → ((h.account_seeded && is_some h.account_id) ≡ true)
            ⊎ ((h.account_seeded && is_some h.account_id) ≡ false)
          → SameFills h (seed_account_if_needed hint h).1
      seeded h (inl e) = rw (e, seed_account_if_needed) (record { store = refl; sent = refl })
      seeded h (inr e) = elim (Bool-cases (has_text (account_raw hint h))) [
        | inl p ↦
            rw (e, p, seed_account_if_needed)
              (quiet.transitive h _ _ (set_account-same _ h) (announced _ _))
        | inr p ↦ rw (e, p, seed_account_if_needed) (quiet.reflexive h)
      ]

  pub Quiet-seed_if : (account : Option String) → Quiet (seed_if {Price = Price} account)
  unfolding seed_if
  Quiet-seed_if account = search (keeps_rules, Quiet-seed)

module _ {Price : Type 0} (nt : Library Price) where
  pub Quiet-bind_venue_id : (cid vid : String) → Quiet (bind_venue_id nt cid vid)
  unfolding bind_venue_id
  Quiet-bind_venue_id cid vid = record { at = λ h. record { store = refl; sent = refl } }

  pub Quiet-publish : (r : OrderStatusReport Price) → Quiet (publish_order_status_report nt r)
  unfolding publish_order_status_report
  Quiet-publish r = search (keeps_rules, Quiet-emit, IsPlain-status)

  pub Quiet-report : (f : Fields) (ts now : ℤ) → Quiet (order_status_report_from_fields nt f ts now)
  unfolding order_status_report_from_fields
  Quiet-report f ts now = search (keeps_rules, Quiet-seed_if)

  pub Quiet-drain_row : (f : Fields) (ts now : ℤ) → Quiet (drain_row_from_fields nt f ts now)
  unfolding drain_row_from_fields
  Quiet-drain_row f ts now = search (keeps_rules, Quiet-report)

  pub Quiet-with_account :
      (f : Fields) (ts now : ℤ) (i : String) (a : Option String)
      → Quiet (with_account nt f ts now i a)
  unfolding with_account
  Quiet-with_account f ts now i none = search keeps_rules
  Quiet-with_account f ts now i (some a) = search keeps_rules depth 8

  pub Quiet-fill_report : (f : Fields) (ts now : ℤ) → Quiet (fill_report_from_fields nt f ts now)
  unfolding fill_report_from_fields
  Quiet-fill_report f ts now = search (keeps_rules, Quiet-seed_if, Quiet-with_account) depth 8
