-- ===== src/Commands/Distances.antt =====
-- execution.py: what `_bracket_ticks` has found when both legs of a bracket have ticks.
use rithmic_nt_connect.Base.{
  true, false, Option, none, some, ℤ, pos, ◌≡◌, ap, refl, inl, inr, Bool-cases, sym, ◌∙◌, arith,
  ltb_ℤ, leb_ℤ, subst,
}
use rithmic_nt_connect.Values
use rithmic_nt_connect.Values.{Float, Result, ok, err}
use rithmic_nt_connect.Nautilus.{Library, Order, Instrument}
use rithmic_nt_connect.Commands.Bracket.{
  positive_ticks, leg_ticks, ticks_between, both_ticks, or_none, ticks_with, not_positive,
  stop_price,
}

module _ {Price : Type 0} (nt : Library Price) where
  -- a leg has a price, which is n ticks, rounded and above zero, from the entry's
  abbrev pub LegAway : Float → Price → Option Price → ℤ → Type 0
  LegAway tick entry p n =
      (q : Price) × ((p ≡ some q)
        × ((ticks_between tick (nt.price_float entry) (nt.price_float q) ≡ ok n)
            × (ltb_ℤ (pos 0) n ≡ true)))

  positive_ticks-some : (m n : ℤ) → positive_ticks m ≡ some n → (m ≡ n) × (ltb_ℤ (pos 0) n ≡ true)
  unfolding positive_ticks
  positive_ticks-some m n e = elim (Bool-cases (leb_ℤ m (pos 0))) [
    | inl b ↦ absurd (none_is_not_some (sym (simp (b, positive_ticks)) ∙ e))
    | inr b ↦
        let q : m ≡ n = some_inj (sym (simp (b, positive_ticks)) ∙ e) in
        (q, subst (λ x. ltb_ℤ (pos 0) x ≡ true) q (ground (arith, b)))
  ]
    where
      none_is_not_some : ◌≡◌ {A = Option ℤ} none (some n) → ⊥
      none_is_not_some q = cc

      some_inj : ◌≡◌ {A = Option ℤ} (some m) (some n) → m ≡ n
      some_inj q = cc

  leg_ticks-LegAway :
      (tick : Float) (entry : Price) (p : Option Price) (n : ℤ)
      → leg_ticks nt tick entry p ≡ ok (some n)
      → LegAway tick entry p n
  unfolding leg_ticks
  leg_ticks-LegAway tick entry none n e = cc
  leg_ticks-LegAway tick entry (some q) n e =
      go (ticks_between tick (nt.price_float entry) (nt.price_float q)) refl e
    where
      go :
          (r : Result ℤ)
          → ticks_between tick (nt.price_float entry) (nt.price_float q) ≡ r
          → (Values.◌>>=◌ r (λ n. ok (positive_ticks n))) ≡ ok (some n)
          → LegAway tick entry (some q) n
      go (ok m) p e =
          let (same, above) = positive_ticks-some m n cc in (q, (refl, (p ∙ ap ok same, above)))
      go (err x) p e = cc

  both_some :
      (a b : Result (Option ℤ)) (s t : ℤ)
      → or_none nt (
          Values.◌>>=◌ {B = Option ℤ × Option ℤ} a
            λ s. Values.◌>>=◌ {B = Option ℤ × Option ℤ} b λ t. ok (s, t))
        ≡ (some s, some t)
      → (a ≡ ok (some s)) × (b ≡ ok (some t))
  unfolding or_none
  both_some (ok a) (ok b) s t e = (ap ok (ap (λ x. x.0) e), ap ok (ap (λ x. x.1) e))
  both_some (err x) b s t e = cc
  both_some (ok a) (err x) s t e = cc

  -- Both legs are away from the entry, by the tick of its instrument.
  abbrev pub Away :
      Option (Instrument Price) → Option Price → Order Price → Order Price → ℤ → ℤ → Type 0
  Away i entry stop target s t =
      (instrument : Instrument Price) × ((i ≡ some instrument)
        × ((not_positive instrument.price_increment ≡ false)
            × ((price : Price) × ((entry ≡ some price)
                  × (LegAway instrument.price_increment price (stop_price nt stop) s
                      × LegAway instrument.price_increment price target.price t)))))

  pub ticks_with-Away :
      (i : Option (Instrument Price)) (entry : Option Price) (stop target : Order Price) (s t : ℤ)
      → ticks_with nt i entry stop target ≡ (some s, some t)
      → Away i entry stop target s t
  unfolding ticks_with both_ticks
  ticks_with-Away (some i) (some entry) stop target s t e =
      elim (Bool-cases (not_positive i.price_increment)) [
        | inl b ↦ cc
        | inr b ↦
            let (p, q) =
              both_some (leg_ticks nt i.price_increment entry (stop_price nt stop))
                (leg_ticks nt i.price_increment entry target.price) s t
                (sym (simp (ticks_with, b)) ∙ e) in
            (
              i,
              (
                refl,
                (
                  b,
                  (
                    entry,
                    (
                      refl,
                      (
                        leg_ticks-LegAway i.price_increment entry (stop_price nt stop) s p,
                        leg_ticks-LegAway i.price_increment entry target.price t q,
                      ),
                    ),
                  ),
                ),
              ),
            )
      ]
  ticks_with-Away none entry stop target s t e = cc
  ticks_with-Away (some i) none stop target s t e = cc
