-- ===== src/Rearm/Account.antt =====
-- execution.py: resolving and seeding the account leaves the order plant as it is.
use rithmic_nt_connect.Base.{
  String, Bool, true, false, ◌&&◌, Option, none, some, if◌then◌else◌, ◌≡◌, refl, ◌∙◌, is_some,
}
use rithmic_nt_connect.Values.{Result, ok, err, has_text, text_or_empty}
use rithmic_nt_connect.Client.State.{
  Host, seed_account_if_needed, announce, set_account, account_raw,
}
use rithmic_nt_connect.Rearm.{with_resolved, refresh_resolved_account, resolve_and_seed_account}

module _ {Price : Type 0} where
  either-plant :
      (b : Bool) (h x y : Host Price)
      → x.order_plant ≡ h.order_plant
      → y.order_plant ≡ h.order_plant
      → (if b then x else y).order_plant ≡ h.order_plant
  either-plant true h x y p q = p
  either-plant false h x y p q = q

  either_result-plant :
      (b : Bool) (h : Host Price) (x y : Result (Unit {0}) × Host Price)
      → x.1.order_plant ≡ h.order_plant
      → y.1.order_plant ≡ h.order_plant
      → (if b then x else y).1.order_plant ≡ h.order_plant
  either_result-plant true h x y p q = p
  either_result-plant false h x y p q = q

  set_account-plant :
      (raw : String) (h : Host Price) → (set_account raw h).order_plant ≡ h.order_plant
  unfolding set_account
  set_account-plant raw h = go h.account_id
    where
      go :
          (o : Option String)
          → (elim o as (λ x. Host Price) [
            | none ↦ record h { account_id = some raw }
            | some _ ↦ h
          ]).order_plant
            ≡ h.order_plant
      go none = refl
      go (some x) = refl

  announce-plant : (raw : String) (h : Host Price) → (announce raw h).order_plant ≡ h.order_plant
  unfolding announce
  announce-plant raw h = either-plant h.account_seeded h h _ refl refl

  seed-plant :
      (hint : Option String) (h : Host Price)
      → (seed_account_if_needed hint h).1.order_plant ≡ h.order_plant
  unfolding seed_account_if_needed
  seed-plant hint h =
      either_result-plant (h.account_seeded && is_some h.account_id) h (ok tt, h) _ refl
        (either_result-plant (has_text (account_raw hint h)) h _ (ok tt, h)
          (announce-plant (text_or_empty (account_raw hint h)) _
            ∙ set_account-plant (text_or_empty (account_raw hint h)) h)
          refl)

  refresh-plant :
      (answer : Result (Option String)) (h : Host Price)
      → (refresh_resolved_account answer h).order_plant ≡ h.order_plant
  unfolding refresh_resolved_account with_resolved
  refresh-plant answer h =
      either-plant (is_some h.resolved_account_raw) h h _ refl (resolved answer)
    where
      resolved :
          (answer : Result (Option String)) → (with_resolved answer h).order_plant ≡ h.order_plant
      resolved (ok (some id)) = either-plant (has_text (some id)) h _ h refl refl
      resolved (ok none) = refl
      resolved (err e) = refl

  pub resolve-plant :
      (answer : Result (Option String)) (h : Host Price)
      → (resolve_and_seed_account answer h).1.order_plant ≡ h.order_plant
  unfolding resolve_and_seed_account
  resolve-plant answer h =
      seed-plant none (refresh_resolved_account answer h) ∙ refresh-plant answer h
