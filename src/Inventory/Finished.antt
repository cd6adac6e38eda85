-- ===== src/Inventory/Finished.antt =====
-- inventory.py: a basket that the venue has finished is never working again.
use rithmic_nt_connect.TextSets.{mem_text-add_text, mem_text-added}
use rithmic_nt_connect.Base.{
  ℕ, String, Bool, true, false, ◌||◌, Option, none, List, [], ◌∷◌, if◌then◌else◌, ℤ, ◌==◌, ◌≡◌,
  refl, sym, ◌∙◌, ap, subst, arith, lookup, insert, lookup-insert, lookup-erase, mem_text, strip,
  Bool-cases, inl, inr, eq_iff,
}
use rithmic_nt_connect.Values.{Float, Result, ok, ◌>>=◌, text_or_empty}
use rithmic_nt_connect.Values.Binds.{bind-ok}
use rithmic_nt_connect.Notice.{Wire, Fields}
use rithmic_nt_connect.Notice.Normalize.{order_notification_to_fields}
use rithmic_nt_connect.Convert.Pnl.{InstrumentPnl}
use rithmic_nt_connect.Core.InventoryRules.{PositionChange, position_change}
use rithmic_nt_connect.Inventory.{
  Inventory, WorkingOrder, as_int, is_gone, gone_row, finished, row_symbol, side_of_txn,
  still_working, gone_or_working, known_basket, ingest_order, ingest_position, changed,
  position_key, mark_observed,
}
use rithmic_nt_connect.Inventory.Events.{
  InventoryEvent, order_event, account_pnl, instrument_pnl, pnl_row, is_order_row, ingest,
  ingest_all,
}

-- A finished basket has no working order.
pub record Done (basket : String) (inv : Inventory) : Type 0 where
  pub in_done : mem_text basket inv.done_baskets ≡ true
  pub not_working : lookup basket inv.orders ≡ none

pub split_if :
    {P : Type 0} (b : Bool) (x y : Result Inventory) (next : Inventory)
    → (if b then x else y) ≡ ok next
    → (b ≡ true → x ≡ ok next → P)
    → (b ≡ false → y ≡ ok next → P)
    → P
split_if true x y next e t f = t refl e
split_if false x y next e t f = f refl e

module _ (parse_float : String → Option Float) (show_float : Float → String) where
  finished-Done :
      (b other : String) (inv : Inventory)
      → Done b inv
      → Done b (finished parse_float show_float other inv)
  unfolding finished
  finished-Done b other inv d = record {
    in_done = mem_text-add_text b other inv.done_baskets d.in_done;
    not_working = lookup-erase other b inv.orders ∙ ground (arith, d.not_working);
  }

  insert-Done :
      (b other : String) (o : WorkingOrder) (inv : Inventory)
      → other == b ≡ false
      → Done b inv
      → Done b (record inv { orders = insert other o inv.orders })
  insert-Done b other o inv n d = record {
    in_done = d.in_done;
    not_working = lookup-insert other b o inv.orders ∙ rw n d.not_working;
  }

  pub inv_of : {a b : Inventory} → ◌≡◌ {A = Result Inventory} (ok a) (ok b) → a ≡ b
  inv_of e = cc

  still_working-Done :
      (b : String) (w : Wire) (other : String) (unfilled : Option ℤ) (fields : Result Fields)
      (prev : Option WorkingOrder) (inv next : Inventory)
      → other == b ≡ false
      → still_working parse_float show_float w other unfilled fields prev inv ≡ ok next
      → Done b inv
      → Done b next
  unfolding still_working
  still_working-Done b w other unfilled fields prev inv next n e d =
      split_if (row_symbol parse_float show_float w prev == "") (ok inv) _ next e
        (λ s k. subst (Done b) (inv_of k) d)
        (λ s k.
          let (side, (p, k1)) =
            bind-ok (side_of_txn parse_float show_float w.transaction_type) _ next k in
          let (qty, (q, k2)) = bind-ok (as_int parse_float show_float w.quantity) _ next k1 in
          subst (Done b) (inv_of k2) (insert-Done b other _ inv n d))

  gone_or_working-Done :
      (b : String) (w : Wire) (other : String) (unfilled : Option ℤ) (fields : Result Fields)
      (inv : Inventory) (gone : Bool) (next : Inventory)
      → other == b ≡ false
      → gone_or_working parse_float show_float w other unfilled fields inv gone ≡ ok next
      → Done b inv
      → Done b next
  unfolding gone_or_working
  gone_or_working-Done b w other unfilled fields inv true next n e d =
      subst (Done b) (inv_of e) (finished-Done b other inv d)
  gone_or_working-Done b w other unfilled fields inv false next n e d =
      still_working-Done b w other unfilled fields (lookup other inv.orders) inv next n e d

  known_basket-Done :
      (b : String) (w : Wire) (other : String) (fields : Result Fields) (inv next : Inventory)
      → other == b ≡ false
      → known_basket parse_float show_float w other fields inv ≡ ok next
      → Done b inv
      → Done b next
  unfolding known_basket
  known_basket-Done b w other fields inv next n e d =
      let (unfilled, (p, e1)) =
        bind-ok (as_int parse_float show_float w.total_unfilled_size) _ next e in
      let (gone, (q, e2)) = bind-ok (gone_row parse_float show_float fields unfilled) _ next e1 in
      gone_or_working-Done b w other unfilled fields inv gone next n e2 d

  -- a basket that is looked at is not one of the finished
  other_basket :
      (b other : String) (inv : Inventory)
      → Done b inv
      → (other == "" || mem_text other inv.done_baskets) ≡ false
      → other == b ≡ false
  other_basket b other inv d e = elim (Bool-cases (other == b)) [
    | inr n ↦ n
    | inl s ↦ same_is_done ((eq_iff other b).0 s) d.in_done e
  ]
    where
      same_is_done :
          other ≡ b
          → mem_text b inv.done_baskets ≡ true
          → (other == "" || mem_text other inv.done_baskets) ≡ false
          → other == b ≡ false
      same_is_done s m e =
          absurd (never (other == "") _ e (ap (λ x. mem_text x inv.done_baskets) s ∙ m))
        where
          never : (x y : Bool) → (x || y) ≡ false → y ≡ true → ⊥
          never true y e f = cc
          never false y e f = cc

  ingest_order-Done :
      (b : String) (w : Wire) (inv next : Inventory)
      → ingest_order parse_float show_float w inv ≡ ok next
      → Done b inv
      → Done b next
  unfolding ingest_order
  ingest_order-Done b w inv next e d =
      let other = strip (text_or_empty w.basket_id) in
      split_if (other == "" || mem_text other inv.done_baskets) (ok inv) _ next e
        (λ s k. subst (Done b) (inv_of k) d)
        (λ s k.
          known_basket-Done b w other (order_notification_to_fields parse_float w) inv next
            (other_basket b other inv d s) k d)

  changed-Done :
      (b : String) (w : InstrumentPnl) (key : String) (c : PositionChange) (inv : Inventory)
      → Done b inv
      → Done b (changed parse_float show_float w key c inv)
  unfolding changed
  changed-Done b w key PositionChange.unknown inv d = record {
    in_done = d.in_done;
    not_working = d.not_working;
  }
  changed-Done b w key PositionChange.flat inv d = record {
    in_done = d.in_done;
    not_working = d.not_working;
  }
  changed-Done b w key (PositionChange.net n) inv d = record {
    in_done = d.in_done;
    not_working = d.not_working;
  }

  ingest_position-Done :
      (b : String) (w : InstrumentPnl) (inv next : Inventory)
      → ingest_position parse_float show_float w inv ≡ ok next
      → Done b inv
      → Done b next
  unfolding ingest_position
  ingest_position-Done b w inv next e d =
      split_if (strip (text_or_empty w.symbol) == "") (ok inv) _ next e
        (λ s k. subst (Done b) (inv_of k) d)
        (λ s k.
          let (n, (p, k1)) = bind-ok (as_int parse_float show_float w.net_quantity) _ next k in
          subst (Done b) (inv_of k1)
            (changed-Done b w (position_key parse_float show_float w) (position_change n) inv d))

  pnl_row-Done : (b : String) (now : ℕ) (inv : Inventory) → Done b inv → Done b (pnl_row now inv)
  unfolding pnl_row mark_observed
  pnl_row-Done b now inv d = record { in_done = d.in_done; not_working = d.not_working }

  ingest-Done :
      (b : String) (e : InventoryEvent) (now : ℕ) (inv next : Inventory)
      → ingest parse_float show_float e now inv ≡ ok next
      → Done b inv
      → Done b next
  unfolding ingest
  ingest-Done b (order_event w) now inv next e d =
      split_if (is_order_row w) _ (ok inv) next e (λ s k. ingest_order-Done b w inv next k d)
        (λ s k. subst (Done b) (inv_of k) d)
  ingest-Done b account_pnl now inv next e d = subst (Done b) (inv_of e) (pnl_row-Done b now inv d)
  ingest-Done b (instrument_pnl w) now inv next e d =
      ingest_position-Done b w (pnl_row now inv) next e (pnl_row-Done b now inv d)

  ingest_all-Done :
      (b : String) (events : List (InventoryEvent × ℕ)) (inv next : Inventory)
      → ingest_all parse_float show_float events inv ≡ ok next
      → Done b inv
      → Done b next
  unfolding ingest_all
  ingest_all-Done b [] inv next e d = subst (Done b) (inv_of e) d
  ingest_all-Done b ((event, now) ∷ events) inv next e d =
      let (mid, (p, e1)) = bind-ok (ingest parse_float show_float event now inv) _ next e in
      ingest_all-Done b events mid next e1 (ingest-Done b event now inv mid p d)

  gone_row-Done :
      (basket : String) (inv : Inventory) → Done basket (finished parse_float show_float basket inv)
  unfolding finished
  gone_row-Done basket inv = record {
    in_done = mem_text-added basket inv.done_baskets;
    not_working = lookup-erase basket basket inv.orders ∙ ground (arith, eq_iff basket basket);
  }

  gone_ingested :
      (w : Wire) (f : Fields) (unfilled : Option ℤ) (now : ℕ) (inv : Inventory)
      → is_order_row w ≡ true
      → (strip (text_or_empty w.basket_id) == ""
          || mem_text (strip (text_or_empty w.basket_id)) inv.done_baskets)
        ≡ false
      → order_notification_to_fields parse_float w ≡ ok f
      → as_int parse_float show_float w.total_unfilled_size ≡ ok unfilled
      → is_gone parse_float show_float f unfilled ≡ ok true
      → ingest parse_float show_float (order_event w) now inv
        ≡ ok (finished parse_float show_float (strip (text_or_empty w.basket_id)) inv)
  unfolding ingest ingest_order known_basket gone_row gone_or_working
  gone_ingested w f unfilled now inv r b o u g =
      ap (λ t. if t then ingest_order parse_float show_float w inv else ok inv) r
      ∙ ap
          (λ t.
            if t
            then ok inv
            else known_basket parse_float show_float w (strip (text_or_empty w.basket_id))
                (order_notification_to_fields parse_float w) inv)
          b
      ∙ ap (λ x. known_basket parse_float show_float w (strip (text_or_empty w.basket_id)) x inv) o
      ∙ ap
          (λ x. x >>= λ v. is_gone parse_float show_float f v >>= λ y.
            gone_or_working parse_float show_float w (strip (text_or_empty w.basket_id)) v (ok f)
              inv y)
          u
      ∙ ap
          (λ x. x >>= λ y.
            gone_or_working parse_float show_float w (strip (text_or_empty w.basket_id)) unfilled
              (ok f) inv y)
          g

  -- When a readable row of a basket that was not finished yet says that the order is gone, no later
  -- events, in any order, make that basket a working order again.
  pub finished_basket_stays_gone :
      (w : Wire) (f : Fields) (unfilled : Option ℤ) (now : ℕ) (inv last : Inventory)
      (events : List (InventoryEvent × ℕ))
      → is_order_row w ≡ true
      → (strip (text_or_empty w.basket_id) == ""
          || mem_text (strip (text_or_empty w.basket_id)) inv.done_baskets)
        ≡ false
      → order_notification_to_fields parse_float w ≡ ok f
      → as_int parse_float show_float w.total_unfilled_size ≡ ok unfilled
      → is_gone parse_float show_float f unfilled ≡ ok true
      → ingest_all parse_float show_float ((order_event w, now) ∷ events) inv ≡ ok last
      → lookup (strip (text_or_empty w.basket_id)) last.orders ≡ none
  unfolding ingest_all
  finished_basket_stays_gone w f unfilled now inv last events r b o u g e =
      let basket = strip (text_or_empty w.basket_id) in
      let (mid, (p, e1)) =
        bind-ok (ingest parse_float show_float (order_event w) now inv) _ last e in
      let gone = inv_of (sym (gone_ingested w f unfilled now inv r b o u g) ∙ p) in
      (ingest_all-Done basket events mid last e1
        (subst (Done basket) gone (gone_row-Done basket inv))).not_working
