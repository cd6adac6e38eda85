-- ===== src/Inventory/Unknown.antt =====
-- inventory.py: a contract whose row did not read keeps the positions from being live.
use rithmic_nt_connect.TextSets.{mem_text-add_text, mem_text-added, mem_text-discard}
use rithmic_nt_connect.Base.{
  ℕ, String, Bool, true, false, not, ◌||◌, Option, none, some, List, [], ◌∷◌, ℤ, ◌==◌, ◌≡◌, refl,
  sym, ◌∙◌, ap, subst, arith, lookup, lookup-insert, lookup-erase, mem_text, strip, eq_iff,
}
use rithmic_nt_connect.Values.{Float, Result, ok, text_or_empty}
use rithmic_nt_connect.Values.Binds.{bind-ok}
use rithmic_nt_connect.Notice.{Wire, Fields}
use rithmic_nt_connect.Convert.Pnl.{InstrumentPnl}
use rithmic_nt_connect.Core.InventoryRules
use rithmic_nt_connect.Core.InventoryRules.{PositionChange, position_change}
use rithmic_nt_connect.Inventory.{
  Inventory, as_int, finished, is_empty, pnl_live, side_of_txn, still_working, gone_or_working,
  known_basket, ingest_order, ingest_position, changed, position_key, mark_observed, gone_row,
  row_symbol,
}
use rithmic_nt_connect.Inventory.Events.{
  InventoryEvent, order_event, account_pnl, instrument_pnl, pnl_row, is_order_row, ingest,
  ingest_all,
}
use rithmic_nt_connect.Inventory.Finished.{split_if, inv_of}

-- The contract is unknown and has no position.
record Hidden (key : String) (inv : Inventory) : Type 0 where
  in_unknown : mem_text key inv.unknown_positions ≡ true
  no_position : lookup key inv.positions ≡ none

not_empty : (s : String) (set : List String) → mem_text s set ≡ true → is_empty set ≡ false
unfolding is_empty
not_empty s [] e = cc
not_empty s (x ∷ set) e = refl

module _ (parse_float : String → Option Float) (show_float : Float → String) where
  -- An event that does not make the contract readable again.
  pub data Leaves (key : String) : InventoryEvent → Type 0 where
    an_order : {w : Wire} → Leaves key (order_event w)
    an_account : Leaves key account_pnl
    another_contract :
        {d : InstrumentPnl}
        → position_key parse_float show_float d == key ≡ false
        → Leaves key (instrument_pnl d)
    unread :
        {d : InstrumentPnl}
        → as_int parse_float show_float d.net_quantity ≡ ok none
        → Leaves key (instrument_pnl d)

  pub data AllLeave (key : String) : List (InventoryEvent × ℕ) → Type 0 where
    no_more : AllLeave key []
    then_all :
        {e : InventoryEvent} {now : ℕ} {events : List (InventoryEvent × ℕ)}
        → Leaves key e
        → AllLeave key events
        → AllLeave key ((e, now) ∷ events)

  abbrev SamePositions : Inventory → Inventory → Type 0
  SamePositions a b = (b.unknown_positions ≡ a.unknown_positions) × (b.positions ≡ a.positions)

  ingest_order-SamePositions :
      (w : Wire) (inv next : Inventory)
      → ingest_order parse_float show_float w inv ≡ ok next
      → SamePositions inv next
  unfolding ingest_order known_basket gone_or_working still_working finished
  ingest_order-SamePositions w inv next e =
      split_if
        (strip (text_or_empty w.basket_id) == ""
          || mem_text (strip (text_or_empty w.basket_id)) inv.done_baskets)
        (ok inv) _ next e (λ s k. same inv next k refl refl)
        (λ s k.
          let (unfilled, (p, e1)) =
            bind-ok (as_int parse_float show_float w.total_unfilled_size) _ next k in
          let (gone, (q, e2)) = bind-ok (gone_row parse_float show_float _ unfilled) _ next e1 in
          settle unfilled _ gone e2)
    where
      same :
          (a b : Inventory)
          → ◌≡◌ {A = Result Inventory} (ok a) (ok b)
          → a.unknown_positions ≡ inv.unknown_positions
          → a.positions ≡ inv.positions
          → (b.unknown_positions ≡ inv.unknown_positions) × (b.positions ≡ inv.positions)
      same a b k u v = (cc, cc)

      settle :
          (unfilled : Option ℤ) (fields : Result Fields) (gone : Bool)
          → gone_or_working parse_float show_float w
              (strip (text_or_empty w.basket_id))
              unfilled
              fields
              inv
              gone
            ≡ ok next
          → (next.unknown_positions ≡ inv.unknown_positions) × (next.positions ≡ inv.positions)
      settle unfilled fields true k = same _ next k refl refl
      settle unfilled fields false k =
          split_if (row_symbol parse_float show_float w _ == "") (ok inv) _ next k
            (λ s k. same inv next k refl refl)
            (λ s k.
              let (side, (p, k1)) =
                bind-ok (side_of_txn parse_float show_float w.transaction_type) _ next k in
              let (qty, (q, k2)) = bind-ok (as_int parse_float show_float w.quantity) _ next k1 in
              same _ next k2 refl refl)

  other-Hidden :
      (key other : String) (d : InstrumentPnl) (c : PositionChange) (inv : Inventory)
      → other == key ≡ false
      → Hidden key inv
      → Hidden key (changed parse_float show_float d other c inv)
  unfolding changed
  other-Hidden key other d PositionChange.unknown inv n h = record {
    in_unknown = mem_text-add_text key other inv.unknown_positions h.in_unknown;
    no_position = lookup-erase other key inv.positions ∙ rw n h.no_position;
  }
  other-Hidden key other d PositionChange.flat inv n h = record {
    in_unknown = mem_text-discard key other inv.unknown_positions n h.in_unknown;
    no_position = lookup-erase other key inv.positions ∙ rw n h.no_position;
  }
  other-Hidden key other d (PositionChange.net m) inv n h = record {
    in_unknown = mem_text-discard key other inv.unknown_positions n h.in_unknown;
    no_position = lookup-insert other key _ inv.positions ∙ rw n h.no_position;
  }

  unread-Hidden :
      (key other : String) (d : InstrumentPnl) (inv : Inventory)
      → Hidden key inv
      → Hidden key (changed parse_float show_float d other PositionChange.unknown inv)
  unfolding changed
  unread-Hidden key other d inv h = record {
    in_unknown = mem_text-add_text key other inv.unknown_positions h.in_unknown;
    no_position = lookup-erase other key inv.positions ∙ ground (arith, h.no_position);
  }

  new-Hidden :
      (key : String) (d : InstrumentPnl) (inv : Inventory)
      → Hidden key (changed parse_float show_float d key PositionChange.unknown inv)
  unfolding changed
  new-Hidden key d inv = record {
    in_unknown = mem_text-added key inv.unknown_positions;
    no_position = lookup-erase key key inv.positions ∙ ground (arith, eq_iff key key);
  }

  pnl_row-Hidden :
      (key : String) (now : ℕ) (inv : Inventory) → Hidden key inv → Hidden key (pnl_row now inv)
  unfolding pnl_row mark_observed
  pnl_row-Hidden key now inv h = record { in_unknown = h.in_unknown; no_position = h.no_position }

  -- a position row that is ingested: skipped for want of a symbol, or a change of its contract
  position_ingested :
      {P : Type 0} (d : InstrumentPnl) (inv next : Inventory)
      → ingest_position parse_float show_float d inv ≡ ok next
      → (inv ≡ next → P)
      → ((n : Option ℤ)
          → as_int parse_float show_float d.net_quantity ≡ ok n
          → changed parse_float show_float d
              (position_key parse_float show_float d)
              (position_change n)
              inv
            ≡ next
          → P)
      → P
  unfolding ingest_position
  position_ingested d inv next e skipped read =
      split_if (strip (text_or_empty d.symbol) == "") (ok inv) _ next e
        (λ s k. skipped (inv_of parse_float show_float k))
        (λ s k.
          let (n, (p, k1)) = bind-ok (as_int parse_float show_float d.net_quantity) _ next k in
          read n p (inv_of parse_float show_float k1))

  unknown_change :
      (d : InstrumentPnl) (n : Option ℤ)
      → as_int parse_float show_float d.net_quantity ≡ ok none
      → as_int parse_float show_float d.net_quantity ≡ ok n
      → position_change n ≡ PositionChange.unknown
  unfolding position_change
  unknown_change d none p q = refl
  unknown_change d (some n) p q = cc

  ingest-Hidden :
      (key : String) (e : InventoryEvent) (now : ℕ) (inv next : Inventory)
      → Leaves key e
      → ingest parse_float show_float e now inv ≡ ok next
      → Hidden key inv
      → Hidden key next
  unfolding ingest
  ingest-Hidden key (order_event w) now inv next l e h =
      split_if (is_order_row w) _ (ok inv) next e
        (λ s k.
          let (u, v) = ingest_order-SamePositions w inv next k in
          record {
            in_unknown = ap (mem_text key) u ∙ h.in_unknown;
            no_position = ap (lookup key) v ∙ h.no_position;
          })
        (λ s k. subst (Hidden key) (inv_of parse_float show_float k) h)
  ingest-Hidden key account_pnl now inv next l e h =
      subst (Hidden key) (inv_of parse_float show_float e) (pnl_row-Hidden key now inv h)
  ingest-Hidden key (instrument_pnl d) now inv next (another_contract n) e h =
      position_ingested d (pnl_row now inv) next e
        (λ k. subst (Hidden key) k (pnl_row-Hidden key now inv h))
        (λ m p k. subst (Hidden key) k (
          other-Hidden key _ d (position_change m) (pnl_row now inv) n
            (pnl_row-Hidden key now inv h)))
  ingest-Hidden key (instrument_pnl d) now inv next (unread n) e h =
      position_ingested d (pnl_row now inv) next e
        (λ k. subst (Hidden key) k (pnl_row-Hidden key now inv h))
        (λ m p k. subst (Hidden key) k (
          subst
            (λ c. Hidden key (
              changed parse_float show_float d (position_key parse_float show_float d) c
                (pnl_row now inv)))
            (sym (unknown_change d m n p))
            (unread-Hidden key (position_key parse_float show_float d) d (pnl_row now inv)
              (pnl_row-Hidden key now inv h))))

  ingest_all-Hidden :
      (key : String) (events : List (InventoryEvent × ℕ)) (inv next : Inventory)
      → AllLeave key events
      → ingest_all parse_float show_float events inv ≡ ok next
      → Hidden key inv
      → Hidden key next
  unfolding ingest_all
  ingest_all-Hidden key [] inv next a e h = subst (Hidden key) (inv_of parse_float show_float e) h
  ingest_all-Hidden key ((event, now) ∷ events) inv next (then_all l a) e h =
      let (mid, (p, e1)) = bind-ok (ingest parse_float show_float event now inv) _ next e in
      ingest_all-Hidden key events mid next a e1 (ingest-Hidden key event now inv mid l p h)

  Hidden-not_live :
      (key : String) (settle : ℕ) (inv : Inventory) → Hidden key inv → pnl_live settle inv ≡ false
  unfolding pnl_live InventoryRules.pnl_live
  Hidden-not_live key settle inv h =
      ap (λ b. InventoryRules.pnl_live inv.pnl_first inv.observed_until (not b) settle)
        (not_empty key inv.unknown_positions h.in_unknown)
      ∙ go inv.pnl_first inv.observed_until
    where
      go : (first until : Option ℕ) → InventoryRules.pnl_live first until true settle ≡ false
      go none until = refl
      go (some f) none = refl
      go (some f) (some u) = refl

  -- When a position row of a contract has no readable net, the inventory is not live and has no
  -- position of that contract, whatever other events follow, until a readable row of the contract.
  pub unread_position_is_not_live :
      (d : InstrumentPnl) (now settle : ℕ) (inv last : Inventory)
      (events : List (InventoryEvent × ℕ))
      → strip (text_or_empty d.symbol) == "" ≡ false
      → as_int parse_float show_float d.net_quantity ≡ ok none
      → AllLeave (position_key parse_float show_float d) events
      → ingest_all parse_float show_float ((instrument_pnl d, now) ∷ events) inv ≡ ok last
      → (pnl_live settle last ≡ false)
        × (lookup (position_key parse_float show_float d) last.positions ≡ none)
  unfolding ingest_all ingest ingest_position
  unread_position_is_not_live d now settle inv last events s n a e =
      let (mid, (p, e1)) =
        bind-ok (ingest parse_float show_float (instrument_pnl d) now inv) _ last e in
      let hidden = ingest_all-Hidden key events mid last a e1 (
        split_if (strip (text_or_empty d.symbol) == "") (ok (pnl_row now inv)) _ mid p
          (λ t k. absurd (not_both s t))
          (λ t k.
            let (m, (q, k1)) = bind-ok (as_int parse_float show_float d.net_quantity) _ mid k in
            subst (Hidden key) (inv_of parse_float show_float k1) (
              subst (λ c. Hidden key (changed parse_float show_float d key c (pnl_row now inv)))
                (sym (unknown_change d m n q)) (new-Hidden key d (pnl_row now inv))))) in
      (Hidden-not_live key settle last hidden, hidden.no_position)
    where
      key : String
      key = position_key parse_float show_float d

      not_both : {b : Bool} → b ≡ false → b ≡ true → ⊥
      not_both f t = cc
