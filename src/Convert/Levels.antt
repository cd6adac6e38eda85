-- ===== src/Convert/Levels.antt =====
-- _convert.py: the levels of an order book message.
use rithmic_nt_connect.Base.{
  ℕ, suc, ◌+◌, ◌≤◌, ◌<◌, Option, List, [], ◌∷◌, ◌++◌, ℤ, ◌≡◌, refl, sym, subst, arith, length, All,
}
use rithmic_nt_connect.Values.{Value, Float, Result, ok}
use rithmic_nt_connect.Values.Binds.{bind-ok}
use rithmic_nt_connect.Notice.Normalize.{ts_ns, instrument_id_from_symbol}
use rithmic_nt_connect.Convert.{Floats, require, require_value, to_float}
use rithmic_nt_connect.Convert.Book.{
  BookEvent, BookSide, bid, ask, Level, BookFields, column, check, required_ts, update_kind,
  levels_from, book_levels, order_book_to_fields,
}

-- Each order id is above the one before it, and the first is above `n`.
abbrev pub Ascending : ℕ → List Level → Type 0
Ascending n [] = Unit
Ascending n (l ∷ ls) = (n < l.order_id) × Ascending l.order_id ls

abbrev UpTo : ℕ → List Level → Type 0
UpTo m ls = All (λ l. l.order_id ≤ m) ls

weaker-Ascending : (m n : ℕ) (ls : List Level) → n ≤ m → Ascending m ls → Ascending n ls
weaker-Ascending m n [] p a = tt
weaker-Ascending m n (l ∷ ls) p (a, rest) = (omega (arith, p, a), rest)

append-Ascending :
    (n m : ℕ) (xs ys : List Level)
    → n ≤ m
    → Ascending n xs
    → UpTo m xs
    → Ascending m ys
    → Ascending n (xs ++ ys)
append-Ascending n m [] ys p a u b = weaker-Ascending m n ys p b
append-Ascending n m (x ∷ xs) ys p (a, rest) (u, us) b =
    (a, append-Ascending x.order_id m xs ys u rest us b)

module _ (fs : Floats) where
  -- What the loop over one side leaves.
  record Side (side : BookSide) (base i : ℕ) (prices : List Value) (ls : List Level) : Type 0 where
    ascending : Ascending (base + i) ls
    up_to : UpTo (base + i + length prices) ls
    one_each : length ls ≡ length prices
    on_side : All (λ l. l.side ≡ side) ls

  cons-Side :
      (side : BookSide) (base i : ℕ) (v : Value) (prices : List Value) (p z : Float)
      (rest : List Level)
      → Side side base (suc i) prices rest
      → Side side base i
          (v ∷ prices)
          (record { side = side; price = p; size = z; order_id = base + i + 1 } ∷ rest)
  cons-Side side base i v prices p z rest r = record {
    ascending = (omega arith, subst (λ n. Ascending n rest) (omega arith) r.ascending);
    up_to = (omega arith, subst (λ n. UpTo n rest) (omega arith) r.up_to);
    one_each = omega (arith, r.one_each);
    on_side = (refl, r.on_side);
  }

  ok_injective : {a b : List Level} → ◌≡◌ {A = Result (List Level)} (ok a) (ok b) → a ≡ b
  ok_injective e = cc

  levels_from-Side :
      (side : BookSide) (base i : ℕ) (prices sizes : List Value) (ls : List Level)
      → levels_from fs side base i prices sizes ≡ ok ls
      → Side side base i prices ls
  unfolding levels_from
  levels_from-Side side base i [] sizes ls e =
      subst (Side side base i []) (ok_injective e)
        record { ascending = tt; up_to = tt; one_each = refl; on_side = tt }
  levels_from-Side side base i (price ∷ prices) [] ls e = cc
  levels_from-Side side base i (price ∷ prices) (size ∷ sizes) ls e =
      let (p1, (q1, e1)) = bind-ok (require_value price) _ ls e in
      let (p2, (q2, e2)) = bind-ok (require_value size) _ ls e1 in
      let (p3, (q3, e3)) = bind-ok (to_float fs p1) _ ls e2 in
      let (p4, (q4, e4)) = bind-ok (to_float fs p2) _ ls e3 in
      let (rest, (q5, e5)) = bind-ok (levels_from fs side base (suc i) prices sizes) _ ls e4 in
      subst (Side side base i (price ∷ prices)) (ok_injective e5) (
        cons-Side side base i price prices p3 p4 rest
          (levels_from-Side side base (suc i) prices sizes rest q5))

  levels_of : (a b : BookFields) → ◌≡◌ {A = Result BookFields} (ok a) (ok b) → a.levels ≡ b.levels
  levels_of a b e = cc

  -- A book's levels: the bids, then the asks, with ascending order ids.
  pub record Levels (d : BookEvent) (ls : List Level) : Type 0 where
    pub bids : List Level
    pub asks : List Level
    pub sides : ls ≡ bids ++ asks
    pub all_bids : All (λ l. l.side ≡ bid) bids
    pub all_asks : All (λ l. l.side ≡ ask) asks
    pub bid_count : length bids ≡ length (column d.bid_price)
    pub ask_count : length asks ≡ length (column d.ask_price)
    pub ascending : Ascending 0 ls

  both-Levels :
      (d : BookEvent) (bids asks ls : List Level)
      → length (column d.bid_price) ≤ 1_000_000
      → Side bid 0 0 (column d.bid_price) bids
      → Side ask 1_000_000 0 (column d.ask_price) asks
      → bids ++ asks ≡ ls
      → Levels d ls
  both-Levels d bids asks ls n b a e = record {
    bids = bids;
    asks = asks;
    sides = sym e;
    all_bids = b.on_side;
    all_asks = a.on_side;
    bid_count = b.one_each;
    ask_count = a.one_each;
    ascending = subst (Ascending 0) e (
        append-Ascending 0 (0 + 0 + length (column d.bid_price)) bids asks (omega arith) b.ascending
          b.up_to
          (weaker-Ascending (1_000_000 + 0) (0 + 0 + length (column d.bid_price)) asks
            (omega (arith, n)) a.ascending));
  }

  book_levels-Levels :
      (d : BookEvent) (ls : List Level)
      → length (column d.bid_price) ≤ 1_000_000
      → book_levels fs d ≡ ok ls
      → Levels d ls
  unfolding book_levels
  book_levels-Levels d ls n e =
      let (u, (p, e1)) = bind-ok (check _) _ ls e in
      let (v, (q, e2)) = bind-ok (check _) _ ls e1 in
      let (w, (r, e3)) = bind-ok (check _) _ ls e2 in
      let (bids, (b, e4)) =
        bind-ok (levels_from fs bid 0 0 (column d.bid_price) (column d.bid_size)) _ ls e3 in
      let (asks, (a, e5)) =
        bind-ok (levels_from fs ask 1_000_000 0 (column d.ask_price) (column d.ask_size)) _ ls e4 in
      both-Levels d bids asks ls n
        (levels_from-Side bid 0 0 (column d.bid_price) (column d.bid_size) bids b)
        (levels_from-Side ask 1_000_000 0 (column d.ask_price) (column d.ask_size) asks a)
        (ok_injective e5)

  -- When a book message with at most a million bids converts, its levels are one for each bid, then
  -- one for each ask, with order ids that ascend through both sides, so that no two are the same.
  pub book_order_ids_ascend :
      (d : BookEvent) (ts_init : Option ℤ) (f : BookFields)
      → length (column d.bid_price) ≤ 1_000_000
      → order_book_to_fields fs d ts_init ≡ ok f
      → Levels d f.levels
  unfolding order_book_to_fields
  book_order_ids_ascend d ts_init f n e =
      let (symbol, (p, e1)) = bind-ok (require d.symbol) _ f e in
      let (venue_ts, (q, e2)) = bind-ok (ts_ns d.ts_event_ns d.ssboe d.usecs) _ f e1 in
      let (ts, (r, e3)) = bind-ok (required_ts _) _ f e2 in
      let (ls, (l, e4)) = bind-ok (book_levels fs d) _ f e3 in
      let (kind, (k, e5)) = bind-ok (update_kind d.update_type) _ f e4 in
      let (id, (i, e6)) = bind-ok (instrument_id_from_symbol symbol d.exchange) _ f e5 in
      subst (Levels d)
        (levels_of
          (record {
            instrument_id = id;
            symbol = symbol;
            exchange = d.exchange;
            update_kind = kind;
            levels = ls;
            ts_event = ts;
          })
          f e6)
        (book_levels-Levels d ls n l)
