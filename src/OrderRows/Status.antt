-- ===== src/OrderRows/Status.antt =====
-- order_rows.py: the evidence in a row for its status, and the terms of a trustworthy row.
use rithmic_nt_connect.Base.{
  String, true, false, Option, none, some, ℤ, pos, ◌≡◌, refl, ◌⊎◌, inl, inr, arith, ltb_ℤ, leb_ℤ,
  contains, codes, upper_string, ◌≢◌,
}
use rithmic_nt_connect.Values.{Result, ok, err, text_or_empty, ◌>>=◌}
use rithmic_nt_connect.Core.DrainRules
use rithmic_nt_connect.Core.DrainRules.{known}
use rithmic_nt_connect.Notice.{Fields, Side, order_side_from_notification}
use rithmic_nt_connect.OrderRows.{
  OrderType, OrderStatus, TimeInForce, filled, canceled, rejected, expired,
  price_type_to_order_type, duration_to_tif, order_type_from_fields, tif_from_fields,
  order_status_from_fields, is_terminal, row_is_trustworthy, is_kind, status_of, sizes, get_or,
  side_known,
}

-- The evidence that a row carries for a terminal status.
abbrev pub Evidence : Option String → String → ℤ → ℤ → OrderStatus → Type 0
Evidence kind status qty done filled =
    (is_kind "filled" kind ≡ true) ⊎ ((ltb_ℤ (pos 0) qty ≡ true) × (leb_ℤ qty done ≡ true))
Evidence kind status qty done canceled =
    (is_kind "canceled" kind ≡ true) ⊎ (status ≡ "CANCELLED") ⊎ (status ≡ "CANCELED")
Evidence kind status qty done rejected =
    (is_kind "rejected" kind ≡ true) ⊎ (contains (codes "REJECT") (codes status) ≡ true)
Evidence kind status qty done expired =
    (is_kind "expired" kind ≡ true) ⊎ (contains (codes "EXPIRED") (codes status) ≡ true)
Evidence kind status qty done _ = Unit {0}

-- A row that has a status has both sizes, and the ladder of tests decides it from them.
order_status-split :
    (f : Fields) (s : OrderStatus)
    → order_status_from_fields f ≡ ok s
    → (qty : ℤ) × (done : ℤ) × (sizes f.quantity f.total_fill_size ≡ ok (qty, done))
      × (status_of f.kind
            (upper_string (text_or_empty f.status))
            (order_type_from_fields f)
            qty
            done
          ≡ s)
unfolding order_status_from_fields
order_status-split f s h = go (sizes f.quantity f.total_fill_size) refl h
  where
    status : String
    status = upper_string (text_or_empty f.status)

    go :
        (r : Result (ℤ × ℤ))
        → sizes f.quantity f.total_fill_size ≡ r
        → (r >>= λ p. ok (status_of f.kind status (order_type_from_fields f) p.0 p.1)) ≡ ok s
        → (qty : ℤ) × (done : ℤ) × (sizes f.quantity f.total_fill_size ≡ ok (qty, done))
          × (status_of f.kind status (order_type_from_fields f) qty done ≡ s)
    go (ok (q, d)) e k = (q, d, e, cc)
    go (err x) e k = cc

refused_status :
    (kind : Option String) (status : String) (t : OrderType) (qty done : ℤ) (s : OrderStatus)
    → (kind ≡ some "modify_rejected") ⊎ (kind ≡ some "cancel_rejected")
    → status_of kind status t qty done ≡ s
    → s ≢ filled
    → is_terminal s ≡ false
unfolding status_of is_terminal
refused_status kind status t qty done s (inl k) h n = ground arith
refused_status kind status t qty done s (inr k) h n = ground arith

-- A refused modify or cancel leaves the order working: its row is terminal only as a full fill.
pub refused_operation_keeps_working :
    (f : Fields) (s : OrderStatus)
    → (f.kind ≡ some "modify_rejected") ⊎ (f.kind ≡ some "cancel_rejected")
    → order_status_from_fields f ≡ ok s
    → s ≢ filled
    → is_terminal s ≡ false
refused_operation_keeps_working f s k h n =
    let (q, d, _, e) = order_status-split f s h in
    refused_status f.kind _ (order_type_from_fields f) q d s k e n

price_type-get_or :
    (n : ℤ)
    → known (some n) ≡ true
    → price_type_to_order_type n ≡ some (get_or (price_type_to_order_type n) OrderType.market)
unfolding known price_type_to_order_type get_or
price_type-get_or n h = ground arith

duration-get_or :
    (n : ℤ)
    → known (some n) ≡ true
    → duration_to_tif n ≡ some (get_or (duration_to_tif n) TimeInForce.gtc)
unfolding known duration_to_tif get_or
duration-get_or n h = ground arith

-- The terms of a row that passes the extension's test.
trusted_terms :
    (side : Option Side) (price_type duration : Option ℤ) (kind : Option String) (status : String)
    → DrainRules.row_is_trustworthy (record {
      side_known = side_known side;
      price_type = price_type;
      duration = duration;
      kind = kind;
      status = status;
    })
      ≡ true
    → (s : Side) × (n : ℤ) × (m : ℤ) × (side ≡ some s)
      × (price_type ≡ some n)
      × (known (some n) ≡ true)
      × (duration ≡ some m)
      × (known (some m) ≡ true)
unfolding DrainRules.row_is_trustworthy side_known
trusted_terms (some s) (some n) (some m) kind status h =
    (s, n, m, refl, refl, ground arith, refl, ground arith)
trusted_terms none pt d kind status h = cc
trusted_terms (some s) none d kind status h = cc
trusted_terms (some s) (some n) none kind status h = ground arith

-- A row that may bind a venue id has its terms from the venue: a side, and a price type and a
-- duration that map to the reported order type and time in force, not to their defaults.
pub trustworthy-terms :
    (f : Fields)
    → row_is_trustworthy f ≡ ok true
    → (side : Side) × (n : ℤ) × (m : ℤ) × (order_side_from_notification f ≡ ok (some side))
      × (f.price_type ≡ some n)
      × (price_type_to_order_type n ≡ some (order_type_from_fields f))
      × (f.duration ≡ some m)
      × (duration_to_tif m ≡ some (tif_from_fields f))
unfolding row_is_trustworthy order_type_from_fields tif_from_fields
trustworthy-terms f h = go (order_side_from_notification f) refl h
  where
    go :
        (r : Result (Option Side))
        → order_side_from_notification f ≡ r
        → (r >>= λ side. ok (
            DrainRules.row_is_trustworthy (record {
              side_known = side_known side;
              price_type = f.price_type;
              duration = f.duration;
              kind = f.kind;
              status = text_or_empty f.status;
            })))
          ≡ ok true
        → (side : Side) × (n : ℤ) × (m : ℤ) × (order_side_from_notification f ≡ ok (some side))
          × (f.price_type ≡ some n)
          × (price_type_to_order_type n ≡ some (order_type_from_fields f))
          × (f.duration ≡ some m)
          × (duration_to_tif m ≡ some (tif_from_fields f))
    go (err x) e k = cc
    go (ok side) e k =
        let (s, n, m, p, q, kn, r, km) =
          trusted_terms side f.price_type f.duration f.kind (text_or_empty f.status) (cc) in
        (s, n, m, cc, q, rw q (price_type-get_or n kn), r, rw r (duration-get_or m km))
