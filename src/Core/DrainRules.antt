-- ===== src/Core/DrainRules.antt =====
-- crates/rithmic-exec/src/drain.rs: which drain rows to trust, which row wins, which row is stale.
use rithmic_nt_connect.Base.{
  ℕ, suc, String, Bool, false, ◌&&◌, ◌||◌, not, Option, none, some, List, [], ◌∷◌, ◌++◌, map,
  if◌then◌else◌, ℤ, pos, leb_ℤ, ltb_ℤ, eqb_ℤ, mem_text, any, contains, codes, upper, lookup, insert,
}

abbrev in_closed_set : ℤ → Bool
in_closed_set n = leb_ℤ (pos 1) n && leb_ℤ n (pos 4)

abbrev recognizable_kinds : List String
recognizable_kinds =
    "accepted" ∷ "updated" ∷ "canceled" ∷ "filled" ∷ "rejected" ∷ "modify_rejected"
    ∷ "cancel_rejected" ∷ "expired" ∷ "triggered" ∷ []

abbrev status_markers : List String
status_markers = "OPEN" ∷ "WORKING" ∷ "CANCEL" ∷ "REJECT" ∷ "EXPIRED" ∷ "TRIGGER" ∷ []

pub record RowTerms : Type 0 where
  pub side_known : Bool
  pub price_type : Option ℤ
  pub duration : Option ℤ
  pub kind : Option String
  pub status : String

unfoldable pub known : Option ℤ → Bool
known none = false
known (some n) = in_closed_set n

state_known : Option String → String → Bool
state_known none status = any (λ m. contains (codes m) (upper status)) status_markers
state_known (some k) status =
    mem_text k recognizable_kinds || any (λ m. contains (codes m) (upper status)) status_markers

unfoldable pub row_is_trustworthy : RowTerms → Bool
unfolding known state_known
row_is_trustworthy t =
    t.side_known && (known t.price_type && known t.duration) && state_known t.kind t.status

-- The loop's two tables: keys in order of first appearance, and the winning row of each key with
-- its index. The source keeps the index and reads the time stamp back from the rows.
pub record Winners : Type 0 where
  pub order : List String
  pub winner : List (String × (ℕ × ℤ))

freshest_step : ℕ → String → ℤ → Winners → Winners
freshest_step index key ts w = elim (lookup key w.winner) [
  | none ↦ record { order = w.order ++ key ∷ []; winner = insert key (index, ts) w.winner }
  | some (current, best) ↦
      if leb_ℤ best ts then record w { winner = insert key (index, ts) w.winner } else w
]

freshest_loop : ℕ → List (String × ℤ) → Winners → Winners
unfolding freshest_step
freshest_loop index [] w = w
freshest_loop index ((key, ts) ∷ rows) w =
    freshest_loop (suc index) rows (freshest_step index key ts w)

winning_index : Winners → String → ℕ
winning_index w key = elim (lookup key w.winner) [ none ↦ 0 | some (i, ts) ↦ i ]

unfoldable pub freshest_per_key : List (String × ℤ) → List ℕ
unfolding freshest_loop winning_index
freshest_per_key rows =
    let w = freshest_loop 0 rows (record { order = []; winner = [] }) in
    map (winning_index w) w.order

pub record StaleFacts : Type 0 where
  pub order_closed : Bool
  pub live_stream_authoritative : Bool
  pub report_non_terminal : Bool
  pub row_ts_ns : ℤ
  pub order_ts_last_ns : ℤ

pub data StaleReason : Type 0 where
  closed_locally lagging_snapshot stream_advanced : StaleReason

unfoldable pub stale_reason : StaleFacts → Option StaleReason
stale_reason f =
    if f.order_closed
    then (if f.live_stream_authoritative
        then some closed_locally
        else if f.report_non_terminal
        then some lagging_snapshot
        else none)
    else if f.live_stream_authoritative
        && (not (eqb_ℤ f.row_ts_ns (pos 0)) && ltb_ℤ f.row_ts_ns f.order_ts_last_ns)
    then some stream_advanced
    else none
