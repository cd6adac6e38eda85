-- ===== src/HistoryWindow.antt =====
-- python/rithmic_gateway/history_window.py: how a history window is cut into bounded requests. Times
-- are seconds since 1970, and the loop of `window_slices` runs on fuel that its window gives.
pub mod Tests
use rithmic_nt_connect.Base.{
  ℕ, zero, suc, ◌+◌, ◌-◌, ◌*◌, ◌^◌, ◌≤◌, ◌<◌, Bool, true, false, ◌||◌, ◌&&◌, Option, none, some,
  List, [], ◌∷◌, if◌then◌else◌, leb, ltb, eqb, ◌≡◌, Bool-cases, any, ℤ, eqb_ℤ,
}

-- The bar types on the wire.
abbrev pub bar_type_second : ℕ
bar_type_second = 1

abbrev pub bar_type_minute : ℕ
bar_type_minute = 2

abbrev pub bar_type_daily : ℕ
bar_type_daily = 3

abbrev pub bar_type_weekly : ℕ
bar_type_weekly = 4

abbrev pub default_tick_slice_secs : ℕ
default_tick_slice_secs = 7200

abbrev pub default_bar_slice_secs : ℕ
default_bar_slice_secs = 3456000

-- `(2**31 - 1) // 4`, and for minute bars 180, 90 or 40 days
unfoldable pub bar_slice_secs : ℕ → ℕ → ℕ
bar_slice_secs bar_type period =
    if eqb bar_type bar_type_daily || eqb bar_type bar_type_weekly
    then 536870911
    else if eqb bar_type bar_type_minute
    then (if leb 60 period
        then 15552000
        else if leb 15 period
        then 7776000
        else default_bar_slice_secs)
    else if eqb bar_type bar_type_second
    then default_tick_slice_secs
    else default_bar_slice_secs

-- the next end of a slice: Python's integers do not overflow, so it is never below `cur`
unfoldable pub slice_end : ℕ → ℕ → ℕ → ℕ
slice_end step end cur = if leb end (cur + step) || ltb (cur + step) cur then end else cur + step

unfoldable pub slice_loop : ℕ → ℕ → ℕ → ℕ → List (ℕ × ℕ)
unfolding slice_end
slice_loop zero step end cur = []
slice_loop (suc fuel) step end cur =
    let rest = slice_loop fuel step end (slice_end step end cur) in
    if leb cur end
    then (cur, slice_end step end cur) ∷ (if leb end (slice_end step end cur) then [] else rest)
    else []

-- `window_slices`
unfoldable pub window_slices : ℕ → ℕ → ℕ → List (ℕ × ℕ)
unfolding slice_loop
window_slices start end step =
    if ltb end start || ltb step 1 then [] else slice_loop (suc (end - start)) step end start

-- A bar as far as the removal of duplicates reads it.
pub record Bar : Type 0 where
  pub marker : Option ℤ
  pub ts_event_ns : Option ℤ

pub data BarKey : Type 0 where
  marked : ℤ → BarKey
  timed : Option ℤ → BarKey

unfoldable pub bar_key : Bar → BarKey
bar_key b = elim (b.marker) [ some m ↦ marked m | none ↦ timed b.ts_event_ns ]

unfoldable pub same_bar_key : BarKey → BarKey → Bool
same_bar_key (marked m) (marked n) = eqb_ℤ m n
same_bar_key (timed none) (timed none) = true
same_bar_key (timed (some m)) (timed (some n)) = eqb_ℤ m n
same_bar_key _ _ = false

unfoldable pub dedupe_loop : List BarKey → List Bar → List Bar
unfolding bar_key same_bar_key
dedupe_loop seen [] = []
dedupe_loop seen (b ∷ bars) =
    let skipped = dedupe_loop seen bars in
    let taken = dedupe_loop (bar_key b ∷ seen) bars in
    if any (same_bar_key (bar_key b)) seen then skipped else b ∷ taken

-- `dedupe_bars_by_marker`
unfoldable pub dedupe_bars_by_marker : List Bar → List Bar
unfolding dedupe_loop
dedupe_bars_by_marker bars = dedupe_loop [] bars

-- The slices begin at `start`, each begins where the one before it ends, none is longer than `step`,
-- each but a lone one is longer than nothing, and the last one ends at `end`.
abbrev pub Tiles : ℕ → ℕ → ℕ → List (ℕ × ℕ) → Type 0
Tiles step start end [] = ⊥
Tiles step start end ((a, b) ∷ []) = (a ≡ start) × ((b ≡ end) × ((a ≤ b) × (b ≤ a + step)))
Tiles step start end ((a, b) ∷ s ∷ rest) =
    (a ≡ start) × ((a < b) × ((b ≤ a + step) × Tiles step b end (s ∷ rest)))
