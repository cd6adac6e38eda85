-- ===== src/Polling/Streak.antt =====
-- polling.py: the transient streak of the order poll loop.
use rithmic_nt_connect.Base.{
  ℕ, suc, ◌+◌, ◌≤◌, ◌<◌, true, Option, some, List, [], ◌∷◌, ◌≡◌, refl, arith, leb, Bool-cases, ◌⊎◌,
  inl, inr, ap, subst,
}
use rithmic_nt_connect.Polling.{
  PlantPoller, PollEvent, gap, event, transient, handled, Outcome, stopped, continues, lost, handle,
  poll_iteration, after_batch, nothing_read, Read, returned, failed, run, continue_run,
  poll_session_events, call_if,
}

module _ {E : Type 0} where
  abbrev NoGap : List (PollEvent E) → Type 0
  NoGap [] = Unit {0}
  NoGap (gap ∷ es) = ⊥
  NoGap (event e ∷ es) = NoGap es

  -- A read that fails in a transient way, or a batch without a gap notice.
  abbrev Calm : List (Read E) → Type 0
  Calm [] = Unit {0}
  Calm (failed f ∷ rs) = (poll_session_events {E = E} (failed f) ≡ transient) × Calm rs
  Calm (returned es ∷ rs) = NoGap es × Calm rs

  abbrev failures : List (Read E) → ℕ
  failures [] = 0
  failures (failed f ∷ rs) = suc (failures rs)
  failures (returned es ∷ rs) = failures rs

module _ {S E : Type 0} (p : PlantPoller S E) (orders : p.is_order ≡ true)
    (handles : (e : E) (s : S) → (p.on_event e s).0 ≡ handled) where
  handle_calm :
      (es : List (PollEvent E)) (n : ℕ) (s : S)
      → NoGap es
      → (s1 : S) × (handle p es n s ≡ (lost n, s1))
  unfolding handle
  handle_calm [] n s c = (s, refl)
  handle_calm (gap ∷ es) n s c = absurd c
  handle_calm (event e ∷ es) n s c =
      let (s1, q) = handle_calm es n (p.on_event e s).1 c in (s1, rw (handles e s, handle) q)

  batch_calm :
      (fuel b k : ℕ) (es : List (PollEvent E)) (s : S)
      → NoGap es
      → (s1 : S) × (poll_iteration p fuel (poll_session_events (returned es)) b k s
          ≡ some (continues b k, s1))
  unfolding poll_iteration after_batch poll_session_events
  batch_calm fuel b k es s c = elim (Bool-cases (nothing_read p es)) [
    | inl e ↦ (s, rw (e, poll_iteration) refl)
    | inr e ↦
        let (s1, q) = handle_calm es 0 s c in (s1, rw (e, q, poll_iteration, after_batch) refl)
  ]

  failed_calm :
      (fuel b k : ℕ) (s : S)
      → ((suc k < p.max_transient)
          × (poll_iteration p fuel transient b k s ≡ some (continues b (suc k), s)))
        ⊎ ((p.max_transient ≤ suc k)
            × ((s1 : S) × (poll_iteration p fuel transient b k s ≡ some (stopped, s1))))
  unfolding poll_iteration
  failed_calm fuel b k s = elim (Bool-cases (leb p.max_transient (suc k))) [
    | inl e ↦ inr (ground (arith, e), (call_if p.on_latch s, rw (orders, e, poll_iteration) refl))
    | inr e ↦ inl (ground (arith, e), rw (orders, e, poll_iteration) refl)
  ]

  shift : (a b : ℕ) → suc a + b ≡ a + suc b
  shift a b = omega arith

  abbrev pub StreakEnd : ℕ → ℕ → Option (Outcome × S) → Type 0
  StreakEnd b total r =
      ((total < p.max_transient) × ((s1 : S) × (r ≡ some (continues b total, s1))))
      ⊎ ((p.max_transient ≤ total) × ((s1 : S) × (r ≡ some (stopped, s1))))

  -- For an order poller whose event handler always succeeds, from a streak below the limit, and over
  -- reads each of which fails in a transient way or returns a batch without a gap notice: the loop
  -- ends when the streak and the failures of these reads together reach the limit; below the limit
  -- it goes on with that sum as its streak, so batches that are handled do not reset the count.
  pub transient_failures_add_up :
      (fuel : ℕ) (rs : List (Read E)) (b k : ℕ) (s : S)
      → Calm rs
      → k < p.max_transient
      → StreakEnd b (k + failures rs) (run p fuel rs b k s)
  unfolding run continue_run
  transient_failures_add_up fuel [] b k s c less =
      inl (omega (arith, less), (s, ap (λ n. some (continues b n, s)) (omega arith)))
  transient_failures_add_up fuel (returned es ∷ rs) b k s (c, cs) less =
      let (s1, q) = batch_calm fuel b k es s c in
      rw (q, continue_run) (transient_failures_add_up fuel rs b k s1 cs less)
  transient_failures_add_up fuel (failed f ∷ rs) b k s (c, cs) less =
      elim (failed_calm fuel b k s) [
        | inl (l, q) ↦
            rw (c, q, continue_run)
              (subst (λ n. StreakEnd b n (run p fuel rs b (suc k) s)) (shift k (failures rs))
                (transient_failures_add_up fuel rs b (suc k) s cs l))
        | inr (l, (s1, q)) ↦ inr (omega (arith, l), (s1, rw (c, q, continue_run) refl))
      ]
