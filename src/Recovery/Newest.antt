-- ===== src/Recovery/Newest.antt =====
-- recovery_bridge.py: announced generations and the restores that run for them.
use rithmic_nt_connect.Base.{
  ℕ, ◌≤◌, ◌<◌, Bool, true, false, Option, none, some, List, [], ◌∷◌, leb, ltb, ◌≡◌, refl, arith,
  Bool-cases, ◌⊎◌, inl, inr,
}
use rithmic_nt_connect.Recovery.{
  Restore, Bridge, BridgeEvent, resumed, interrupted, recovery_failed, detached, attempt_restored,
  attempt_failed, larger, first_attempt, settle, start, attempt_done, stop_restore, detach, step,
}

-- A running restore is for a generation that is not restored yet, within its attempts, and a
-- generation waits only behind a running restore.
abbrev pub TaskOk : Option Restore → Bridge → Type 0
TaskOk none b = b.pending_generation ≡ 0
TaskOk (some r) b =
    (b.last_generation < r.generation) × ((1 ≤ r.attempt) × (r.attempt ≤ b.max_attempts))

abbrev pub IsValid : Bridge → Type 0
IsValid b = TaskOk b.task b

first_attempt-IsValid :
    (g : ℕ) (b : Bridge)
    → b.last_generation < g
    → b.pending_generation ≡ 0
    → IsValid (first_attempt g b)
unfolding first_attempt
first_attempt-IsValid g b less z = elim (Bool-cases (ltb 0 b.max_attempts)) [
  | inl e ↦ rw (e, first_attempt) (less, (omega arith, ground (arith, e)))
  | inr e ↦ rw (e, first_attempt) z
]

settle-IsValid : (g : ℕ) (b : Bridge) → IsValid (settle g b)
unfolding settle larger
settle-IsValid g b = elim (Bool-cases (leb b.pending_generation (larger g b.last_generation))) [
  | inl e ↦ rw (e, settle) refl
  | inr e ↦
      rw (e, settle)
        (first_attempt-IsValid b.pending_generation (record b { pending_generation = 0 })
          (ground (arith, e)) refl)
]

-- A bridge by its fields, so that a proof can split on the task.
abbrev at : Option Restore → ℕ → ℕ → ℕ → Bridge
at t p l m = record { task = t; pending_generation = p; last_generation = l; max_attempts = m }

start-IsValid :
    (g : ℕ) (t : Option Restore) (p l m : ℕ) → IsValid (at t p l m) → IsValid (start g (at t p l m))
unfolding start
start-IsValid g none p l m v = elim (Bool-cases (leb g l)) [
  | inl e ↦ rw (e, start) v
  | inr e ↦ rw (e, start) (first_attempt-IsValid g (at none p l m) (ground (arith, e)) v)
]
start-IsValid g (some r) p l m v = elim (Bool-cases (leb g l)) [
  | inl e ↦ rw (e, start) v
  | inr e ↦ rw (e, start) v
]

attempt_done-IsValid :
    (restored : Bool) (t : Option Restore) (p l m : ℕ)
    → IsValid (at t p l m)
    → IsValid (attempt_done restored (at t p l m))
unfolding attempt_done
attempt_done-IsValid restored none p l m v = v
attempt_done-IsValid true (some r) p l m v =
    settle-IsValid r.generation (at (some r) p r.generation m)
attempt_done-IsValid false (some r) p l m (less, (low, high)) =
    elim (Bool-cases (ltb r.attempt m)) [
      | inl e ↦ rw (e, attempt_done) (less, (omega arith, ground (arith, e)))
      | inr e ↦ rw (e, attempt_done) (settle-IsValid r.generation (at (some r) p l m))
    ]

-- Every step keeps the bridge valid: what runs is a restore for a generation above the last one
-- restored, with an attempt between 1 and the limit, and nothing waits while nothing runs.
pub step-IsValid : (e : BridgeEvent) (b : Bridge) → IsValid b → IsValid (step e b)
unfolding step stop_restore detach
step-IsValid (resumed g) b v =
    start-IsValid g b.task b.pending_generation b.last_generation b.max_attempts v
step-IsValid interrupted b v = refl
step-IsValid recovery_failed b v = refl
step-IsValid detached b v = refl
step-IsValid attempt_restored b v =
    attempt_done-IsValid true b.task b.pending_generation b.last_generation b.max_attempts v
step-IsValid attempt_failed b v =
    attempt_done-IsValid false b.task b.pending_generation b.last_generation b.max_attempts v

-- Generation `g` is restored, or runs, or something newer runs or waits.
abbrev pub TaskCovers : ℕ → Option Restore → Bridge → Type 0
TaskCovers g none b = g ≤ b.last_generation
TaskCovers g (some r) b =
    (g ≤ b.last_generation) ⊎ ((g ≤ r.generation) ⊎ (g ≤ b.pending_generation))

abbrev pub Covers : ℕ → Bridge → Type 0
Covers g b = TaskCovers g b.task b

-- Events that are no break, where an attempt that fails is not the last one allowed.
abbrev pub TaskMayFail : Option Restore → Bridge → Type 0
TaskMayFail none b = Unit {0}
TaskMayFail (some r) b = r.attempt < b.max_attempts

abbrev pub Progress : BridgeEvent → Bridge → Type 0
Progress (resumed g) b = Unit {0}
Progress interrupted b = ⊥
Progress recovery_failed b = ⊥
Progress detached b = ⊥
Progress attempt_restored b = Unit {0}
Progress attempt_failed b = TaskMayFail b.task b

abbrev pub AllProgress : List BridgeEvent → Bridge → Type 0
AllProgress [] b = Unit {0}
AllProgress (e ∷ es) b = Progress e b × AllProgress es (step e b)
