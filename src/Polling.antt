-- ===== src/Polling.antt =====
-- python/rithmic_nt_connect/errors.py and polling.py: which failures of a poll are transient, and one
-- iteration of a plant's poll loop. The callbacks of a `PlantPoller` act on a state `S`; what a read
-- of the stream returns is an input. A back-off is a multiple of its first value, 0.05 s: 40 is 2 s.
pub mod Stops
pub mod Streak
pub mod Tests
use rithmic_nt_connect.Base.{
  ℕ, zero, suc, ◌*◌, String, Bool, true, false, ◌&&◌, ◌||◌, not, Option, none, some, List, [], ◌∷◌,
  if◌then◌else◌, leb, ltb, any, mem_text_of, contains, codes, lower,
}

pub data ErrorClass : Type 0 where
  channel_lagged channel_closed not_connected channel gateway unreadable other : ErrorClass

-- an exception: its class, its `code` where that is a text, and its own text
pub record Failure : Type 0 where
  pub cls : ErrorClass
  pub code : Option String
  pub text : String

-- `isinstance(exc, CHANNEL_ERRORS)`
unfoldable pub is_channel : ErrorClass → Bool
is_channel channel_lagged = true
is_channel channel_closed = true
is_channel not_connected = true
is_channel channel = true
is_channel _ = false

abbrev reconnectable_codes : List String
reconnectable_codes =
    "not_connected" ∷ "eof" ∷ "shutting_down" ∷ "transport_reset" ∷ "frame_too_large" ∷ []

reconnectable_code : Option String → Bool
reconnectable_code none = false
reconnectable_code (some c) = any (λ k. mem_text_of (lower c) (codes k ∷ [])) reconnectable_codes

abbrev reconnectable_texts : List String
reconnectable_texts =
    "forced logout" ∷ "connection closed" ∷ "not connected" ∷ "not_connected" ∷ "channel closed"
    ∷ "channel lagged" ∷ []

unfoldable pub is_reconnectable_poll_error : Failure → Bool
unfolding is_channel reconnectable_code
is_reconnectable_poll_error e =
    is_channel e.cls
    || (reconnectable_code e.code
        || any (λ t. contains (codes t) (lower e.text)) reconnectable_texts)

says_closed : String → Bool
says_closed text =
    contains (codes "forced logout") (lower text) || contains (codes "session closed") (lower text)

unfoldable pub is_terminal_poll_error : Failure → Bool
unfolding says_closed
is_terminal_poll_error e = elim (e.cls) [
  | channel_closed ↦ true
  | not_connected ↦ true
  | channel_lagged ↦ false
  | _ ↦ says_closed e.text
]

-- An event of a batch: a gap notice, or one for the handler.
pub data PollEvent (E : Type 0) : Type 0 where
  gap : PollEvent E
  event : E → PollEvent E

-- What a read of the session does, and what `poll_session_events` makes of it.
pub data Read (E : Type 0) : Type 0 where
  returned : List (PollEvent E) → Read E
  failed : Failure → Read E

pub data Polled (E : Type 0) : Type 0 where
  events : List (PollEvent E) → Polled E
  transient : Polled E
  raised : Failure → Polled E

unfoldable pub poll_session_events : {E : Type 0} → Read E → Polled E
unfolding is_terminal_poll_error is_reconnectable_poll_error
poll_session_events (returned es) = events es
poll_session_events (failed e) =
    if is_channel e.cls || (is_terminal_poll_error e || is_reconnectable_poll_error e)
    then raised e
    else transient

pub data Handled : Type 0 where
  handled unreadable_event handler_failed : Handled

-- A `PlantPoller`; a callback that may raise says whether it returned.
pub record PlantPoller (S E : Type 0) : Type 0 where
  pub is_order : Bool
  pub has_batch_fn : Bool
  pub max_transient : ℕ
  pub on_event : E → S → Handled × S
  pub on_resync : S → Bool × S
  pub on_gap : Option (S → Bool × S)
  pub on_latch : Option (S → S)
  pub on_resync_start : Option (S → S)
  pub on_resync_failed : Option (S → S)

-- `None`: the loop ends; otherwise the next back-off and transient streak
pub data Outcome : Type 0 where
  stopped : Outcome
  continues : (backoff streak : ℕ) → Outcome

pub data Handling : Type 0 where
  broke : Handling
  lost : ℕ → Handling

unfoldable pub double_capped : ℕ → ℕ
double_capped backoff = if leb (2 * backoff) 40 then 2 * backoff else 40

unfoldable pub call_if : {S : Type 0} → Option (S → S) → S → S
call_if none s = s
call_if (some f) s = f s

module _ {S E : Type 0} (p : PlantPoller S E) where
  unfoldable pub for_order : Option (S → S) → S → S
  for_order f s = if p.is_order then call_if f s else s

  -- `_resync`
  unfoldable pub resync : ℕ → ℕ → S → Outcome × S
  resync backoff streak s =
      let (returned_ok, s1) = p.on_resync (for_order p.on_resync_start s) in
      if returned_ok
      then (continues 1 (if p.is_order then 0 else streak), s1)
      else (continues (double_capped backoff) streak, for_order p.on_resync_failed s1)

  -- `_recover_gap`: `none` where the fuel ends before `on_gap` returns
  unfoldable pub recover_gap : ℕ → (S → Bool × S) → S → Option S
  recover_gap zero on_gap s = none
  recover_gap (suc fuel) on_gap s =
      let (returned_ok, s1) = on_gap s in
      elim returned_ok [
        | true ↦ some s1
        | false ↦ recover_gap fuel on_gap (for_order p.on_resync_failed s1)
      ]

  -- the loop over a batch, with the number of events lost so far
  unfoldable pub handle : List (PollEvent E) → ℕ → S → Handling × S
  handle [] n s = (lost n, s)
  handle (gap ∷ es) n s = handle es (suc n) s
  handle (event e ∷ es) n s =
      let (result, s1) = p.on_event e s in
      elim result [
        | handled ↦ handle es n s1
        | unreadable_event ↦ handle es (suc n) s1
        | handler_failed ↦ elim (p.is_order) [
          | true ↦ (broke, call_if p.on_latch s1)
          | false ↦ handle es n s1
        ]
      ]

  unfoldable pub after_gap : ℕ → ℕ → Option S → Option (Outcome × S)
  after_gap backoff streak none = none
  after_gap backoff streak (some s) = some (continues backoff streak, s)

  -- the end of an iteration that read a batch: venue state is re-read once
  unfoldable pub after_batch : ℕ → ℕ → ℕ → Handling × S → Option (Outcome × S)
  after_batch fuel backoff streak (broke, s) = some (stopped, s)
  after_batch fuel backoff streak (lost zero, s) = some (continues backoff streak, s)
  after_batch fuel backoff streak (lost (suc n), s) = elim (p.on_gap) [
    | some on_gap ↦ after_gap backoff streak (recover_gap fuel on_gap s)
    | none ↦ some (resync backoff streak s)
  ]

  unfoldable pub nothing_read : List (PollEvent E) → Bool
  nothing_read [] = not p.has_batch_fn
  nothing_read (e ∷ es) = false

  -- `poll_iteration`
  unfoldable pub poll_iteration : ℕ → Polled E → ℕ → ℕ → S → Option (Outcome × S)
  poll_iteration fuel transient backoff streak s =
      if not p.is_order
      then some (continues backoff streak, s)
      else if leb p.max_transient (suc streak)
      then some (stopped, call_if p.on_latch s)
      else some (continues backoff (suc streak), s)
  poll_iteration fuel (raised e) backoff streak s =
      if is_terminal_poll_error e
      then some (stopped, for_order p.on_resync_failed s)
      else if is_channel e.cls
      then some (resync backoff streak s)
      else some (continues (double_capped backoff) streak, s)
  poll_iteration fuel (events es) backoff streak s =
      if nothing_read es
      then some (continues backoff streak, s)
      else after_batch fuel backoff streak (handle es 0 s)

  -- `run`, over a list of reads
  unfoldable pub continue_run :
      Option (Outcome × S) → (ℕ → ℕ → S → Option (Outcome × S)) → Option (Outcome × S)
  continue_run none next = none
  continue_run (some (stopped, s)) next = some (stopped, s)
  continue_run (some (continues backoff streak, s)) next = next backoff streak s

  unfoldable pub run : ℕ → List (Read E) → ℕ → ℕ → S → Option (Outcome × S)
  run fuel [] backoff streak s = some (continues backoff streak, s)
  run fuel (r ∷ rs) backoff streak s =
      continue_run (poll_iteration fuel (poll_session_events r) backoff streak s) (run fuel rs)
