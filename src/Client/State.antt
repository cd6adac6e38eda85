-- ===== src/Client/State.antt =====
-- The execution client's own state, and actions on it that may raise. What was written before an
-- exception stays written. One handler call reads one time, `now`.
use rithmic_nt_connect.Base.{
  String, Bool, true, Option, none, some, List, [], ◌∷◌, ◌++◌, if◌then◌else◌, ◌&&◌, is_some,
}
use rithmic_nt_connect.Values.{Result, ok, err, Error, has_text, text_or_empty}
use rithmic_nt_connect.Core.Lru
use rithmic_nt_connect.Core.Lru.{Lru}
use rithmic_nt_connect.Core.Rates.{CommissionTable}
use rithmic_nt_connect.OrderPlant
use rithmic_nt_connect.OrderPlant.{OrderPlantPolicy}
use rithmic_nt_connect.Nautilus.{Cache, Event}

-- What `UntrackedStatusBook` remembers: the texts of a published report.
abbrev pub StatusKey : Type 0
StatusKey = List String

pub record Host (Price : Type 0) : Type 0 where
  pub enable_trading : Bool
  pub gateway_trading : Bool
  pub account_id : Option String
  pub account_seeded : Bool
  pub resolved_account_raw : Option String
  pub config_account_id : Option String
  pub order_plant : OrderPlantPolicy
  pub seen_fill_keys : Lru (Unit {0})
  pub untracked_status_keys : Lru StatusKey
  pub commissions : CommissionTable
  pub cache : Cache Price
  pub emitted : List (Event Price)

abbrev pub Action : Type 0 → Type 0 → Type 0
Action Price A = Host Price → Result A × Host Price

module _ {Price A : Type 0} where
  unfoldable pub pure : A → Action Price A
  pure a h = (ok a, h)

  unfoldable pub raise : Error → Action Price A
  raise e h = (err e, h)

  unfoldable pub lift : Result A → Action Price A
  lift r h = (r, h)

  unfoldable pub asks : (Host Price → Result A) → Action Price A
  asks f h = (f h, h)

  unfoldable pub gets : (Host Price → A) → Action Price A
  gets f h = (ok (f h), h)

-- an event or report that goes to the engine
unfoldable pub emit : {Price : Type 0} → Event Price → Action Price (Unit {0})
emit e h = (ok tt, record h { emitted = h.emitted ++ e ∷ [] })

module _ {Price A B : Type 0} where
  unfoldable pub continue : Result A → (A → Action Price B) → Action Price B
  continue (ok a) f h = f a h
  continue (err e) f h = (err e, h)

  -- `if a is None: … else: …`
  unfoldable pub given : Option A → Action Price B → (A → Action Price B) → Action Price B
  given none m f = m
  given (some a) m f = f a

  infixl 5 ◌>>=◌ ◌>>◌
  -- opening this opens the basic actions too
  unfoldable pub ◌>>=◌ : Action Price A → (A → Action Price B) → Action Price B
  unfolding continue given pure raise lift asks gets emit
  ◌>>=◌ m f h = let (r, h') = m h in continue r f h'

  abbrev pub ◌>>◌ : Action Price A → Action Price B → Action Price B
  m >> n = m >>= λ _. n

module _ {Price : Type 0} where
  -- `_fill_key_seen` and `_mark_fill_key`
  unfoldable pub fill_key_seen : String → Action Price Bool
  fill_key_seen key h =
      let (store, hit) = Lru.has key h.seen_fill_keys in
      (ok hit, record h { seen_fill_keys = store })

  unfoldable pub mark_fill_key : String → Action Price (Unit {0})
  mark_fill_key key h = (ok tt, record h { seen_fill_keys = Lru.put key tt h.seen_fill_keys })

  unfoldable pub latch_order_plant : Action Price (Unit {0})
  latch_order_plant h = (ok tt, record h { order_plant = OrderPlant.latch h.order_plant })

  -- the account's text without the venue prefix: `_set_account_id` alone sets the id, with it
  unfoldable pub account_raw : Option String → Host Price → Option String
  account_raw hint h = if has_text hint then hint else elim h.resolved_account_raw [
    | some raw ↦ some raw
    | none ↦ if has_text h.config_account_id then h.config_account_id else h.account_id
  ]

  unfoldable pub set_account : String → Host Price → Host Price
  set_account raw h = elim h.account_id [ none ↦ record h { account_id = some raw } | some _ ↦ h ]

  unfoldable pub announce : String → Host Price → Host Price
  announce raw h =
      if h.account_seeded
      then h
      else record h { account_seeded = true; emitted = h.emitted ++ Event.account_seeded raw ∷ [] }

  -- `_seed_account_if_needed`; the account id is kept without its `RITHMIC-` prefix
  unfoldable pub seed_account_if_needed : Option String → Action Price (Unit {0})
  seed_account_if_needed hint h =
      if h.account_seeded && is_some h.account_id
      then (ok tt, h)
      else if has_text (account_raw hint h)
      then (
        ok tt,
        announce (text_or_empty (account_raw hint h))
            (set_account (text_or_empty (account_raw hint h)) h),
      )
      else (ok tt, h)
