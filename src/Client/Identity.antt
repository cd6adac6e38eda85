-- ===== src/Client/Identity.antt =====
-- execution.py: which tracked order a notification or a drain row belongs to.
use Prim.Native.String.{◌++◌}
use rithmic_nt_connect.Base.{
  String, Bool, true, false, ◌&&◌, ◌||◌, not, Option, none, some, ◌==◌, if◌then◌else◌, ◌≡◌, arith,
}
use rithmic_nt_connect.Values.{Result, ok, has_text, text_or_empty}
use rithmic_nt_connect.Notice.{Fields}
use rithmic_nt_connect.Core.Ident
use rithmic_nt_connect.Nautilus.{Cache, Order, Library}
use rithmic_nt_connect.Client.State.{Action}

-- `symbol_and_exchange_from_instrument_id`
unfoldable pub symbol_and_exchange : String → Result (String × Option String)
symbol_and_exchange instrument_id = Ident.split_instrument_id instrument_id "RITHMIC"

same_contract : String × Option String → String × Option String → Bool
same_contract (want, none) (symbol, exchange) = want == symbol
same_contract (want, some x) (symbol, none) = want == symbol
same_contract (want, some x) (symbol, some y) = want == symbol && x == y

both_read : Result (String × Option String) → Result (String × Option String) → Bool
unfolding same_contract
both_read (ok want) (ok event) = same_contract want event
both_read _ _ = false

-- `_matches_instrument`
unfoldable pub matches_instrument : Fields → Option String → Option String → Bool
unfolding both_read symbol_and_exchange
matches_instrument f instrument_id (some venue_order_id) =
    has_text f.basket_id && text_or_empty f.basket_id == venue_order_id
matches_instrument f none none = true
matches_instrument f (some want) none =
    text_or_empty f.instrument_id == want
    || both_read (symbol_and_exchange want) (symbol_and_exchange (text_or_empty f.instrument_id))

tag_or : Option String → Option String → String
tag_or tag client_order_id =
    if has_text tag then text_or_empty tag else text_or_empty client_order_id

module _ {Price : Type 0} where
  is_open : Option (Order Price) → Bool
  is_open none = false
  is_open (some o) = not o.is_closed

  closed_order : Option (Order Price) → Bool
  closed_order none = false
  closed_order (some o) = o.is_closed

  by_tag : Cache Price → Option String → Option String
  unfolding is_open
  by_tag c tag =
      if has_text tag && is_open (c.order (text_or_empty tag))
      then some (text_or_empty tag)
      else none

  -- `_basket_client_id`
  unfoldable pub basket_client_id : Cache Price → Fields → Option String
  basket_client_id c f =
      if has_text f.basket_id then c.client_order_id (text_or_empty f.basket_id) else none

  -- `_resolve_client_order_id`: the basket first, unless its order is closed, then the tag
  unfoldable pub resolve_client_order_id : Cache Price → Fields → Option String
  unfolding by_tag closed_order basket_client_id
  resolve_client_order_id c f = elim (basket_client_id c f) [
    | none ↦ by_tag c f.user_tag
    | some cached ↦ if closed_order (c.order cached) then by_tag c f.user_tag else some cached
  ]

  -- `_drain_client_order_id`
  unfoldable pub drain_client_order_id : Cache Price → Fields → Option String
  unfolding basket_client_id resolve_client_order_id
  drain_client_order_id c f = elim (basket_client_id c f) [
    | none ↦ resolve_client_order_id c f
    | some cached ↦ some cached
  ]

  bound_venue_id : Cache Price → Option String → Option String
  bound_venue_id c none = none
  bound_venue_id c (some cid) = c.venue_order_id cid

  -- `_venue_id_for`
  unfoldable pub venue_id_for : Cache Price → Fields → Option String → String
  unfolding tag_or bound_venue_id
  venue_id_for c f client_order_id =
      if has_text f.basket_id
      then text_or_empty f.basket_id
      else elim (bound_venue_id c client_order_id) [
        | none ↦ tag_or f.user_tag client_order_id
        | some v ↦ v
      ]

  -- A live notification is never attributed to an order that the cache holds as closed.
  pub resolve-not_closed :
      (c : Cache Price) (f : Fields) (cid : String) (o : Order Price)
      → resolve_client_order_id c f ≡ some cid
      → c.order cid ≡ some o
      → o.is_closed ≡ false
  unfolding resolve_client_order_id
  resolve-not_closed c f cid o h e = ground arith

  module _ (nt : Library Price) where
    -- `_bind_venue_id`
    unfoldable pub bind_venue_id : String → String → Action Price (Unit {0})
    bind_venue_id client_order_id venue_id h =
        (ok tt, record h { cache = nt.add_venue_order_id h.cache client_order_id venue_id })

    read_id : String → Option String
    read_id s = if nt.instrument_id_reads s then some s else none

    -- `_instrument_id_from_order_fields`
    unfoldable pub instrument_id_from_order_fields : Fields → Option String
    unfolding read_id
    instrument_id_from_order_fields f =
        if has_text f.instrument_id
        then read_id (text_or_empty f.instrument_id)
        else if has_text f.symbol
        then read_id (text_or_empty f.symbol ++ ".RITHMIC")
        else none
