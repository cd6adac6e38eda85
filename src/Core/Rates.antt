-- ===== src/Core/Rates.antt =====
-- crates/rithmic-exec/src/commission.rs: commission rates as decimal text.
use rithmic_nt_connect.Base.{
  String, Bool, true, ◌&&◌, not, Option, none, some, List, [], ◌∷◌, ◌==◌, if◌then◌else◌, lookup,
  insert, or_else, is_some,
}

pub record CommissionTable : Type 0 where
  pub rates : List (String × String)
  pub default : Option String

-- A row counts with a code and a rate that are there and not empty; a later row replaces an
-- earlier one of its code.
product_row : Option String × Option String → Option (String × String)
product_row (some code, some rate) =
    if not (code == "") && not (rate == "") then some (code, rate) else none
product_row _ = none

collect_products :
    List (String × String) → List (Option String × Option String) → List (String × String)
unfolding product_row
collect_products acc [] = acc
collect_products acc (row ∷ rows) = elim (product_row row) [
  | none ↦ collect_products acc rows
  | some (code, rate) ↦ collect_products (insert code rate acc) rows
]

unfoldable pub load_products :
    List (Option String × Option String) → CommissionTable → CommissionTable
unfolding collect_products
load_products rows t = record t { rates = collect_products [] rows }

is_active : String → Option String → Bool
is_active account none = true
is_active account (some active) = account == active

find_default : List (String × Option String) → Option String → Option String
unfolding is_active
find_default [] active = none
find_default ((account, default) ∷ rows) active =
    if is_some default && is_active account active then default else find_default rows active

unfoldable pub load_account_default :
    List (String × Option String) → Option String → CommissionTable → CommissionTable
unfolding find_default
load_account_default rows active t = record t { default = find_default rows active }

unfoldable pub rate_for : Option String → CommissionTable → Option String
rate_for none t = t.default
rate_for (some code) t = or_else (lookup code t.rates) t.default
