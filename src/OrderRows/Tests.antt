-- ===== src/OrderRows/Tests.antt =====
-- Rows: a filled one, and a refused modify of a working order.
use rithmic_nt_connect.Base.{◌≡◌, refl, ℤ, pos, inl, some, false, arith}
use rithmic_nt_connect.Values.{ok, Value, to_int_or_zero, to_int}
use rithmic_nt_connect.Notice.{Fields, Side, order_side_from_notification}
use rithmic_nt_connect.OrderRows.{
  accepted, order_status_from_fields, is_terminal, sizes, row_is_trustworthy,
  price_type_to_order_type, order_type_from_fields, duration_to_tif, tif_from_fields, status_of,
  is_kind, side_known,
}
use rithmic_nt_connect.Core.DrainRules
use rithmic_nt_connect.OrderRows.Status.{refused_operation_keeps_working, trustworthy-terms}
use rithmic_nt_connect.Fixtures.{fill}

abbrev refused_modify : Fields
refused_modify = record fill {
  kind = some "modify_rejected";
  status = some "modify failed";
  total_fill_size = Value.int (pos 0);
}

refused_operation_keeps_working_example : is_terminal accepted ≡ false
unfolding order_status_from_fields sizes status_of is_kind to_int_or_zero to_int
refused_operation_keeps_working_example =
    refused_operation_keeps_working refused_modify accepted (inl refl) refl (ground arith)

trustworthy-terms_example :
    (side : Side) × (n : ℤ) × (m : ℤ) × (order_side_from_notification fill ≡ ok (some side))
    × (fill.price_type ≡ some n)
    × (price_type_to_order_type n ≡ some (order_type_from_fields fill))
    × (fill.duration ≡ some m)
    × (duration_to_tif m ≡ some (tif_from_fields fill))
unfolding row_is_trustworthy side_known order_side_from_notification DrainRules.row_is_trustworthy
trustworthy-terms_example = trustworthy-terms fill refl
