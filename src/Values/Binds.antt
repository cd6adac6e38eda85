-- ===== src/Values/Binds.antt =====
-- Results that were built by `>>=`: what an `ok` says of the parts.
use rithmic_nt_connect.Base.{◌≡◌, refl}
use rithmic_nt_connect.Values.{Result, ok, err, ◌>>=◌}

module _ {A B : Type 0} where
  -- Both parts of a chain that returned did return.
  pub bind-ok :
      (m : Result A) (f : A → Result B) (b : B)
      → m >>= f ≡ ok b
      → (a : A) × ((m ≡ ok a) × (f a ≡ ok b))
  bind-ok (ok a) f b e = (a, (refl, e))
  bind-ok (err x) f b e = cc
