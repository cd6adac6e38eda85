-- ===== src/Client/Returned.antt =====
-- Actions in sequence: what a result says of the parts.
use rithmic_nt_connect.Base.{◌≡◌, refl}
use rithmic_nt_connect.Values.{Result, ok, err}
use rithmic_nt_connect.Client.State.{Host, Action, ◌>>=◌, continue}

module _ {Price A B : Type 0} where
  -- Both parts of an action that returned did return.
  pub returned :
      (m : Action Price A) (f : A → Action Price B) (h : Host Price) (b : B)
      → ((m >>= f) h).0 ≡ ok b
      → (a : A) × (((m h).0 ≡ ok a) × ((f a (m h).1).0 ≡ ok b))
  unfolding ◌>>=◌
  returned m f h b e = go (m h).0 refl e
    where
      go :
          (r : Result A)
          → (m h).0 ≡ r
          → (continue r f (m h).1).0 ≡ ok b
          → (a : A) × (((m h).0 ≡ ok a) × ((f a (m h).1).0 ≡ ok b))
      go (ok a) p e = (a, (p, e))
      go (err x) p e = cc
