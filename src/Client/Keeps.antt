-- ===== src/Client/Keeps.antt =====
-- What an action leaves in place: relations between the state before and after it, one rule for
-- each way to build an action.
pub mod Quiet
use rithmic_nt_connect.Base.{Bool, true, false, Option, none, some, if◌then◌else◌}
use rithmic_nt_connect.Values.{Result, ok, err, Error}
use rithmic_nt_connect.Client.State.{
  Host, Action, ◌>>=◌, continue, given, pure, raise, lift, asks, gets,
}

-- A reflexive and transitive relation between states.
pub record Frame (Price : Type 0) : Type 1 where
  pub Rel : Host Price → Host Price → Type 0
  pub reflexive : (h : Host Price) → Rel h h
  pub transitive : (a b c : Host Price) → Rel a b → Rel b c → Rel a c

pub record Keeps {Price A : Type 0} (F : Frame Price) (m : Action Price A) : Type 0 where
  pub at : (h : Host Price) → F.Rel h (m h).1

module _ {Price A : Type 0} {F : Frame Price} where
  pub Keeps-pure : (a : A) → Keeps F (pure {Price = Price} a)
  unfolding pure
  Keeps-pure a = record { at = λ h. F.reflexive h }

  pub Keeps-raise : (e : Error) → Keeps F (raise {Price = Price} {A = A} e)
  unfolding raise
  Keeps-raise e = record { at = λ h. F.reflexive h }

  pub Keeps-lift : (r : Result A) → Keeps F (lift {Price = Price} r)
  unfolding lift
  Keeps-lift r = record { at = λ h. F.reflexive h }

  pub Keeps-gets : (f : Host Price → A) → Keeps F (gets f)
  unfolding gets
  Keeps-gets f = record { at = λ h. F.reflexive h }

  pub Keeps-asks : (f : Host Price → Result A) → Keeps F (asks f)
  unfolding asks
  Keeps-asks f = record { at = λ h. F.reflexive h }

  pub Keeps-if :
      (b : Bool) (m n : Action Price A) → Keeps F m → Keeps F n → Keeps F (if b then m else n)
  Keeps-if true m n km kn = km
  Keeps-if false m n km kn = kn

module _ {Price A B : Type 0} {F : Frame Price} where
  continue-keeps :
      (h h' : Host Price) (r : Result A) (f : A → Action Price B)
      → F.Rel h h'
      → ((a : A) → Keeps F (f a))
      → F.Rel h (continue r f h').1
  unfolding continue
  continue-keeps h h' (ok a) f k kf = F.transitive h h' (f a h').1 k ((kf a).at h')
  continue-keeps h h' (err e) f k kf = k

  pub Keeps-bind :
      (m : Action Price A) (f : A → Action Price B)
      → Keeps F m
      → ((a : A) → Keeps F (f a))
      → Keeps F (m >>= f)
  unfolding ◌>>=◌
  Keeps-bind m f km kf = record { at = λ h. continue-keeps h (m h).1 (m h).0 f (km.at h) kf }

  pub Keeps-given :
      (o : Option A) (m : Action Price B) (f : A → Action Price B)
      → Keeps F m
      → ((a : A) → Keeps F (f a))
      → Keeps F (given o m f)
  unfolding given
  Keeps-given none m f km kf = km
  Keeps-given (some a) m f km kf = kf a

pub ruleset keeps_rules =
    (Keeps-pure, Keeps-raise, Keeps-lift, Keeps-asks, Keeps-gets, Keeps-if, Keeps-bind, Keeps-given)
