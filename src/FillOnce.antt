-- ===== src/FillOnce.antt =====
-- The dedup store that the live handlers of notification_intake.py and the fill reconciliation of
-- recon.py share: how a call may change the store and the fills that go out.
pub mod Paths
pub mod Notices
pub mod Sequences
pub mod Tests
use rithmic_nt_connect.Base.{
  ℕ, suc, ◌+◌, ◌≤◌, ◌≡◌, refl, sym, ◌∙◌, ap, Bool, true, false, Option, none, some, String, ◌⊎◌,
  inl, inr, arith, lookup, if◌then◌else◌, Option-cases,
}
use rithmic_nt_connect.Values.{Result, ok, err}
use rithmic_nt_connect.Core.Lru
use rithmic_nt_connect.Core.Lru.Bounds.{IsValid}
use rithmic_nt_connect.Core.Lru.Eviction.{
  put-IsValid, put-max_size, lookup-put, has-IsValid, lookup-has, has-max_size, has_miss, has_hit,
}
use rithmic_nt_connect.Client.State.{
  Host, Action, ◌>>=◌, continue, pure, fill_key_seen, mark_fill_key,
}
use rithmic_nt_connect.Client.Keeps.{Keeps}
use rithmic_nt_connect.Client.Keeps.Quiet.{SameFills, Quiet, fill_events}

module _ {Price : Type 0} where
  -- The dedup store is a valid recency map with room for a key (the client gives it 10,000).
  pub record StoreOk (h : Host Price) : Type 0 where
    pub valid : IsValid h.seen_fill_keys
    pub room : 1 ≤ h.seen_fill_keys.max_size

  abbrev pub HasKey : String → Host Price → Type 0
  HasKey key h = (t : ℕ) × (lookup key h.seen_fill_keys.entries ≡ some (tt, t))

module _ {Price : Type 0} (key : String) where
  -- No fill goes out; `n` counts the fill reports that the call returns.
  pub record Silent (h h' : Host Price) (n : ℕ) : Type 0 where
    pub sent : fill_events h'.emitted + n ≡ fill_events h.emitted
    pub keeps_ok : StoreOk h → StoreOk h'
    pub keeps_key : HasKey key h → HasKey key h'

  -- One fill goes out, its key was not known before and is known afterwards.
  pub record Sent (h h' : Host Price) (n : ℕ) : Type 0 where
    pub sent : fill_events h'.emitted + n ≡ suc (fill_events h.emitted)
    pub fresh : lookup key h.seen_fill_keys.entries ≡ none
    pub keeps_ok : StoreOk h → StoreOk h'
    pub known : StoreOk h → HasKey key h'

  abbrev pub Outcome : Host Price → Host Price → ℕ → Type 0
  Outcome h h' n = Silent h h' n ⊎ Sent h h' n

  pub Silent-SameFills : (h h' : Host Price) → SameFills h h' → Silent h h' 0
  Silent-SameFills h h' q = record {
    sent = omega (arith, q.sent);
    keeps_ok = λ s. record { valid = rw q.store s.valid; room = rw q.store s.room };
    keeps_key = λ s. rw q.store s;
  }

  pub Outcome-after :
      (h h1 h2 : Host Price) (n : ℕ) → SameFills h h1 → Outcome h1 h2 n → Outcome h h2 n
  Outcome-after h h1 h2 n q (inl s) = inl (record {
    sent = s.sent ∙ q.sent;
    keeps_ok = λ o. s.keeps_ok (record { valid = rw q.store o.valid; room = rw q.store o.room });
    keeps_key = λ o. s.keeps_key (rw q.store o);
  })
  Outcome-after h h1 h2 n q (inr s) = inr (record {
    sent = omega (arith, s.sent, q.sent);
    fresh = ap (λ c. lookup key (c.entries)) (sym q.store) ∙ s.fresh;
    keeps_ok = λ o. s.keeps_ok (record { valid = rw q.store o.valid; room = rw q.store o.room });
    known = λ o. s.known (record { valid = rw q.store o.valid; room = rw q.store o.room });
  })

module _ {B : Type 0} (count : B → ℕ) where
  -- the fill reports that a result carries
  abbrev pub reported : Result B → ℕ
  reported (ok b) = count b
  reported (err e) = 0

  abbrev pub OutcomeOf : {Price : Type 0} → String → Host Price → Result B × Host Price → Type 0
  OutcomeOf key h (r, h') = Outcome key h h' (reported r)

module _ {Price A B : Type 0} (count : B → ℕ) (key : String) where
  pub Outcome-bind :
      (m : Action Price A) (f : A → Action Price B) (h : Host Price)
      → Quiet m
      → ((a : A) (h1 : Host Price) → SameFills h h1 → OutcomeOf count key h1 (f a h1))
      → OutcomeOf count key h ((m >>= f) h)
  unfolding ◌>>=◌
  Outcome-bind m f h q k = go (m h).0 (m h).1 (q.at h)
    where
      go :
          (r : Result A) (h1 : Host Price)
          → SameFills h h1
          → OutcomeOf count key h (continue r f h1)
      go (ok a) h1 s = Outcome-after key h h1 (f a h1).1 _ s (k a h1 s)
      go (err e) h1 s = inl (Silent-SameFills key h h1 s)

module _ {Price B : Type 0} (count : B → ℕ) (key : String) where
  -- The guard of all three paths: a known key ends the call, an unknown one changes nothing.
  pub Outcome-guard :
      (b : B) (rest : Action Price B) (h : Host Price)
      → count b ≡ 0
      → (lookup key h.seen_fill_keys.entries ≡ none → OutcomeOf count key h (rest h))
      → OutcomeOf count key h ((fill_key_seen key >>= λ seen. if seen then pure b else rest) h)
  unfolding ◌>>=◌ fill_key_seen
  Outcome-guard b rest h z k = elim (Option-cases (lookup key h.seen_fill_keys.entries)) [
    | inl e ↦ rw (has_miss key h.seen_fill_keys e) (k e)
    | inr (x, e) ↦ rw (has_hit key h.seen_fill_keys x e) (
        inl (record {
          sent = omega (arith, z);
          keeps_ok = λ s. record {
            valid = has-IsValid key h.seen_fill_keys s.valid;
            room = rw (has-max_size key h.seen_fill_keys) s.room;
          };
          keeps_key = λ (t, p). lookup-has key key h.seen_fill_keys tt t p;
        }))
  ]

  -- A known key ends the call with nothing sent.
  pub guard_known :
      (b : B) (rest : Action Price B) (h : Host Price)
      → count b ≡ 0
      → HasKey key h
      → Silent key h ((fill_key_seen key >>= λ seen. if seen then pure b else rest) h).1 0
  unfolding ◌>>=◌ fill_key_seen
  guard_known b rest h z (t, e) = rw (has_hit key h.seen_fill_keys (tt, t) e) (record {
    sent = omega arith;
    keeps_ok = λ s. record {
      valid = has-IsValid key h.seen_fill_keys s.valid;
      room = rw (has-max_size key h.seen_fill_keys) s.room;
    };
    keeps_key = λ (u, p). lookup-has key key h.seen_fill_keys tt u p;
  })
