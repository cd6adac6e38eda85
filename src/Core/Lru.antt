-- ===== src/Core/Lru.antt =====
-- crates/rithmic-exec/src/lru.rs: a bounded recency map. The hash map is an association list that
-- is read by key only; the tree map by tick is a list in ascending order of ticks. The clock, a u64
-- in the source, has no upper bound here: it would overflow at the 2 ^ 64th touch or put.
pub mod Tests
pub mod Bounds
pub mod Eviction
use rithmic_nt_connect.Base.{
  ℕ, zero, suc, Bool, true, false, Option, none, some, List, [], ◌∷◌, ◌==◌, String, if◌then◌else◌,
  ltb, eqb, lookup, insert, erase, length,
}

pub record Lru {ℓ} (V : Type ℓ) : Type ℓ where
  pub entries : List (String × (V × ℕ))
  pub by_recency : List (ℕ × String)
  pub clock : ℕ
  pub max_size : ℕ

-- `by_recency.remove(tick)` and `by_recency.insert(tick, key)`
unfoldable pub remove_tick : ℕ → List (ℕ × String) → List (ℕ × String)
remove_tick t [] = []
remove_tick t ((u, k) ∷ r) = if eqb u t then r else (u, k) ∷ remove_tick t r

unfoldable pub insert_tick : ℕ → String → List (ℕ × String) → List (ℕ × String)
insert_tick t k [] = (t, k) ∷ []
insert_tick t k ((u, j) ∷ r) =
    if ltb t u
    then (t, k) ∷ (u, j) ∷ r
    else if eqb u t
    then (t, k) ∷ r
    else (u, j) ∷ insert_tick t k r

module _ {ℓ} {V : Type ℓ} where
  unfoldable pub new : ℕ → Lru V
  new max_size = record { entries = []; by_recency = []; clock = 0; max_size = max_size }

  unfoldable pub touch : String → Lru V → Lru V
  unfolding remove_tick insert_tick
  touch key c = elim (lookup key c.entries) [
    | none ↦ record c { clock = suc c.clock }
    | some (v, tick) ↦ record c {
      entries = insert key (v, suc c.clock) c.entries;
      by_recency = insert_tick (suc c.clock) key (remove_tick tick c.by_recency);
      clock = suc c.clock;
    }
  ]

  unfoldable pub has : String → Lru V → Lru V × Bool
  unfolding touch
  has key c = elim (lookup key c.entries) [ none ↦ (c, false) | some _ ↦ (touch key c, true) ]

  unfoldable pub get : String → Lru V → Lru V × Option V
  unfolding touch
  get key c = elim (lookup key c.entries) [ none ↦ (c, none) | some (v, _) ↦ (touch key c, some v) ]

  -- the loop that evicts while there are too many; each round removes one entry of the tree map
  unfoldable pub evict : List (ℕ × String) → Lru V → Lru V
  evict [] c = record c { by_recency = [] }
  evict ((t, oldest) ∷ rest) c =
      let next = evict rest (record c { entries = erase oldest c.entries; by_recency = rest }) in
      if ltb c.max_size (length c.entries)
      then next
      else record c { by_recency = (t, oldest) ∷ rest }

  unfoldable pub put : String → V → Lru V → Lru V
  unfolding remove_tick insert_tick evict
  put key value c =
      let tick = suc c.clock in
      let old : List (ℕ × String) = elim (lookup key c.entries) [
        | none ↦ c.by_recency
        | some (_, t) ↦ remove_tick t c.by_recency
      ] in
      let recency = insert_tick tick key old in
      evict recency (record c {
        entries = insert key (value, tick) c.entries;
        by_recency = recency;
        clock = tick;
      })

  unfoldable pub clear : Lru V → Lru V
  clear c = record c { entries = []; by_recency = [] }

  unfoldable pub size : Lru V → ℕ
  size c = length c.entries
