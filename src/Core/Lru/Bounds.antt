-- ===== src/Core/Lru/Bounds.antt =====
-- crates/rithmic-exec/src/lru.rs: the well-formedness of the recency map.
use rithmic_nt_connect.Base.{
  ℕ, suc, ◌≤◌, ◌<◌, none, some, List, [], ◌∷◌, ◌++◌, String, eqb, lookup, insert, erase, length,
  ◌≡◌, ◌≢◌, refl, inl, inr, arith, eq_iff, lookup-insert, lookup-erase, length-append, Bool-cases,
  ◌∙◌,
}
use rithmic_nt_connect.Core.Lru.{Lru, remove_tick, insert_tick}

-- Every tick is at most `n`.
abbrev pub Below : ℕ → List (ℕ × String) → Type 0
Below n [] = Unit {0}
Below n ((t, k) ∷ r) = (t ≤ n) × Below n r

abbrev pub Above : ℕ → List (ℕ × String) → Type 0
Above n [] = Unit {0}
Above n ((t, k) ∷ r) = (n < t) × Above n r

abbrev pub Ascending : List (ℕ × String) → Type 0
Ascending [] = Unit {0}
Ascending ((t, k) ∷ r) = Above t r × Ascending r

-- no pair has the tick `n`
abbrev pub Lacks : ℕ → List (ℕ × String) → Type 0
Lacks n [] = Unit {0}
Lacks n ((t, k) ∷ r) = (t ≢ n) × Lacks n r

module _ {ℓ} {V : Type ℓ} where
  -- Each pair names a key that the table holds with this tick.
  abbrev pub Links : List (String × (V × ℕ)) → List (ℕ × String) → Type ℓ
  Links m [] = Unit
  Links m ((t, k) ∷ r) = ((v : V) × (lookup k m ≡ some (v, t))) × Links m r

  pub record IsValid (c : Lru V) : Type ℓ where
    pub below : Below c.clock c.by_recency
    pub ascending : Ascending c.by_recency
    pub links : Links c.entries c.by_recency
    pub covered : length c.entries ≤ length c.by_recency

  length-insert-le :
      (k : String) (x : V × ℕ) (m : List (String × (V × ℕ)))
      → length (insert k x m) ≤ suc (length m)
  length-insert-le k x [] = omega arith
  length-insert-le k x ((j, y) ∷ m) = ground (arith, length-insert-le k x m)

  length-insert_old :
      (k : String) (x y : V × ℕ) (m : List (String × (V × ℕ)))
      → lookup k m ≡ some y
      → length (insert k x m) ≤ length m
  length-insert_old k x y [] h = cc
  length-insert_old k x y ((j, z) ∷ m) h = ground (arith, length-insert_old k x y m)

  length-erase-le : (k : String) (m : List (String × (V × ℕ))) → length (erase k m) ≤ length m
  length-erase-le k [] = omega arith
  length-erase-le k ((j, y) ∷ m) = ground (arith, length-erase-le k m)

  pub length-erase :
      (k : String) (y : V × ℕ) (m : List (String × (V × ℕ)))
      → lookup k m ≡ some y
      → suc (length (erase k m)) ≤ length m
  length-erase k y [] h = cc
  length-erase k y ((j, z) ∷ m) h = ground (arith, length-erase k y m, length-erase-le k m)

  -- a table that agrees at every key whose tick is kept
  pub Links-transfer :
      (k : String) (t : ℕ) (m m' : List (String × (V × ℕ))) (r : List (ℕ × String))
      → ((j : String) → j ≢ k → lookup j m' ≡ lookup j m)
      → ((v : V) (u : ℕ) → lookup k m ≡ some (v, u) → u ≡ t)
      → Lacks t r
      → Links m r
      → Links m' r
  Links-transfer k t m m' [] same old lacks links = tt
  Links-transfer k t m m' ((u, j) ∷ r) same old lacks links =
      let ((v, e), rest) = links in
      let differs : j ≢ k = λ p. lacks.0 (old v u (rw (← p) e)) in
      ((v, same j differs ∙ e), Links-transfer k t m m' r same old lacks.1 rest)

pub Above-Lacks : (t : ℕ) (r : List (ℕ × String)) → Above t r → Lacks t r
Above-Lacks t [] h = tt
Above-Lacks t ((u, k) ∷ r) h = (omega arith, Above-Lacks t r h.1)

Below-Lacks : (n : ℕ) (r : List (ℕ × String)) → Below n r → Lacks (suc n) r
Below-Lacks n [] h = tt
Below-Lacks n ((u, k) ∷ r) h = (omega arith, Below-Lacks n r h.1)

remove_tick-Above : (n t : ℕ) (r : List (ℕ × String)) → Above n r → Above n (remove_tick t r)
unfolding remove_tick
remove_tick-Above n t [] h = tt
remove_tick-Above n t ((u, k) ∷ r) h = ground (arith, remove_tick-Above n t r)

pub remove_tick-Below : (n t : ℕ) (r : List (ℕ × String)) → Below n r → Below n (remove_tick t r)
unfolding remove_tick
remove_tick-Below n t [] h = tt
remove_tick-Below n t ((u, k) ∷ r) h = ground (arith, remove_tick-Below n t r)

remove_tick-Ascending : (t : ℕ) (r : List (ℕ × String)) → Ascending r → Ascending (remove_tick t r)
unfolding remove_tick
remove_tick-Ascending t [] h = tt
remove_tick-Ascending t ((u, k) ∷ r) h =
    ground (arith, remove_tick-Ascending t r, remove_tick-Above u t r)

remove_tick-Lacks : (t : ℕ) (r : List (ℕ × String)) → Ascending r → Lacks t (remove_tick t r)
unfolding remove_tick
remove_tick-Lacks t [] h = tt
remove_tick-Lacks t ((u, k) ∷ r) h = ground (arith, remove_tick-Lacks t r, Above-Lacks u r)

length-remove_tick : (t : ℕ) (r : List (ℕ × String)) → length r ≤ suc (length (remove_tick t r))
unfolding remove_tick
length-remove_tick t [] = omega arith
length-remove_tick t ((u, k) ∷ r) = ground (arith, length-remove_tick t r)

-- A tick above all others goes to the end.
pub insert_tick-append :
    (n : ℕ) (k : String) (r : List (ℕ × String))
    → Below n r
    → insert_tick (suc n) k r ≡ r ++ (suc n, k) ∷ []
unfolding insert_tick
insert_tick-append n k [] h = refl
insert_tick-append n k ((u, j) ∷ r) h = ground (arith, insert_tick-append n k r)

Below-append :
    (n t : ℕ) (k : String) (r : List (ℕ × String)) → Below n r → t ≤ n → Below n (r ++ (t, k) ∷ [])
Below-append n t k [] h e = (e, tt)
Below-append n t k ((u, j) ∷ r) h e = (h.0, Below-append n t k r h.1 e)

pub Below-mono : (n m : ℕ) (r : List (ℕ × String)) → n ≤ m → Below n r → Below m r
Below-mono n m [] e h = tt
Below-mono n m ((u, j) ∷ r) e h = (omega arith, Below-mono n m r e h.1)

Above-append :
    (n t : ℕ) (k : String) (r : List (ℕ × String)) → Above n r → n < t → Above n (r ++ (t, k) ∷ [])
Above-append n t k [] h e = (e, tt)
Above-append n t k ((u, j) ∷ r) h e = (h.0, Above-append n t k r h.1 e)

Ascending-append :
    (n : ℕ) (k : String) (r : List (ℕ × String))
    → Below n r
    → Ascending r
    → Ascending (r ++ (suc n, k) ∷ [])
Ascending-append n k [] b h = (tt, tt)
Ascending-append n k ((u, j) ∷ r) b h =
    (Above-append u (suc n) k r h.0 (omega arith), Ascending-append n k r b.1 h.1)

module _ {ℓ} {V : Type ℓ} where
  Links-append :
      (m : List (String × (V × ℕ))) (t : ℕ) (k : String) (v : V) (r : List (ℕ × String))
      → Links m r
      → lookup k m ≡ some (v, t)
      → Links m (r ++ (t, k) ∷ [])
  Links-append m t k v [] h e = ((v, e), tt)
  Links-append m t k v ((u, j) ∷ r) h e = (h.0, Links-append m t k v r h.1 e)

  remove_tick-Links :
      (m : List (String × (V × ℕ))) (t : ℕ) (r : List (ℕ × String))
      → Links m r
      → Links m (remove_tick t r)
  unfolding remove_tick
  remove_tick-Links m t [] h = tt
  remove_tick-Links m t ((u, j) ∷ r) h = elim (Bool-cases (eqb u t)) [
    | inl e ↦ rw e h.1
    | inr e ↦ rw e (h.0, remove_tick-Links m t r h.1)
  ]

  pub lookup-insert_self :
      (k : String) (x : V × ℕ) (m : List (String × (V × ℕ))) → lookup k (insert k x m) ≡ some x
  lookup-insert_self k x m = lookup-insert k k x m ∙ ground (arith, eq_iff k k)

  lookup-insert_ne :
      (k j : String) (x : V × ℕ) (m : List (String × (V × ℕ)))
      → j ≢ k
      → lookup j (insert k x m) ≡ lookup j m
  lookup-insert_ne k j x m h = lookup-insert k j x m ∙ ground (arith, eq_iff k j)

  pub lookup-erase_ne :
      (k j : String) (m : List (String × (V × ℕ))) → j ≢ k → lookup j (erase k m) ≡ lookup j m
  lookup-erase_ne k j m h = lookup-erase k j m ∙ ground (arith, eq_iff k j)

  -- the state in which the eviction loop starts: the key gets the next tick, last in the order
  abbrev pub renewed : String → V → List (ℕ × String) → Lru V → Lru V
  renewed key v kept c = record c {
    entries = insert key (v, suc c.clock) c.entries;
    by_recency = insert_tick (suc c.clock) key kept;
    clock = suc c.clock;
  }

  -- `kept` is the order without the key's old tick
  renewed-IsValid :
      (key : String) (v : V) (kept : List (ℕ × String)) (c : Lru V)
      → Below c.clock kept
      → Ascending kept
      → Links (insert key (v, suc c.clock) c.entries) kept
      → length (insert key (v, suc c.clock) c.entries) ≤ suc (length kept)
      → IsValid (renewed key v kept c)
  renewed-IsValid key v kept c b a l s = record {
    below = rw (insert_tick-append c.clock key kept b) (
        Below-append (suc c.clock) (suc c.clock) key kept
          (Below-mono c.clock (suc c.clock) kept (omega arith) b) (omega arith));
    ascending = rw (insert_tick-append c.clock key kept b) (Ascending-append c.clock key kept b a);
    links = rw (insert_tick-append c.clock key kept b) (
        Links-append _ (suc c.clock) key v kept l
          (lookup-insert_self key (v, suc c.clock) c.entries));
    covered =
        rw (insert_tick-append c.clock key kept b)
          (omega (arith, length-append kept ((suc c.clock, key) ∷ []), s));
  }

  -- a key that the table does not hold, and one that it holds with tick `t`
  pub renewed-IsValid_new :
      (key : String) (v : V) (c : Lru V)
      → IsValid c
      → lookup key c.entries ≡ none
      → IsValid (renewed key v c.by_recency c)
  renewed-IsValid_new key v c h e =
      renewed-IsValid key v c.by_recency c h.below h.ascending
        (Links-transfer key (suc c.clock) c.entries _ c.by_recency
          (λ j n. lookup-insert_ne key j (v, suc c.clock) c.entries n) (λ w u p. cc)
          (Below-Lacks c.clock c.by_recency h.below) h.links)
        (omega (arith, length-insert-le key (v, suc c.clock) c.entries, h.covered))

  pub renewed-IsValid_old :
      (key : String) (v w : V) (t : ℕ) (c : Lru V)
      → IsValid c
      → lookup key c.entries ≡ some (w, t)
      → IsValid (renewed key v (remove_tick t c.by_recency) c)
  renewed-IsValid_old key v w t c h e =
      renewed-IsValid key v (remove_tick t c.by_recency) c
        (remove_tick-Below c.clock t c.by_recency h.below)
        (remove_tick-Ascending t c.by_recency h.ascending)
        (Links-transfer key t c.entries _ (remove_tick t c.by_recency)
          (λ j n. lookup-insert_ne key j (v, suc c.clock) c.entries n) (λ x u p. cc)
          (remove_tick-Lacks t c.by_recency h.ascending)
          (remove_tick-Links c.entries t c.by_recency h.links))
        (omega (
          arith,
          length-insert_old key (v, suc c.clock) (w, t) c.entries e,
          length-remove_tick t c.by_recency,
          h.covered,
        ))
