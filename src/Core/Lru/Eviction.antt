-- ===== src/Core/Lru/Eviction.antt =====
-- crates/rithmic-exec/src/lru.rs: the eviction loop.
use rithmic_nt_connect.Base.{
  ℕ, suc, ◌≤◌, ◌<◌, true, false, none, some, List, [], ◌∷◌, ◌++◌, ◌==◌, String, ltb, lookup, insert,
  erase, length, ◌≡◌, ◌≢◌, refl, ◌⊎◌, inl, inr, arith, Option-cases, Bool-cases, sym, ◌∙◌, ap,
  subst, lookup-insert, eq_iff,
}
use rithmic_nt_connect.Core.Lru.{Lru, remove_tick, touch, has, get, evict, put, size, new}
use rithmic_nt_connect.Core.Lru.Bounds.{
  Below, Above, IsValid, length-erase, Links-transfer, Above-Lacks, lookup-erase_ne, renewed,
  renewed-IsValid_new, renewed-IsValid_old, insert_tick-append, remove_tick-Below, Below-mono,
  lookup-insert_self,
}

Above-last : (n t : ℕ) (k : String) (r : List (ℕ × String)) → Above n (r ++ (t, k) ∷ []) → n < t
Above-last n t k [] h = h.0
Above-last n t k ((u, j) ∷ r) h = Above-last n t k r h.1

module _ {ℓ} {V : Type ℓ} where
  -- the map after one round of the loop
  abbrev evicted : String → List (ℕ × String) → Lru V → Lru V
  evicted o rest c = record c { entries = erase o c.entries; by_recency = rest }

  evicted-IsValid :
      (t : ℕ) (o : String) (rest : List (ℕ × String)) (c : Lru V)
      → IsValid (record c { by_recency = (t, o) ∷ rest })
      → IsValid (evicted o rest c)
  evicted-IsValid t o rest c h =
      let ((v, e), links) = h.links in
      record {
        below = h.below.1;
        ascending = h.ascending.1;
        links =
            Links-transfer o t c.entries _ rest (λ j n. lookup-erase_ne o j c.entries n)
              (λ x u p. cc) (Above-Lacks t rest h.ascending.0) links;
        covered = omega (arith, length-erase o (v, t) c.entries e, h.covered);
      }

  evict-IsValid :
      (r : List (ℕ × String)) (c : Lru V)
      → IsValid (record c { by_recency = r })
      → IsValid (evict r c)
  unfolding evict
  evict-IsValid [] c h = h
  evict-IsValid ((t, o) ∷ rest) c h = elim (Bool-cases (ltb c.max_size (length c.entries))) [
    | inl e ↦ rw e (evict-IsValid rest (evicted o rest c) (evicted-IsValid t o rest c h))
    | inr e ↦ rw e h
  ]

  evict-size :
      (r : List (ℕ × String)) (c : Lru V)
      → IsValid (record c { by_recency = r })
      → length (evict r c).entries ≤ c.max_size
  unfolding evict
  evict-size [] c h = omega (arith, h.covered)
  evict-size ((t, o) ∷ rest) c h = elim (Bool-cases (ltb c.max_size (length c.entries))) [
    | inl e ↦ rw e (evict-size rest (evicted o rest c) (evicted-IsValid t o rest c h))
    | inr e ↦ rw e (ground arith)
  ]

  evict-max_size : (r : List (ℕ × String)) (c : Lru V) → (evict r c).max_size ≡ c.max_size
  unfolding evict
  evict-max_size [] c = refl
  evict-max_size ((t, o) ∷ rest) c = ground (arith, evict-max_size rest (evicted o rest c))

  -- the newest key is never evicted
  evict-keeps :
      (r : List (ℕ × String)) (t : ℕ) (k : String) (v : V) (c : Lru V)
      → IsValid (record c { by_recency = r ++ (t, k) ∷ [] })
      → 1 ≤ c.max_size
      → lookup k c.entries ≡ some (v, t)
      → lookup k (evict (r ++ (t, k) ∷ []) c).entries ≡ some (v, t)
  unfolding evict
  evict-keeps [] t k v c h m e = elim (Bool-cases (ltb c.max_size (length c.entries))) [
    | inl over ↦ absurd (ground (arith, h.covered))
    | inr fits ↦ rw fits e
  ]
  evict-keeps ((u, o) ∷ r) t k v c h m e = elim (Bool-cases (ltb c.max_size (length c.entries))) [
    | inr fits ↦ rw fits e
    | inl over ↦
        let newer = Above-last u t k r h.ascending.0 in
        let ((w, f), _) = h.links in
        let other : k ≢ o = λ p. absurd (clash p newer f) in
        rw over (
          evict-keeps r t k v (evicted o (r ++ (t, k) ∷ []) c)
            (evicted-IsValid u o (r ++ (t, k) ∷ []) c h) m
            (lookup-erase_ne o k c.entries other ∙ e))
  ]
    where
      clash : k ≡ o → u < t → {w : V} → lookup o c.entries ≡ some (w, u) → ⊥
      clash p lt q = ground (arith, ap (λ j. lookup j c.entries) p)

module _ {ℓ} {V : Type ℓ} where
  -- `put` starts the loop from the renewed state, whether or not the key was there.
  pub put-split :
      (k : String) (v : V) (c : Lru V)
      → IsValid c
      → (kept : List (ℕ × String)) × (put k v c
          ≡ evict (renewed k v kept c).by_recency (renewed k v kept c))
        × IsValid (renewed k v kept c)
        × Below c.clock kept
  unfolding put
  put-split k v c h = elim (Option-cases (lookup k c.entries)) [
    | inl e ↦ (c.by_recency, rw e refl, renewed-IsValid_new k v c h e, h.below)
    | inr ((w, t), e) ↦ (
      remove_tick t c.by_recency,
      rw e refl,
      renewed-IsValid_old k v w t c h e,
      remove_tick-Below c.clock t c.by_recency h.below,
    )
  ]

  pub put-IsValid : (k : String) (v : V) (c : Lru V) → IsValid c → IsValid (put k v c)
  put-IsValid k v c h =
      let (kept, e, valid, _) = put-split k v c h in
      rw e (evict-IsValid (renewed k v kept c).by_recency (renewed k v kept c) valid)

  -- A put into a valid map never leaves more entries than the bound.
  pub put-size : (k : String) (v : V) (c : Lru V) → IsValid c → size (put k v c) ≤ c.max_size
  unfolding size
  put-size k v c h =
      let (kept, e, valid, _) = put-split k v c h in
      rw e (evict-size (renewed k v kept c).by_recency (renewed k v kept c) valid)

  pub put-max_size :
      (k : String) (v : V) (c : Lru V) → IsValid c → (put k v c).max_size ≡ c.max_size
  put-max_size k v c h =
      let (kept, e, _, _) = put-split k v c h in
      rw e (evict-max_size (renewed k v kept c).by_recency (renewed k v kept c))

  -- A key that was just put in a valid map with room for an entry is found with its new value and the
  -- newest tick.
  pub lookup-put :
      (k : String) (v : V) (c : Lru V)
      → IsValid c
      → 1 ≤ c.max_size
      → lookup k (put k v c).entries ≡ some (v, suc c.clock)
  lookup-put k v c h m =
      let (kept, e, valid, b) = put-split k v c h in
      let q = insert_tick-append c.clock k kept b in
      rw e (
        subst (λ x. lookup k (evict x (renewed k v kept c)).entries ≡ some (v, suc c.clock)) (sym q)
          (evict-keeps kept (suc c.clock) k v (renewed k v kept c)
            (subst (λ x. IsValid (record (renewed k v kept c) { by_recency = x })) q valid) m
            (lookup-insert_self k (v, suc c.clock) c.entries)))

  touch-IsValid : (k : String) (c : Lru V) → IsValid c → IsValid (touch k c)
  unfolding touch
  touch-IsValid k c h = elim (Option-cases (lookup k c.entries)) [
    | inl e ↦
        rw (e, touch)
          (record {
            below = Below-mono c.clock (suc c.clock) c.by_recency (omega arith) h.below;
            ascending = h.ascending;
            links = h.links;
            covered = h.covered;
          })
    | inr ((w, t), e) ↦ rw (e, touch) (renewed-IsValid_old k w w t c h e)
  ]

  -- A look-up keeps the map valid, and answers whether the table holds the key.
  pub has-IsValid : (k : String) (c : Lru V) → IsValid c → IsValid (has k c).0
  unfolding has
  has-IsValid k c h = elim (Option-cases (lookup k c.entries)) [
    | inl e ↦ rw (e, has) h
    | inr (x, e) ↦ rw (e, has) (touch-IsValid k c h)
  ]

  pub has_miss : (k : String) (c : Lru V) → lookup k c.entries ≡ none → has k c ≡ (c, false)
  unfolding has
  has_miss k c e = rw (e, has) refl

  pub has_hit :
      (k : String) (c : Lru V) (x : V × ℕ) → lookup k c.entries ≡ some x → (has k c).1 ≡ true
  unfolding has
  has_hit k c x e = rw (e, has) refl

  pub has-max_size : (k : String) (c : Lru V) → (has k c).0.max_size ≡ c.max_size
  unfolding has touch
  has-max_size k c = ground arith

  pub get-IsValid : (k : String) (c : Lru V) → IsValid c → IsValid (get k c).0
  unfolding get
  get-IsValid k c h = elim (Option-cases (lookup k c.entries)) [
    | inl e ↦ rw (e, get) h
    | inr (x, e) ↦ rw (e, get) (touch-IsValid k c h)
  ]

  -- A look-up forgets no key: every key that was held is held after it, with its value.
  pub lookup-has :
      (k j : String) (c : Lru V) (v : V) (t : ℕ)
      → lookup j c.entries ≡ some (v, t)
      → (u : ℕ) × (lookup j (has k c).0.entries ≡ some (v, u))
  unfolding has touch
  lookup-has k j c v t e = elim (Option-cases (lookup k c.entries)) [
    | inl p ↦ rw (p, has) (t, e)
    | inr ((w, u), p) ↦ rw (p, has) (rw (p, touch) (kept (Bool-cases (k == j)) w u p))
  ]
    where
      kept :
          ((k == j) ≡ true) ⊎ ((k == j) ≡ false)
          → (w : V) (u : ℕ) → lookup k c.entries ≡ some (w, u)
          → (u' : ℕ) × (lookup j (insert k (w, suc c.clock) c.entries) ≡ some (v, u'))
      kept (inl same) w u p =
          (suc c.clock, ground (arith, lookup-insert k j (w, suc c.clock) c.entries, eq_iff k j))
      kept (inr other) w u p =
          (t, ground (arith, lookup-insert k j (w, suc c.clock) c.entries, eq_iff k j))

  pub new-IsValid : (n : ℕ) → IsValid (new {V = V} n)
  unfolding new
  new-IsValid n = record { below = tt; ascending = tt; links = tt; covered = omega arith }
