-- ===== src/TextSets.antt =====
-- Python's sets of texts, as lists.
use rithmic_nt_connect.Base.{
  String, true, false, not, List, [], ◌∷◌, if◌then◌else◌, ◌==◌, ◌≡◌, arith, select, mem_text,
  eq_iff,
}

-- `set.add`
unfoldable pub add_text : String → List String → List String
add_text s set = if mem_text s set then set else s ∷ set

-- `set.discard`
unfoldable pub discard : String → List String → List String
discard s set = select (λ t. not (t == s)) set

pub mem_text-add_text :
    (s t : String) (set : List String) → mem_text s set ≡ true → mem_text s (add_text t set) ≡ true
unfolding add_text
mem_text-add_text s t set e = ground arith

pub mem_text-added : (s : String) (set : List String) → mem_text s (add_text s set) ≡ true
unfolding add_text
mem_text-added s set = ground (arith, eq_iff s s)

pub mem_text-discard :
    (s t : String) (set : List String)
    → t == s ≡ false
    → mem_text s set ≡ true
    → mem_text s (discard t set) ≡ true
unfolding discard
mem_text-discard s t [] n e = cc
mem_text-discard s t (x ∷ set) n e =
    ground (arith, mem_text-discard s t set n, eq_iff x s, eq_iff x t, eq_iff t s)
