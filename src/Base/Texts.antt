-- ===== src/Base/Texts.antt =====
-- Texts that the program walks are lists of code points; case mapping and whitespace are ASCII's.
use Prim.Native.Nat.{ℕ, ◌+◌, ◌-◌}
use Prim.Native.Char.{code}
use Prim.Native.String.{String, slice, ◌++◌ as append}
use mathlib.Core.Path.{◌≡◌, refl}
use text.Mathlib.Text.{◌==◌}
use mathlib.Core.Bool.{Bool, true, false, ◌&&◌, ◌||◌}
use mathlib.Core.List.{List, [], ◌∷◌, map, reverse}
use rithmic_nt_connect.Base.Tests.{leb, eqb, if◌then◌else◌}

abbrev pub Text : Type 0
Text = List ℕ

abbrev pub codes : String → Text
codes String.[] = []
codes (String.◌∷◌ c s) = code c ∷ codes s

abbrev pub upper_code : ℕ → ℕ
upper_code c = if leb b'a' c && leb c b'z' then c - 32 else c

abbrev pub lower_code : ℕ → ℕ
lower_code c = if leb b'A' c && leb c b'Z' then c + 32 else c

-- `s.upper()` and `s.lower()`
abbrev pub upper : String → Text
upper s = map upper_code (codes s)

abbrev pub lower : String → Text
lower s = map lower_code (codes s)

abbrev pub same_text : Text → Text → Bool
same_text [] [] = true
same_text [] (d ∷ t) = false
same_text (c ∷ s) [] = false
same_text (c ∷ s) (d ∷ t) = eqb c d && same_text s t

-- `t.startswith(s)`
abbrev pub is_prefix : Text → Text → Bool
is_prefix [] t = true
is_prefix (c ∷ s) [] = false
is_prefix (c ∷ s) (d ∷ t) = eqb c d && is_prefix s t

-- `s in t`
abbrev pub contains : Text → Text → Bool
contains s [] = is_prefix s []
contains s (d ∷ t) = is_prefix s (d ∷ t) || contains s t

abbrev pub is_space : ℕ → Bool
is_space c = (leb 9 c && leb c 13) || (leb 28 c && leb c 32)

abbrev pub trim_start : Text → Text
trim_start [] = []
trim_start (c ∷ s) = if is_space c then trim_start s else c ∷ s

-- `s.strip()`
abbrev pub trim : Text → Text
trim s = reverse (trim_start (reverse (trim_start s)))

abbrev pub mem_text_of : Text → List Text → Bool
mem_text_of s [] = false
mem_text_of s (t ∷ ts) = same_text t s || mem_text_of s ts

-- The same on native texts, where the result is kept.
abbrev pub drop_space : String → String
drop_space String.[] = ""
drop_space (String.◌∷◌ c s) = if is_space (code c) then drop_space s else String.◌∷◌ c s

abbrev pub drop_space_end : String → String
drop_space_end String.[] = ""
drop_space_end (String.◌∷◌ c s) =
    let rest = drop_space_end s in if rest == "" && is_space (code c) then "" else String.◌∷◌ c rest

abbrev pub strip : String → String
strip s = drop_space_end (drop_space s)

abbrev pub upper_string : String → String
upper_string String.[] = ""
upper_string (String.◌∷◌ c s) =
    let rest = upper_string s in
    if leb b'a' (code c) && leb (code c) b'z'
    then append (slice "ABCDEFGHIJKLMNOPQRSTUVWXYZ" (code c - b'a') (code c - b'a' + 1)) rest
    else String.◌∷◌ c rest

abbrev pub has_code : ℕ → String → Bool
has_code x String.[] = false
has_code x (String.◌∷◌ c s) = eqb (code c) x || has_code x s

trim_test : upper_string (strip "  mnq-z6 ") ≡ "MNQ-Z6"
trim_test = refl
