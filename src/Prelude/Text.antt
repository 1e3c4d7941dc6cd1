-- ===== src/Prelude/Text.antt =====
-- Texts by their code points, for the string methods that the source uses: `lower`, `strip` and
-- `in`. `lower` and `strip` treat the ASCII letters and blanks, and leave other code points alone.
use Prim.Native.Char.{code}
use Prim.Native.Nat.{ℕ, zero, suc, ◌+◌}
use Prim.Native.String.{String}
use mathlib.Core.Bool.{Bool, true, false, ◌&&◌, ◌||◌}
use mathlib.Core.List.{List, [], ◌∷◌, map, reverse}
use sccsos.Prelude.Tests.{leb, ◌==◌, if◌then◌else◌}

-- `String` has its own `[]` and `∷`.
abbrev pub codes : String → List ℕ
codes String.[] = []
codes (String.◌∷◌ c s) = code c ∷ codes s

abbrev pub lower_code : ℕ → ℕ
lower_code c = if leb b'A' c && leb c b'Z' then c + 32 else c

-- `t.lower()`
unfoldable pub lower : List ℕ → List ℕ
lower = map lower_code

-- blank, tab, line feed, vertical tab, form feed, carriage return
abbrev pub is_blank : ℕ → Bool
is_blank c = c == 32 || (leb 9 c && leb c 13)

unfoldable pub skip_blanks : List ℕ → List ℕ
skip_blanks [] = []
skip_blanks (c ∷ t) = let rest = skip_blanks t in if is_blank c then rest else c ∷ t

-- `t.strip()`
unfoldable pub strip : List ℕ → List ℕ
unfolding skip_blanks
strip t = reverse (skip_blanks (reverse (skip_blanks t)))

unfoldable pub begins_with : List ℕ → List ℕ → Bool
begins_with t [] = true
begins_with [] (p ∷ ps) = false
begins_with (c ∷ t) (p ∷ ps) = c == p && begins_with t ps

-- `p in t`
unfoldable pub holds_text : List ℕ → List ℕ → Bool
unfolding begins_with
holds_text p [] = begins_with [] p
holds_text p (c ∷ t) = begins_with (c ∷ t) p || holds_text p t

-- `t == u`
unfoldable pub same_text : List ℕ → List ℕ → Bool
same_text [] [] = true
same_text (c ∷ t) (d ∷ u) = c == d && same_text t u
same_text _ _ = false

-- `t[:n]`
unfoldable pub cut : ℕ → String → String
cut zero t = String.[]
cut (suc n) String.[] = String.[]
cut (suc n) (String.◌∷◌ c t) = String.◌∷◌ c (cut n t)
