-- ===== src/Prelude/Text.antt =====
-- Go strings as lists of bytes, with the functions of package `strings` that the code calls.
use sf_processor.Prelude.Tests.{nat_beq, leb, if◌then◌else◌, list_beq, nat_eq}
use sf_processor.Prelude.Lists.{All}
use mathlib.Core.Path.{◌≡◌, refl, ap, ◌∙◌}
use native.Mathlib.Omega.{arith}
use Prim.Native.Nat.{ℕ, ◌+◌}
use Prim.Native.Char.{code}
use Prim.Native.String.{String}
use mathlib.Core.Bool.{Bool, true, false, ◌&&◌, ◌||◌}
use mathlib.Core.List.{List, [], ◌∷◌, ◌++◌, map}

abbrev pub Str : Type 0
Str = List ℕ

-- The bytes of an ASCII literal.
abbrev pub str : String → Str
str String.[] = []
str (String.◌∷◌ c s) = code c ∷ str s

-- strings.HasPrefix(s, p)
unfoldable pub has_prefix : Str → Str → Bool
has_prefix s [] = true
has_prefix [] (y ∷ p) = false
has_prefix (x ∷ s) (y ∷ p) = nat_beq x y && has_prefix s p

-- strings.HasSuffix(s, p)
unfoldable pub has_suffix : Str → Str → Bool
has_suffix [] p = list_beq [] p
has_suffix (x ∷ s) p = list_beq (x ∷ s) p || has_suffix s p

-- strings.Contains(s, p)
unfoldable pub contains : Str → Str → Bool
unfolding has_prefix
contains [] p = has_prefix [] p
contains (x ∷ s) p = has_prefix (x ∷ s) p || contains s p

-- strings.ToLower on ASCII
unfoldable pub lower_byte : ℕ → ℕ
lower_byte c = if leb b'A' c && leb c b'Z' then c + 32 else c

unfoldable pub to_lower : Str → Str
unfolding lower_byte
to_lower s = map lower_byte s

-- strings.Split at one byte: a list with one part more than separators.
abbrev pub push_front : ℕ → List Str → List Str
push_front c [] = (c ∷ []) ∷ []
push_front c (p ∷ ps) = (c ∷ p) ∷ ps

unfoldable pub split : ℕ → Str → List Str
split sep [] = [] ∷ []
split sep (c ∷ s) = let rest = split sep s in if nat_beq c sep then [] ∷ rest else push_front c rest

-- strings.Join with one byte
unfoldable pub join : ℕ → List Str → Str
join sep [] = []
join sep (p ∷ []) = p
join sep (p ∷ q ∷ ps) = p ++ (sep ∷ join sep (q ∷ ps))

-- No byte of the text is the separator.
abbrev pub Lacks : ℕ → Str → Type 0
Lacks sep s = All (λ c. nat_beq c sep ≡ false) s

split-lacking : (sep : ℕ) (p : Str) → Lacks sep p → split sep p ≡ p ∷ []
unfolding split
split-lacking sep [] h = refl
split-lacking sep (c ∷ p) (h, t) = ground (arith, split-lacking sep p t)

split-append : (sep : ℕ) (p s : Str) → Lacks sep p → split sep (p ++ (sep ∷ s)) ≡ p ∷ split sep s
unfolding split
split-append sep [] s h = ground arith
split-append sep (c ∷ p) s (h, t) = ground (arith, split-append sep p s t)

-- Splitting undoes joining, where no part holds the separator.
pub split-join :
    (sep : ℕ) (p : Str) (ps : List Str)
    → All (Lacks sep) (p ∷ ps)
    → split sep (join sep (p ∷ ps)) ≡ p ∷ ps
unfolding join
split-join sep p [] (h, t) = split-lacking sep p h
split-join sep p (q ∷ ps) (h, t) =
    split-append sep p (join sep (q ∷ ps)) h ∙ ap (λ z. p ∷ z) (split-join sep q ps t)
