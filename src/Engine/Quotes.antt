-- ===== src/Engine/Quotes.antt =====
-- core/policyengine/engine/utils.go: trimBoundingQuotes.
use sf_processor.Prelude.{
  ℕ, ◌≡◌, refl, Bool, true, false, ◌||◌, [], ◌∷◌, ◌++◌, nat_beq, if◌then◌else◌, arith,
}
use sf_processor.Prelude.Text.{Str}

unfoldable pub is_quote : ℕ → Bool
is_quote c = nat_beq c 34 || nat_beq c 39

-- s[1:] where s begins with a quote
unfoldable pub trim_front : Str → Str
unfolding is_quote
trim_front [] = []
trim_front (c ∷ s) = if is_quote c then s else c ∷ s

-- s[:len(s)-1]
unfoldable pub but_last : Str → Str
but_last [] = []
but_last (c ∷ []) = []
but_last (c ∷ d ∷ s) = c ∷ but_last (d ∷ s)

unfoldable pub ends_in_quote : Str → Bool
unfolding is_quote
ends_in_quote [] = false
ends_in_quote (c ∷ []) = is_quote c
ends_in_quote (c ∷ d ∷ s) = ends_in_quote (d ∷ s)

unfoldable pub trim_bounding_quotes : Str → Str
unfolding trim_front but_last ends_in_quote
trim_bounding_quotes s = let t = trim_front s in if ends_in_quote t then but_last t else t

ends_in_quote-append : (s : Str) (q : ℕ) → ends_in_quote (s ++ q ∷ []) ≡ is_quote q
unfolding ends_in_quote
ends_in_quote-append [] q = refl
ends_in_quote-append (c ∷ []) q = refl
ends_in_quote-append (c ∷ d ∷ s) q = ends_in_quote-append (d ∷ s) q

but_last-append : (s : Str) (q : ℕ) → but_last (s ++ q ∷ []) ≡ s
unfolding but_last
but_last-append [] q = refl
but_last-append (c ∷ []) q = refl
but_last-append (c ∷ d ∷ s) q = ground (arith, but_last-append (d ∷ s) q)

-- Trimming takes one pair of quotes off a quoted text, of either kind and matching or not, and
-- gives back the text between them.
pub trim-quoted :
    (open_quote close_quote : ℕ) (s : Str)
    → is_quote open_quote ≡ true
    → is_quote close_quote ≡ true
    → trim_bounding_quotes (open_quote ∷ (s ++ close_quote ∷ [])) ≡ s
unfolding trim_bounding_quotes trim_front
trim-quoted o c s ho hc = ground (arith, ends_in_quote-append s c, but_last-append s c)

-- A text that neither begins nor ends with a quote is kept.
pub trim-unquoted :
    (c : ℕ) (s : Str)
    → is_quote c ≡ false
    → ends_in_quote (c ∷ s) ≡ false
    → trim_bounding_quotes (c ∷ s) ≡ c ∷ s
unfolding trim_bounding_quotes trim_front
trim-unquoted c s h e = ground arith
