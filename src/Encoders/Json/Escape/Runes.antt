-- ===== src/Encoders/Json/Escape/Runes.antt =====
-- core/exporter/encoders/json.go: the bytes behind the first one of a rune.
use sf_processor.Prelude.{
  ℕ, zero, suc, ◌-◌, ◌+◌, ◌*◌, ◌≤◌, ◌≡◌, refl, Bool, true, false, ◌&&◌, ◌||◌, [], ◌∷◌, ltb, leb,
  nat_beq, Bool-cases, inl, inr, and_iff, arith,
}
use mathlib.Core.Path.{ap₂}
use sf_processor.Prelude.Text.{Str}
use sf_processor.Prelude.Utf8.{
  is_broken, decode_rune, decode_more, Lead, lead, between, second_of, bad_lead, two_bytes,
  three_bytes, four_bytes,
}

-- n bytes are there, none of them ASCII.
abbrev pub Ahead : ℕ → Str → Type 0
Ahead zero s = Unit {0}
Ahead (suc n) [] = ⊥
Ahead (suc n) (c ∷ s) = (128 ≤ c) × Ahead n s

abbrev pub is_separator : ℕ → Bool
is_separator r = nat_beq r 8232 || nat_beq r 8233

-- What the bytes `c ∷ s` are that decode to a rune.
pub record Rune (c : ℕ) (s : Str) (decoded : ℕ × ℕ) : Type 0 where
  pub more : ℕ
  pub width : decoded.1 ≡ suc more
  pub ahead : Ahead more s
  pub separator :
      is_separator decoded.0 ≡ true
      → (s' : Str) × (c ≡ 226) × (s ≡ 128 ∷ (decoded.0 - 8064) ∷ s') × (more ≡ 2)

lead_two : (c : ℕ) → lead c ≡ two_bytes → (194 ≤ c) × (c ≤ 223)
lead_two c e = ground arith

lead_three : (c : ℕ) → lead c ≡ three_bytes → (224 ≤ c) × (c ≤ 239)
lead_three c e = ground arith

lead_four : (c : ℕ) → lead c ≡ four_bytes → 240 ≤ c
lead_four c e = ground arith

second_bounds : (c d : ℕ) → second_of c d ≡ true → (128 ≤ d) × (d ≤ 191) × (c ≡ 240 → 144 ≤ d)
second_bounds c d h = (ground arith, ground arith, λ e. ground arith)

four_past :
    (c d x : ℕ)
    → 240 ≤ c
    → (c ≡ 240 → 144 ≤ d)
    → 128 ≤ d
    → (c - 240) * 262144 + ((d - 128) * 4096 + x) ≤ 8233
    → ⊥
four_past c d x least past lo small = ground arith

leb→le : (a b : ℕ) → leb a b ≡ true → a ≤ b
leb→le a b h = ground arith

separator_iff : (r : ℕ) → is_separator r ≡ true → (8232 ≤ r) × (r ≤ 8233)
separator_iff r h = ground arith

decode_more-Rune :
    (l : Lead) (c : ℕ) (s : Str)
    → lead c ≡ l
    → is_broken (decode_more l c s) ≡ false
    → Rune c s (decode_more l c s)
unfolding decode_more
decode_more-Rune bad_lead c s e h = absurd (cc)
decode_more-Rune two_bytes c [] e h = absurd (cc)
decode_more-Rune two_bytes c (d ∷ s) e h = elim (Bool-cases (between 128 191 d)) [
  | inl t ↦ rw t (record {
    more = 1;
    width = refl;
    ahead = (ground arith, tt);
    separator =
        λ q. absurd (ground (arith, separator_iff ((c - 192) * 64 + (d - 128)) q, lead_two c e));
  })
  | inr n ↦ absurd (ground arith)
]
decode_more-Rune three_bytes c [] e h = absurd (cc)
decode_more-Rune three_bytes c (d ∷ []) e h = absurd (cc)
decode_more-Rune three_bytes c (d ∷ f ∷ s) e h =
    elim (Bool-cases (second_of c d && between 128 191 f)) [
      | inl t ↦
          let (t₁, t₂) = (and_iff (second_of c d) (between 128 191 f)).0 t in
          let (lo, hi, _) = second_bounds c d t₁ in
          let (low, high) = (and_iff (leb 128 f) (leb f 191)).0 t₂ in
          let from = leb→le 128 f low in
          let to = leb→le f 191 high in
          let (atleast, atmost) = lead_three c e in
          rw t (record {
            more = 2;
            width = refl;
            ahead = (lo, (from, tt));
            separator = λ q.
                let (least, most) =
                  separator_iff ((c - 224) * 4096 + ((d - 128) * 64 + (f - 128))) q in
                let first : c ≡ 226 = omega arith in
                let second : d ≡ 128 = omega arith in
                let third : f ≡ (c - 224) * 4096 + ((d - 128) * 64 + (f - 128)) - 8064 =
                  omega arith in
                (s, first, ap₂ (λ x y. x ∷ y ∷ s) second third, refl);
          })
      | inr n ↦ absurd (ground arith)
    ]
decode_more-Rune four_bytes c [] e h = absurd (cc)
decode_more-Rune four_bytes c (d ∷ []) e h = absurd (cc)
decode_more-Rune four_bytes c (d ∷ f ∷ []) e h = absurd (cc)
decode_more-Rune four_bytes c (d ∷ f ∷ g ∷ s) e h =
    elim (Bool-cases (second_of c d && (between 128 191 f && between 128 191 g))) [
      | inl t ↦
          let (t₁, t₂) = (and_iff (second_of c d) (between 128 191 f && between 128 191 g)).0 t in
          let (lo, hi, past) = second_bounds c d t₁ in
          let (t₃, t₄) = (and_iff (between 128 191 f) (between 128 191 g)).0 t₂ in
          let third = leb→le 128 f ((and_iff (leb 128 f) (leb f 191)).0 t₃).0 in
          let fourth = leb→le 128 g ((and_iff (leb 128 g) (leb g 191)).0 t₄).0 in
          let least = lead_four c e in
          rw t (record {
            more = 3;
            width = refl;
            ahead = (lo, (third, (fourth, tt)));
            separator = λ q. absurd (
                four_past c d _ least past lo
                  (separator_iff
                    ((c - 240) * 262144 + ((d - 128) * 4096 + ((f - 128) * 64 + (g - 128)))) q).1);
          })
      | inr n ↦ absurd (ground arith)
    ]

pub decode_rune-Rune :
    (c : ℕ) (s : Str)
    → ltb c 128 ≡ false
    → is_broken (decode_rune (c ∷ s)) ≡ false
    → Rune c s (decode_rune (c ∷ s))
unfolding decode_rune
decode_rune-Rune c s high h = rw high (decode_more-Rune (lead c) c s refl (rw high at h))
