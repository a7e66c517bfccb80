-- ===== src/Base/Int.antt =====
-- Signed integers over the native numbers. Sums and orders go through the two parts of an integer.
use Prim.Native.Nat.{ℕ, zero, suc, ◌+◌, ◌-◌, ◌≤◌}
use mathlib.Core.Path.{◌≡◌}
use mathlib.Core.Logic.{◌↔◌, ◌⊎◌, inl, inr}
use mathlib.Core.List.{List, [], ◌∷◌}
use thaum_painter.Base.Lists.{◌∈◌}
use mathlib.Core.Bool.{Bool, true}
use native.Mathlib.Omega.{arith}
use thaum_painter.Base.Tests.{leb, ◌==◌, if◌then◌else◌}

-- `negsuc n` is -(n + 1).
pub data ℤ : Type 0 where
  pos : ℕ → ℤ
  negsuc : ℕ → ℤ

abbrev pub pos_part : ℤ → ℕ
pos_part (pos n) = n
pos_part (negsuc n) = 0

abbrev pub neg_part : ℤ → ℕ
neg_part (pos n) = 0
neg_part (negsuc n) = suc n

abbrev pub sub_ℕ : ℕ → ℕ → ℤ
sub_ℕ a b = if leb b a then pos (a - b) else negsuc (b - a - 1)

infixl 65 ◌+ℤ◌ ◌-ℤ◌
infix 50 ◌≤ℤ◌
unfoldable pub ◌+ℤ◌ : ℤ → ℤ → ℤ
a +ℤ b = sub_ℕ (pos_part a + pos_part b) (neg_part a + neg_part b)

unfoldable pub ◌-ℤ◌ : ℤ → ℤ → ℤ
a -ℤ b = sub_ℕ (pos_part a + neg_part b) (neg_part a + pos_part b)

abbrev pub ◌≤ℤ◌ : ℤ → ℤ → Type 0
a ≤ℤ b = pos_part a + neg_part b ≤ pos_part b + neg_part a

abbrev pub leb_ℤ : ℤ → ℤ → Bool
leb_ℤ a b = leb (pos_part a + neg_part b) (pos_part b + neg_part a)

abbrev pub eqb_ℤ : ℤ → ℤ → Bool
eqb_ℤ a b = (pos_part a + neg_part b) == (pos_part b + neg_part a)

pub +ℤ_parts :
    (a b : ℤ)
    → pos_part (a +ℤ b) + neg_part a + neg_part b ≡ neg_part (a +ℤ b) + pos_part a + pos_part b
unfolding ◌+ℤ◌
+ℤ_parts a b = ground arith

pub -ℤ_parts :
    (a b : ℤ)
    → pos_part (a -ℤ b) + neg_part a + pos_part b ≡ neg_part (a -ℤ b) + pos_part a + neg_part b
unfolding ◌-ℤ◌
-ℤ_parts a b = ground arith

pub eq_of_parts : (a b : ℤ) → pos_part a + neg_part b ≡ pos_part b + neg_part a → a ≡ b
eq_of_parts a b h = ground arith

pub eqb_ℤ_iff : (a b : ℤ) → (eqb_ℤ a b ≡ true) ↔ (a ≡ b)
eqb_ℤ_iff a b = ground arith

pub ruleset int_laws = (arith, +ℤ_parts, -ℤ_parts, eq_of_parts)

-- `i32` addition: the sum, brought back into the range of `i32`.
unfoldable pub add_i32 : ℤ → ℤ → ℤ
unfolding ◌+ℤ◌ ◌-ℤ◌
add_i32 a b =
    let sum = a +ℤ b in
    if leb_ℤ (pos 2147483648) sum
    then sum -ℤ pos 4294967296
    else if leb_ℤ (negsuc 2147483647) sum
    then sum
    else sum +ℤ pos 4294967296

abbrev pub max_ℤ : ℤ → ℤ → ℤ
max_ℤ a b = if leb_ℤ a b then b else a

abbrev pub min_ℤ : ℤ → ℤ → ℤ
min_ℤ a b = if leb_ℤ a b then a else b

-- `a ..= b`: how many integers, and which.
unfoldable pub count_ℤ : ℤ → ℤ → ℕ
count_ℤ a b = pos_part (b +ℤ pos 1 -ℤ a)

unfoldable pub range_from : ℕ → ℤ → List ℤ
range_from zero a = []
range_from (suc n) a = a ∷ range_from n (a +ℤ pos 1)

unfoldable pub range_inclusive : ℤ → ℤ → List ℤ
range_inclusive a b = range_from (count_ℤ a b) a

ℤ_cases : (a c : ℤ) → a ≤ℤ c → (c ≡ a) ⊎ (a +ℤ pos 1 ≤ℤ c)
unfolding ◌+ℤ◌
ℤ_cases a c h = ground arith

mem-range_from : (n : ℕ) (a c : ℤ) → (c ∈ range_from n a) ↔ ((a ≤ℤ c) × (c +ℤ pos 1 ≤ℤ a +ℤ pos n))
unfolding range_from
mem-range_from zero a c = (λ h. absurd h, λ h. omega int_laws)
mem-range_from (suc n) a c =
    let ih = mem-range_from n (a +ℤ pos 1) c in
    (
      λ m. elim m [
        | inl e ↦ rw e (omega int_laws, omega int_laws)
        | inr k ↦ let h = ih.0 k in (omega int_laws, omega int_laws)
      ],
      λ h. elim (ℤ_cases a c h.0) [
        | inl e ↦ inl e
        | inr later ↦ inr (ih.1 (later, omega int_laws))
      ],
    )

below_count :
    (a b c : ℤ) → ((a ≤ℤ c) × (c +ℤ pos 1 ≤ℤ a +ℤ pos (count_ℤ a b))) ↔ ((a ≤ℤ c) × (c ≤ℤ b))
unfolding count_ℤ ◌+ℤ◌ ◌-ℤ◌
below_count a b c = ground arith

mem-count : (a b c : ℤ) → (c ∈ range_from (count_ℤ a b) a) ↔ ((a ≤ℤ c) × (c ≤ℤ b))
mem-count a b c =
    let m = mem-range_from (count_ℤ a b) a c in
    let n = below_count a b c in (λ k. n.0 (m.0 k), λ k. m.1 (n.1 k))

-- `a ..= b` holds exactly the integers from `a` to `b`.
pub mem-range_inclusive : (a b c : ℤ) → (c ∈ range_inclusive a b) ↔ ((a ≤ℤ c) × (c ≤ℤ b))
unfolding range_inclusive
mem-range_inclusive a b c = mem-count a b c
