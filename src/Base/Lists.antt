-- ===== src/Base/Lists.antt =====
-- Lists measured by native numbers, membership and predicates by recursion.
use Prim.Native.Nat.{ℕ, zero, suc, ◌+◌, ◌-◌}
use mathlib.Core.Path.{◌≡◌, refl, sym, ap, ◌∙◌}
use mathlib.Core.Logic.{◌⊎◌, inl, inr}
use mathlib.Core.Option.{Option, none, some}
use mathlib.Core.Logic.{◌↔◌}
use mathlib.Core.List.{List, [], ◌∷◌, ◌++◌, map}
use mathlib.Core.Bool.{Bool, true}
use native.Mathlib.Omega.{arith}
use thaum_painter.Base.Tests.{if◌then◌else◌}

module _ {ℓ} {A : Type ℓ} where
  abbrev pub length : List A → ℕ
  length [] = 0
  length (x ∷ xs) = suc (length xs)

  abbrev pub get_elem? : List A → ℕ → Option A
  get_elem? [] i = none
  get_elem? (x ∷ xs) zero = some x
  get_elem? (x ∷ xs) (suc i) = get_elem? xs i

  abbrev pub take : ℕ → List A → List A
  take zero xs = []
  take (suc n) [] = []
  take (suc n) (x ∷ xs) = x ∷ take n xs

  abbrev pub drop : ℕ → List A → List A
  drop zero xs = xs
  drop (suc n) [] = []
  drop (suc n) (x ∷ xs) = drop n xs

  pub length-drop : (n : ℕ) (xs : List A) → length (drop n xs) ≡ length xs - n
  length-drop zero xs = ground arith
  length-drop (suc n) [] = ground arith
  length-drop (suc n) (x ∷ xs) = ground (arith, length-drop n xs)

  pub length-append : (xs ys : List A) → length (xs ++ ys) ≡ length xs + length ys
  length-append [] ys = ground arith
  length-append (x ∷ xs) ys = ground (arith, length-append xs ys)

module _ {A : Type 0} where
  infix 40 ◌∈◌
  abbrev pub ◌∈◌ : A → List A → Type 0
  a ∈ [] = ⊥
  a ∈ x ∷ xs = (a ≡ x) ⊎ (a ∈ xs)

  pub mem-append : (a : A) (xs ys : List A) → (a ∈ xs) ⊎ (a ∈ ys) → a ∈ (xs ++ ys)
  mem-append a [] ys (inr h) = h
  mem-append a [] ys (inl h) = absurd h
  mem-append a (x ∷ xs) ys (inl (inl e)) = inl e
  mem-append a (x ∷ xs) ys (inl (inr h)) = inr (mem-append a xs ys (inl h))
  mem-append a (x ∷ xs) ys (inr h) = inr (mem-append a xs ys (inr h))

  pub mem-append_cases : (a : A) (xs ys : List A) → a ∈ (xs ++ ys) → (a ∈ xs) ⊎ (a ∈ ys)
  mem-append_cases a [] ys m = inr m
  mem-append_cases a (x ∷ xs) ys (inl e) = inl (inl e)
  mem-append_cases a (x ∷ xs) ys (inr m) = elim (mem-append_cases a xs ys m) [
    | inl k ↦ inl (inr k)
    | inr k ↦ inr k
  ]

abbrev pub All {ℓ κ} : {A : Type ℓ} → (A → Type κ) → List A → Type κ
All P [] = Unit
All P (x ∷ xs) = P x × All P xs

pub All-append {ℓ κ} :
    {A : Type ℓ} (P : A → Type κ) (xs ys : List A) → All P xs → All P ys → All P (xs ++ ys)
All-append P [] ys h k = k
All-append P (x ∷ xs) ys h k = (h.0, All-append P xs ys h.1 k)

pub All-mem {κ} : {A : Type 0} (P : A → Type κ) (xs : List A) → ((a : A) → a ∈ xs → P a) → All P xs
All-mem P [] h = tt
All-mem P (x ∷ xs) h = (h x (inl refl), All-mem P xs (λ a m. h a (inr m)))

-- Loops that push one list for each element, and loops that push the elements that pass a test.
module _ {A B : Type 0} where
  unfoldable pub concat_map : (A → List B) → List A → List B
  concat_map f [] = []
  concat_map f (x ∷ xs) = f x ++ concat_map f xs

  pub mem-concat_map :
      (f : A → List B) (b : B) (xs : List A)
      → (b ∈ concat_map f xs) ↔ ((a : A) × (a ∈ xs) × (b ∈ f a))
  unfolding concat_map
  mem-concat_map f b [] = (λ h. absurd h, λ h. absurd h.1)
  mem-concat_map f b (x ∷ xs) =
      let ih = mem-concat_map f b xs in
      (
        λ h. elim (mem-append_cases b (f x) (concat_map f xs) h) [
          | inl k ↦ (x, inl refl, k)
          | inr k ↦ let r = ih.0 k in (r.0, inr r.1, r.2)
        ],
        λ h. elim h.1 [
          | inl e ↦ mem-append b (f x) (concat_map f xs) (inl (rw (← e) h.2))
          | inr m ↦ mem-append b (f x) (concat_map f xs) (inr (ih.1 (h.0, m, h.2)))
        ],
      )

  pub mem-map :
      (f : A → B) (b : B) (xs : List A) → (b ∈ map f xs) ↔ ((a : A) × (a ∈ xs) × (b ≡ f a))
  mem-map f b [] = (λ h. absurd h, λ h. absurd h.1)
  mem-map f b (x ∷ xs) =
      let ih = mem-map f b xs in
      (
        λ h. elim h [ inl e ↦ (x, inl refl, e) | inr m ↦ let r = ih.0 m in (r.0, inr r.1, r.2) ],
        λ h. elim h.1 [ inl e ↦ inl (h.2 ∙ ap f e) | inr m ↦ inr (ih.1 (h.0, m, h.2)) ],
      )

module _ {A : Type 0} where
  unfoldable pub filter : (A → Bool) → List A → List A
  filter test [] = []
  filter test (x ∷ xs) = if test x then x ∷ filter test xs else filter test xs

  pub mem-filter :
      (test : A → Bool) (a : A) (xs : List A) → (a ∈ filter test xs) ↔ ((a ∈ xs) × (test a ≡ true))
  unfolding filter
  mem-filter test a [] = (λ h. absurd h, λ h. absurd h.0)
  mem-filter test a (x ∷ xs) = ground (arith, mem-filter test a xs)

  -- No element stands twice.
  abbrev pub Nodup : List A → Type 0
  Nodup [] = Unit
  Nodup (x ∷ xs) = ¬ (x ∈ xs) × Nodup xs

  pub Nodup-snoc : (xs : List A) (a : A) → Nodup xs → ¬ (a ∈ xs) → Nodup (xs ++ a ∷ [])
  Nodup-snoc [] a h k = (k, tt)
  Nodup-snoc (x ∷ xs) a h k = (
    λ m. elim (mem-append_cases x xs (a ∷ []) m) [
      | inl old ↦ h.0 old
      | inr new ↦ elim new [ inl e ↦ k (inl (sym e)) | inr none_left ↦ none_left ]
    ],
    Nodup-snoc xs a h.1 (λ m. k (inr m)),
  )
