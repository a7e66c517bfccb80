-- ===== src/Fill/Flood/Fuel.antt =====
-- The fuel that a flood needs: each pass takes a place off the queue, and only a place of the region
-- that was not seen before puts its neighbors, 27 at most, on it.
use thaum_painter.Base.{ℕ, suc, ◌+◌, ◌*◌, ◌≤◌, true, false, List, [], ◌∷◌, ◌++◌}
use thaum_painter.Base.{if◌then◌else◌, Bool-cases, arith, ◌≡◌, inl, inr, refl, length, ◌∈◌}
use thaum_painter.Base.Map.{Eq, member}
use thaum_painter.Fill.Flood.{FloodState, Ground, visit}

module _ {A : Type 0} ⦃e : Eq A⦄ where
  -- 28 for each place of a region that is not seen yet.
  abbrev pub weigh : List A → List A → ℕ
  weigh [] seen = 0
  weigh (x ∷ xs) seen = (if member x seen then 0 else 28) + weigh xs seen

  member-cons :
      (x p : A) (seen : List A) → member x (p ∷ seen) ≡ (if e.beq p x then true else member x seen)
  unfolding member
  member-cons x p seen = ground arith

  weigh-cons : (xs seen : List A) (p : A) → weigh xs (p ∷ seen) ≤ weigh xs seen
  weigh-cons [] seen p = ground arith
  weigh-cons (x ∷ xs) seen p = ground (arith, member-cons x p seen, weigh-cons xs seen p)

  weigh-seen :
      (xs seen : List A) (p : A)
      → p ∈ xs
      → member p seen ≡ false
      → weigh xs (p ∷ seen) + 28 ≤ weigh xs seen
  weigh-seen [] seen p m n = absurd m
  weigh-seen (x ∷ xs) seen p (inl k) n = rw (← k) (
      ground (
        arith,
        member-cons p p seen,
        e.beq_iff p p,
        weigh-cons xs seen p,
        n,
        (e.beq_iff p p).1 refl,
      ))
  weigh-seen (x ∷ xs) seen p (inr k) n =
      ground (arith, member-cons x p seen, weigh-seen xs seen p k n)

  pub weigh-start : (xs : List A) → weigh xs [] ≡ 28 * length xs
  unfolding member
  weigh-start [] = ground arith
  weigh-start (x ∷ xs) = ground (arith, weigh-start xs)

  pub length-append : (xs ys : List A) → length (xs ++ ys) ≡ length xs + length ys
  length-append [] ys = ground arith
  length-append (x ∷ xs) ys = ground (arith, length-append xs ys)

  module _ (g : Ground A) (region : List A) (within : (p : A) → g.inside p ≡ true → p ∈ region)
      (few : (p : A) → length (g.around p) ≤ 27) where
    abbrev pub load : FloodState A → ℕ
    load s = length s.queue + weigh region s.seen

    pub load-visit :
        (p : A) (rest seen points : List A)
        → load (visit g p rest (record { queue = p ∷ rest; seen = seen; points = points })) + 1
          ≤ suc (length rest) + weigh region seen
    unfolding visit
    load-visit p rest seen points = elim (Bool-cases (member p seen)) [
      | inl s ↦ rw s (ground arith)
      | inr s ↦ elim (Bool-cases (g.inside p)) [
        | inr i ↦ rw (s, i) (ground (arith, weigh-cons region seen p))
        | inl i ↦ elim (Bool-cases (g.matches p)) [
          | inr m ↦ rw (s, i, m) (ground (arith, weigh-cons region seen p))
          | inl m ↦
              rw (s, i, m)
                (ground (
                  arith,
                  weigh-seen region seen p (within p i) s,
                  length-append rest (g.around p),
                  few p,
                ))
        ]
      ]
    ]
