-- ===== src/Fill/Flood.antt =====
-- Flooding from a start over a neighbor function: the loop of `matching_region_points` (domain/painter-operations/fill/fill.rs) over any
-- type of places, with the region test, the match test and the neighbors as arguments.
use thaum_painter.Base.{
  ℕ, zero, suc, ◌+◌, ◌≤◌, Bool, true, false, not, Option, none, some, List, [], ◌∷◌, ◌++◌,
}
use thaum_painter.Base.{
  if◌then◌else◌, Bool-cases, arith, ◌≡◌, ◌↔◌, ◌⊎◌, inl, inr, refl, length, ◌∈◌,
}
use thaum_painter.Base.Map.{Eq, member, member_iff}
pub mod Invariant
pub mod Fuel
pub mod Reached

pub record FloodState (A : Type 0) : Type 0 where
  pub queue : List A
  pub seen : List A
  pub points : List A

-- The region test, the match test and the neighbors.
pub record Ground (A : Type 0) : Type 0 where
  pub inside : A → Bool
  pub matches : A → Bool
  pub around : A → List A

-- The places that a flood from `start` reaches over places that are inside and match.
pub data Reach {A : Type 0} (g : Ground A) (start : A) : A → Type 0 where
  here : g.inside start ≡ true → g.matches start ≡ true → Reach g start start
  step :
      {p q : A}
      → Reach g start p
      → q ∈ g.around p
      → g.inside q ≡ true
      → g.matches q ≡ true
      → Reach g start q

module _ {A : Type 0} ⦃e : Eq A⦄ where
  -- One pass of the loop for the place `point`, taken off the front of a queue that leaves `rest`.
  unfoldable pub visit : Ground A → A → List A → FloodState A → FloodState A
  visit g point rest s =
      if member point s.seen
      then record { queue = rest; seen = s.seen; points = s.points }
      else if not (g.inside point)
      then record { queue = rest; seen = point ∷ s.seen; points = s.points }
      else if not (g.matches point)
      then record { queue = rest; seen = point ∷ s.seen; points = s.points }
      else record {
        queue = rest ++ g.around point;
        seen = point ∷ s.seen;
        points = s.points ++ point ∷ [];
      }

  -- The loop, which gives up when its fuel is spent and the queue is not empty.
  unfoldable pub flood : Ground A → ℕ → FloodState A → Option (List A)
  unfolding visit
  flood g zero s = elim s.queue [ [] ↦ some s.points | point ∷ rest ↦ none ]
  flood g (suc fuel) s = elim s.queue [
    | [] ↦ some s.points
    | point ∷ rest ↦ flood g fuel (visit g point rest s)
  ]

  abbrev pub flood_from : A → FloodState A
  flood_from start = record { queue = start ∷ []; seen = []; points = [] }
