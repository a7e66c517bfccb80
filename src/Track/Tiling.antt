-- ===== src/Track/Tiling.antt =====
-- What the binary tiling of a track is, as predicates on its bars.
pub mod Push
pub mod Loop
pub mod Clip
pub mod Finish
pub mod Edges
pub mod Retiled
pub mod Stable
pub mod Names
pub mod Distinct
pub mod Cells
use thaum_painter.Base.{ℕ, ◌+◌, ◌≤◌, ◌<◌, ◌≡◌, ◌⊎◌, Bool, true, false, ◌&&◌, Option, none}
use thaum_painter.Base.{List, [], ◌∷◌, All, u32_max, length, ◌-◌}
use thaum_painter.Base.Text.{Text}
use thaum_painter.Track.Block.{SharedDocumentPropertyBlock as Block}
use thaum_painter.Track.Mode.{resolve_mode, loop_out, loop_in}

module _ {Value : Type 0} where
  -- The bars lie end to end from `a` to `c`, and none is empty.
  abbrev pub Chain : ℕ → ℕ → List (Block Value) → Type 0
  Chain a c [] = a ≡ c
  Chain a c (b ∷ bs) =
      (b.start_breath ≡ a) × (1 ≤ b.length_breaths) × Chain (b.start_breath + b.length_breaths) c bs

  -- No two blanks stand side by side; `before` says whether a blank stands in front of the list.
  abbrev pub ApartFrom : Bool → List (Block Value) → Type 0
  ApartFrom before [] = Unit
  ApartFrom before (b ∷ bs) = ((before && b.is_blank) ≡ false) × ApartFrom b.is_blank bs

  abbrev pub EndsBlank : List (Block Value) → Type 0
  EndsBlank [] = ⊥
  EndsBlank (b ∷ []) = b.is_blank ≡ true
  EndsBlank (b ∷ c ∷ bs) = EndsBlank (c ∷ bs)

  -- `loop_out` stands on the last bar only and `loop_in` on the first only, both on blanks, and a
  -- solid bar carries neither an interpretation nor ease ends.
  abbrev pub HasEdgeMode : ℕ → ℕ → Block Value → Type 0
  HasEdgeMode last index b =
      (resolve_mode b.interpretation ≡ loop_out → (b.is_blank ≡ true) × (index ≡ last))
      × (resolve_mode b.interpretation ≡ loop_in → (b.is_blank ≡ true) × (index ≡ 0))
      × (b.is_blank ≡ false
          → (b.interpretation ≡ none) × (b.ease_out_percent ≡ none) × (b.ease_in_percent ≡ none))

  abbrev pub EdgesFrom : ℕ → ℕ → List (Block Value) → Type 0
  EdgesFrom last index [] = Unit
  EdgesFrom last index (b ∷ bs) = HasEdgeMode last index b × EdgesFrom last (index + 1) bs

  -- A bar with content that covers `x`, by id and value.
  abbrev pub Shows : ℕ → Text → Option Value → List (Block Value) → Type 0
  Shows x i v [] = ⊥
  Shows x i v (b ∷ bs) =
      (b.start_breath ≤ x)
        × (x < b.start_breath + b.length_breaths)
        × (b.is_blank ≡ false)
        × (b.id ≡ i)
        × (b.value ≡ v)
      ⊎ Shows x i v bs

  -- What every stored bar satisfies: at least one breath long, and its end is a `u32`.
  abbrev pub FitsU32 : Block Value → Type 0
  FitsU32 b = (1 ≤ b.length_breaths) × (b.start_breath + b.length_breaths ≤ u32_max)

  -- The binary tiling from `start` on: `end` is where the stored bars end.
  pub record IsTiled (start end : ℕ) (bs : List (Block Value)) : Type 0 where
    pub chain : Chain start end bs
    pub apart : ApartFrom false bs
    pub trailing : EndsBlank bs
    pub edges : EdgesFrom (length bs - 1) 0 bs
