-- ===== src/Track/Edit.antt =====
-- Edits of the bars of one track (domain/file/storage/storage.rs): splitting, blanking, swapping,
-- merging, duplicating and cycling modes and ease strengths, up to the re-tiling that follows them.
pub mod Halves
pub mod Split
pub mod Cycle
pub mod Contents
pub mod Fits
pub mod Swapped
mod Tests
use thaum_painter.Base.{
  ℕ, zero, suc, ◌+◌, ◌-◌, Bool, true, false, not, ◌&&◌, ◌||◌, Option, none, some, List, [], ◌∷◌,
  map, if◌then◌else◌, leb, ltb, ◌==◌, length, get_elem?, add32, sub32,
}
use thaum_painter.Base.Text.{Text, codes, text_eq}
use thaum_painter.Track.Block.{SharedDocumentPropertyBlock as Block}
use thaum_painter.Track.Mode.{
  next_mode, next_ease_percent, resolve_mode, mode_is_ease_adjustable, mode_allowed_for_property_at,
}
use thaum_painter.Track.Ids.{next_property_block_id}

-- The mode that a cycle stops at: it tries five modes at most.
unfoldable pub allowed_mode : ℕ → Text → Text → Bool → Bool → Text
allowed_mode zero mode property_id is_first is_last = mode
allowed_mode (suc tries) mode property_id is_first is_last =
    let rest = allowed_mode tries (next_mode (some mode)) property_id is_first is_last in
    if mode_allowed_for_property_at mode property_id is_first is_last then mode else rest

unfoldable pub cycled_mode : Option Text → Text → Bool → Bool → Text
unfolding allowed_mode
cycled_mode interpretation property_id is_first is_last =
    allowed_mode 5 (next_mode interpretation) property_id is_first is_last

module _ {Value : Type 0} where
  -- The first bar with an id, and its index.
  unfoldable pub position : Text → List (Block Value) → Option ℕ
  position block_id [] = none
  position block_id (b ∷ bs) =
      let rest = position block_id bs in
      if text_eq b.id block_id then some 0 else elim rest [ none ↦ none | some i ↦ some (suc i) ]

  -- A write to the bar at an index, and an insertion in front of one.
  unfoldable pub modify : ℕ → (Block Value → Block Value) → List (Block Value) → List (Block Value)
  modify i f [] = []
  modify zero f (b ∷ bs) = f b ∷ bs
  modify (suc i) f (b ∷ bs) = b ∷ modify i f bs

  unfoldable pub insert_at : ℕ → Block Value → List (Block Value) → List (Block Value)
  insert_at zero new bs = new ∷ bs
  insert_at (suc i) new [] = new ∷ []
  insert_at (suc i) new (b ∷ bs) = b ∷ insert_at i new bs

  unfoldable pub remove_at : ℕ → List (Block Value) → List (Block Value)
  remove_at i [] = []
  remove_at zero (b ∷ bs) = bs
  remove_at (suc i) (b ∷ bs) = b ∷ remove_at i bs

  abbrev pub with_span : ℕ → ℕ → Block Value → Block Value
  with_span start length block = record block { start_breath = start; length_breaths = length }

  -- A new bar with the content of another.
  abbrev pub copy_of : Block Value → Text → ℕ → ℕ → Block Value
  copy_of source new_id start length = record {
    id = new_id;
    start_breath = start;
    length_breaths = length;
    is_blank = source.is_blank;
    value = source.value;
    interpretation = none;
    ease_out_percent = none;
    ease_in_percent = none;
  }

  -- The tests of a split.
  unfoldable pub can_split : Block Value → ℕ → Bool
  can_split block split_breath =
      let block_end = sub32 (add32 block.start_breath block.length_breaths) 1 in
      not (leb block.length_breaths 1)
      && not block.is_blank
      && not (leb split_breath block.start_breath || ltb block_end split_breath)
      && not (
          sub32 split_breath block.start_breath == 0 || add32 (sub32 block_end split_breath) 1 == 0)

  -- The bars after a split of the bar at an index, and the id of the right half.
  unfoldable pub split_at : ℕ → Block Value → ℕ → List (Block Value) → List (Block Value) × Text
  split_at index block split_breath blocks =
      let block_end = sub32 (add32 block.start_breath block.length_breaths) 1 in
      let left_length = sub32 split_breath block.start_breath in
      let right_length = add32 (sub32 block_end split_breath) 1 in
      let cut = modify index (with_span block.start_breath left_length) blocks in
      let next_id = next_property_block_id cut in
      (insert_at (suc index) (copy_of block next_id split_breath right_length) cut, next_id)

  unfoldable pub split_blocks : Text → ℕ → List (Block Value) → Option (List (Block Value) × Text)
  unfolding position can_split split_at
  split_blocks block_id split_breath blocks = elim (position block_id blocks) [
    | none ↦ none
    | some index ↦ elim (get_elem? blocks index) [
      | none ↦ none
      | some block ↦
          if can_split block split_breath
          then some (split_at index block split_breath blocks)
          else none
    ]
  ]

  unfoldable pub solid_at : ℕ → List (Block Value) → Bool
  solid_at i blocks = elim (get_elem? blocks i) [ none ↦ false | some b ↦ not b.is_blank ]

  -- The neighbour that an empty bar merges into: the content bar on the preferred side, or on the
  -- other.
  unfoldable pub merge_target : ℕ → Bool → List (Block Value) → Option ℕ
  merge_target index prefer_left blocks =
      let left : Option ℕ =
        if ltb 0 index && solid_at (index - 1) blocks then some (index - 1) else none in
      let right : Option ℕ = if solid_at (suc index) blocks then some (suc index) else none in
      if prefer_left
      then elim left [ some i ↦ some i | none ↦ right ]
      else elim right [ some i ↦ some i | none ↦ left ]

  -- The bars after the bar at `target` took over the span of the empty bar at `index`.
  unfoldable pub merge_into : ℕ → ℕ → Block Value → List (Block Value) → List (Block Value)
  unfolding modify remove_at
  merge_into target index empty blocks =
      let grow = λ (b : Block Value).
        if ltb target index
        then record b { length_breaths = add32 b.length_breaths empty.length_breaths }
        else record b {
          start_breath = empty.start_breath;
          length_breaths = add32 b.length_breaths empty.length_breaths;
        } in
      remove_at index (modify target grow blocks)

  -- The bars after two of them exchanged their spans.
  unfoldable pub swap_spans : ℕ → ℕ → List (Block Value) → List (Block Value)
  unfolding modify
  swap_spans source target blocks = elim (get_elem? blocks source) [
    | none ↦ blocks
    | some a ↦ elim (get_elem? blocks target) [
      | none ↦ blocks
      | some b ↦
          modify target (with_span a.start_breath a.length_breaths)
            (modify source (with_span b.start_breath b.length_breaths) blocks)
    ]
  ]

  -- The loop of `duplicate_property_block` that makes room behind a bar.
  unfoldable pub push_right : Block Value → List (Block Value) → List (Block Value)
  push_right source [] = []
  push_right source (b ∷ bs) =
      (if leb (add32 source.start_breath source.length_breaths) b.start_breath
        then record b { start_breath = add32 b.start_breath source.length_breaths }
        else b)
      ∷ push_right source bs

  -- The bars after a copy of the bar at an index was put behind it, and the id of the copy.
  unfoldable pub duplicate_at : ℕ → Block Value → List (Block Value) → List (Block Value) × Text
  unfolding push_right insert_at
  duplicate_at index source blocks =
      let pushed = push_right source blocks in
      let new_id = next_property_block_id pushed in
      let new_start = add32 source.start_breath source.length_breaths in
      (insert_at (suc index) (copy_of source new_id new_start source.length_breaths) pushed, new_id)

  -- The write of a cycle to an empty bar.
  unfoldable pub with_mode : Text → Block Value → Block Value
  with_mode mode block =
      if mode_is_ease_adjustable mode
      then record block { interpretation = some mode }
      else record block {
        interpretation = some mode;
        ease_out_percent = none;
        ease_in_percent = none;
      }
