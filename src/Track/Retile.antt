-- ===== src/Track/Retile.antt =====
-- `retiled_property_track` and its helpers (domain/file/storage/storage.rs).
use thaum_painter.Base.{ℕ, max, ◌+◌, ◌-◌, false, not, ◌&&◌, ◌||◌, Option}
use thaum_painter.Base.{none, some, List, [], ◌∷◌, ◌++◌, length, if◌then◌else◌, ltb, leb, ◌==◌}
use thaum_painter.Base.{add32, sub32, saturating_add}
use thaum_painter.Base.Text.{Text, codes, text_eq, contains}
use thaum_painter.Track.Block.{SharedDocumentPropertyBlock as Block, blank_block}
use thaum_painter.Track.Ids.{ids_of, next_free_block_id}
use thaum_painter.Track.Mode.{resolve_mode, loop_out, loop_in}

-- The variables of the second loop. The order of the used ids is never read.
pub record Tiling (Value : Type 0) : Type 0 where
  pub used : List Text
  pub tiled : List (Block Value)
  pub cursor : ℕ

module _ {Value : Type 0} where
  -- The body of the first loop; `none` is its `continue`.
  unfoldable pub clip_block : ℕ → Block Value → Option (Block Value)
  clip_block span_start block =
      let new_start = max block.start_breath span_start in
      if leb (add32 block.start_breath (max block.length_breaths 1)) new_start
      then none
      else if ltb block.start_breath new_start
      then some (record block {
        start_breath = new_start;
        length_breaths = sub32 (max block.length_breaths 1) (sub32 new_start block.start_breath);
      })
      else some block

  unfoldable pub clip_blocks : ℕ → List (Block Value) → List (Block Value)
  clip_blocks span_start [] = []
  clip_blocks span_start (b ∷ bs) = elim (clip_block span_start b) [
    | none ↦ clip_blocks span_start bs
    | some c ↦ c ∷ clip_blocks span_start bs
  ]

  -- The stable `sort_by_key` of the standard library, on the start breath.
  unfoldable pub insert_by_start : Block Value → List (Block Value) → List (Block Value)
  insert_by_start b [] = b ∷ []
  insert_by_start b (c ∷ cs) =
      if leb b.start_breath c.start_breath then b ∷ c ∷ cs else c ∷ insert_by_start b cs

  unfoldable pub sort_by_start : List (Block Value) → List (Block Value)
  unfolding insert_by_start
  sort_by_start [] = []
  sort_by_start (b ∷ bs) = insert_by_start b (sort_by_start bs)

  unfoldable pub push_tiled_block : List (Block Value) → Block Value → List (Block Value)
  push_tiled_block [] block = block ∷ []
  push_tiled_block (last ∷ []) block =
      if last.is_blank && block.is_blank
      then record last { length_breaths = add32 last.length_breaths block.length_breaths } ∷ []
      else last ∷ block ∷ []
  push_tiled_block (b ∷ c ∷ bs) block = b ∷ push_tiled_block (c ∷ bs) block

  unfoldable pub enforce_block : ℕ → ℕ → Block Value → Block Value
  enforce_block last_index index block =
      let mode = resolve_mode block.interpretation in
      let stranded =
        if text_eq mode loop_out
        then not (block.is_blank && index == last_index)
        else if text_eq mode loop_in
        then not (block.is_blank && index == 0)
        else false in
      if stranded || not block.is_blank
      then record block { interpretation = none; ease_out_percent = none; ease_in_percent = none }
      else block

  unfoldable pub enforce_from : ℕ → ℕ → List (Block Value) → List (Block Value)
  unfolding enforce_block
  enforce_from last_index index [] = []
  enforce_from last_index index (b ∷ bs) =
      enforce_block last_index index b ∷ enforce_from last_index (index + 1) bs

  unfoldable pub tile_block : Tiling Value → Block Value → Tiling Value
  tile_block t block =
      let block_end = add32 block.start_breath block.length_breaths in
      let gap_id = next_free_block_id t.used t.tiled in
      let gap = blank_block gap_id t.cursor (sub32 block.start_breath t.cursor) in
      let trimmed = record block {
        start_breath = t.cursor;
        length_breaths = sub32 block_end t.cursor;
      } in
      if leb block_end t.cursor
      then t
      else if ltb t.cursor block.start_breath
      then record {
        used = gap_id ∷ t.used;
        tiled = push_tiled_block (push_tiled_block t.tiled gap) block;
        cursor = block_end;
      }
      else record {
        used = t.used;
        tiled = push_tiled_block t.tiled trimmed;
        cursor = add32 t.cursor (sub32 block_end t.cursor);
      }

  unfoldable pub tile_blocks : Tiling Value → List (Block Value) → Tiling Value
  unfolding tile_block
  tile_blocks t [] = t
  tile_blocks t (b ∷ bs) = tile_blocks (tile_block t b) bs

  -- `if cursor < span_end { … }`
  unfoldable pub tile_tail : ℕ → Tiling Value → Tiling Value
  tile_tail span_end t =
      let tail_id = next_free_block_id t.used t.tiled in
      let tail = blank_block tail_id t.cursor (sub32 span_end t.cursor) in
      if ltb t.cursor span_end
      then record {
        used = tail_id ∷ t.used;
        tiled = push_tiled_block t.tiled tail;
        cursor = t.cursor;
      }
      else t

  abbrev pub last? : List (Block Value) → Option (Block Value)
  last? [] = none
  last? (b ∷ []) = some b
  last? (b ∷ c ∷ bs) = last? (c ∷ bs)

  -- `if let Some(last) = tiled.last() { if !last.is_blank { … } }`
  unfoldable pub trailing_blank : ℕ → Tiling Value → List (Block Value)
  trailing_blank span_end t = elim (last? t.tiled) [
    | none ↦ t.tiled
    | some last ↦
        let tail_start = add32 last.start_breath last.length_breaths in
        let tail_id =
          if contains t.used (codes "tail")
          then next_free_block_id t.used t.tiled
          else codes "tail" in
        let tail_length = if ltb tail_start span_end then sub32 span_end tail_start else 1 in
        if last.is_blank
        then t.tiled
        else t.tiled ++ blank_block tail_id tail_start tail_length ∷ []
  ]

  unfoldable pub enforce_loop_mode_edges : List (Block Value) → List (Block Value)
  unfolding enforce_from
  enforce_loop_mode_edges blocks = enforce_from (length blocks - 1) 0 blocks

  unfoldable pub retiled_property_track : List (Block Value) → ℕ → ℕ → List (Block Value)
  unfolding clip_block clip_blocks sort_by_start push_tiled_block next_free_block_id tile_block
      tile_blocks tile_tail trailing_blank enforce_loop_mode_edges resolve_mode text_eq add32 sub32
      saturating_add
  retiled_property_track blocks span_start span_length =
      let span_end = saturating_add span_start (max span_length 1) in
      let clipped = sort_by_start (clip_blocks span_start blocks) in
      let start : Tiling Value = record {
        used = ids_of clipped;
        tiled = [];
        cursor = span_start;
      } in
      let tiling = tile_tail span_end (tile_blocks start clipped) in
      enforce_loop_mode_edges (trailing_blank span_end tiling)
