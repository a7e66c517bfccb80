-- ===== src/Document/Cycles.antt =====
-- Cycling the modes and the ease strengths of empty bars of an open document
-- (domain/file/storage/storage.rs).
use thaum_painter.Base.{
  suc, Bool, true, false, not, none, some, if◌then◌else◌, ◌==◌, get_elem?, length,
}
use thaum_painter.Base.Text.{Text}
use thaum_painter.Cell.{Renderer}
use thaum_painter.Track.Block.{SharedDocumentPropertyBlock as Block}
use thaum_painter.Track.Mode.{resolve_mode, mode_is_ease_adjustable, next_ease_percent}
use thaum_painter.Track.Edit.{modify, cycled_mode, with_mode}
use thaum_painter.Document.{SharedDocumentRuntime, key_Eq, set_blocks}
use thaum_painter.Document.Edits.{at_block}

pub data EaseEnd : Type 0 where
  out_end in_end : EaseEnd

module _ {Value : Type 0} where
  abbrev pub with_ease : EaseEnd → Block Value → Block Value
  with_ease out_end block = record block {
    ease_out_percent = some (next_ease_percent block.ease_out_percent);
  }
  with_ease in_end block = record block {
    ease_in_percent = some (next_ease_percent block.ease_in_percent);
  }

module _ {R : Renderer} {Value : Type 0} where
  unfoldable pub cycle_property_block_interp_mode :
      SharedDocumentRuntime R Value → Text → Text → Text → Bool × SharedDocumentRuntime R Value
  unfolding at_block modify set_blocks cycled_mode with_mode
  cycle_property_block_interp_mode r layer_id property_id block_id =
      at_block r layer_id property_id block_id false (λ ensured track index.
        elim (get_elem? track.blocks index) [
          | none ↦ (false, ensured)
          | some block ↦
              let next =
                cycled_mode block.interpretation property_id (index == 0)
                  (suc index == length track.blocks) in
              if not block.is_blank then (false, ensured) else (
                true,
                set_blocks ensured layer_id property_id
                    (modify index (with_mode next) track.blocks),
              )
        ])

  unfoldable pub cycle_property_block_ease :
      SharedDocumentRuntime R Value
      → Text
      → Text
      → Text
      → EaseEnd
      → Bool × SharedDocumentRuntime R Value
  unfolding at_block modify set_blocks
  cycle_property_block_ease r layer_id property_id block_id end =
      at_block r layer_id property_id block_id false (λ ensured track index.
        elim (get_elem? track.blocks index) [
          | none ↦ (false, ensured)
          | some block ↦
              if not block.is_blank
              then (false, ensured)
              else if not (mode_is_ease_adjustable (resolve_mode block.interpretation))
              then (false, ensured)
              else (
                true,
                set_blocks ensured layer_id property_id (modify index (with_ease end) track.blocks),
              )
        ])
