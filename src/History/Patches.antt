-- ===== src/History/Patches.antt =====
-- Patches written to a canvas (domain/file/storage/storage.rs, `apply_patches`).
use thaum_painter.Base.{Option, none, some, List, [], ◌∷◌}
use thaum_painter.Base.Map.{insert, remove}
use thaum_painter.Cell.{CellPoint, Renderer, Canvas, point_Eq}
use thaum_painter.Cell.Stored.{PersistedSharedPaintedCell, to_runtime}
use thaum_painter.History.{SharedCellPatch}

pub data PatchDirection : Type 0 where
  before after : PatchDirection

unfoldable pub patch_value : PatchDirection → SharedCellPatch → Option PersistedSharedPaintedCell
patch_value before patch = patch.before
patch_value after patch = patch.after

module _ {R : Renderer} where
  unfoldable pub apply_patch : Canvas R → CellPoint → Option PersistedSharedPaintedCell → Canvas R
  apply_patch canvas position none = remove position canvas
  apply_patch canvas position (some cell) = insert position (to_runtime cell) canvas

  unfoldable pub apply_patches : Canvas R → List SharedCellPatch → PatchDirection → Canvas R
  unfolding apply_patch patch_value
  apply_patches canvas [] direction = canvas
  apply_patches canvas (patch ∷ patches) direction =
      apply_patches (apply_patch canvas patch.position (patch_value direction patch)) patches
        direction
