-- ===== src/History.antt =====
-- The history of a document: patches of cells, action records and the runtime that keeps the stacks of
-- undo and redo (domain/file/storage/storage.rs).
pub mod Patches
pub mod Painted
pub mod Apply
pub mod Opened
pub mod Undo
pub mod Fold
pub mod Baseline
pub mod Canvases
pub mod Stacks
pub mod Strokes
pub mod Replayed
pub mod Recorded
pub mod Runs
pub mod Reached
pub mod Tops
pub mod Logged
mod Tests
use thaum_painter.Base.{ℕ, Bool, true, false, Option, none, some, List, [], ◌∷◌, ◌++◌}
use thaum_painter.Base.Text.{Text, codes, text_Eq}
use thaum_painter.Base.Map.{get, insert}
use thaum_painter.Cell.{CellPoint, Renderer, PaintedCell, Canvas}
use thaum_painter.Cell.Stored.{PersistedSharedPaintedCell, from_runtime}
use thaum_painter.Document.{
  SharedDocumentLayer as Layer, SharedDocumentRuntime as Runtime, CanvasKey, with_canvases, key_Eq,
}

pub record SharedCellPatch : Type 0 where
  pub position : CellPoint
  pub before : Option PersistedSharedPaintedCell
  pub after : Option PersistedSharedPaintedCell

unfoldable pub inverse : SharedCellPatch → SharedCellPatch
inverse patch = record { position = patch.position; before = patch.after; after = patch.before }

module _ {R : Renderer} where
  abbrev pub stored : Option (PaintedCell R) → Option PersistedSharedPaintedCell
  stored none = none
  stored (some cell) = some (from_runtime cell)

  unfoldable pub patch_of :
      CellPoint → Option (PaintedCell R) → Option (PaintedCell R) → SharedCellPatch
  patch_of position before after = record {
    position = position;
    before = stored before;
    after = stored after;
  }

pub record DocumentWindow : Type 0 where
  pub start_breath : ℕ
  pub end_breath : ℕ

pub data SharedDocumentAction (Value : Type 0) : Type 0 where
  cell_patch_set :
      (patches : List SharedCellPatch)
      → (block_id : Option Text) → (passive : Bool) → (reverts : Option Text)
      → SharedDocumentAction Value
  structure_set : List (Layer Value) → DocumentWindow → SharedDocumentAction Value
  undo : SharedDocumentAction Value
  redo : SharedDocumentAction Value

pub record SharedDocumentActionRecord (Value : Type 0) : Type 0 where
  pub action_id : Text
  pub document_id : Text
  pub layer_id : Text
  pub user_id : Text
  pub created_at : Text
  pub action : SharedDocumentAction Value

-- Where the patches of an applied action landed.
pub record AppliedCellPatches : Type 0 where
  pub layer_id : Text
  pub block_id : Text
  pub patches : List SharedCellPatch

pub record HistoryRevertPatches : Type 0 where
  pub block_id : Text
  pub patches : List SharedCellPatch
  pub action_id : Text

-- The ids of actions by layer, the last one on top.
abbrev pub Stacks : Type 0
Stacks = List (Text × List Text)

-- The fields of `SharedDocumentRuntime` that the history reads and writes; `document` holds the layers
-- and the canvases.
pub record HistoryRuntime (R : Renderer) (Value : Type 0) : Type 0 where
  pub document : Runtime R Value
  pub document_id : Text
  pub document_window : DocumentWindow
  pub actions : List (SharedDocumentActionRecord Value)
  pub applied_action_ids_by_layer : Stacks
  pub undone_action_ids_by_layer : Stacks
  pub patches_by_action_id : List (Text × AppliedCellPatches)
  pub baseline : List (SharedDocumentActionRecord Value)
  pub squashed_through : ℕ

module _ {Value : Type 0} where
  unfoldable pub revert_patch_set :
      (action_id document_id layer_id user_id created_at : Text)
      → List SharedCellPatch
      → Option Text
      → (reverts : Text) → SharedDocumentActionRecord Value
  revert_patch_set action_id document_id layer_id user_id created_at patches block_id reverts =
      record {
        action_id = action_id;
        document_id = document_id;
        layer_id = layer_id;
        user_id = user_id;
        created_at = created_at;
        action = cell_patch_set patches block_id true (some reverts);
      }

  unfoldable pub patch_set :
      (action_id document_id layer_id user_id created_at : Text)
      → List SharedCellPatch
      → Option Text
      → SharedDocumentActionRecord Value
  patch_set action_id document_id layer_id user_id created_at patches block_id = record {
    action_id = action_id;
    document_id = document_id;
    layer_id = layer_id;
    user_id = user_id;
    created_at = created_at;
    action = cell_patch_set patches block_id false none;
  }

  unfoldable pub as_passive : SharedDocumentActionRecord Value → SharedDocumentActionRecord Value
  as_passive r = record r {
    action = elim r.action [
      | cell_patch_set patches block_id passive reverts ↦
          cell_patch_set patches block_id true reverts
      | structure_set layers window ↦ structure_set layers window
      | undo ↦ undo
      | redo ↦ redo
    ];
  }

  unfoldable pub structure_record :
      (action_id document_id user_id created_at : Text)
      → List (Layer Value)
      → DocumentWindow
      → SharedDocumentActionRecord Value
  structure_record action_id document_id user_id created_at layers window = record {
    action_id = action_id;
    document_id = document_id;
    layer_id = [];
    user_id = user_id;
    created_at = created_at;
    action = structure_set layers window;
  }

-- `entry(layer_id).or_default()` on the stacks, as a read and as a write of what stands there then.
unfoldable pub stack : Text → Stacks → List Text
stack layer_id stacks = elim (get layer_id stacks) [ none ↦ [] | some ids ↦ ids ]

unfoldable pub with_stack : Text → (List Text → List Text) → Stacks → Stacks
unfolding stack
with_stack layer_id f stacks = insert layer_id (f (stack layer_id stacks)) stacks

module _ {A : Type 0} where
  -- `push` and `pop` of a vector.
  abbrev pub push : A → List A → List A
  push a xs = xs ++ a ∷ []

  unfoldable pub pop : List A → Option (List A × A)
  pop [] = none
  pop (x ∷ xs) = elim (pop xs) [ none ↦ some ([], x) | some r ↦ some (x ∷ r.0, r.1) ]

module _ {R : Renderer} {Value : Type 0} where
  -- The canvas of a raster bar, empty where there is none (`entry().or_default()`).
  unfoldable pub canvas_at : Runtime R Value → Text → Text → Canvas R
  canvas_at document layer_id block_id =
      elim (get (layer_id, codes "raster", block_id) document.block_canvases) [
        | none ↦ []
        | some canvas ↦ canvas
      ]

  unfoldable pub put_canvas : Runtime R Value → Text → Text → Canvas R → Runtime R Value
  put_canvas document layer_id block_id canvas =
      with_canvases document
        (insert (layer_id, codes "raster", block_id) canvas document.block_canvases)
