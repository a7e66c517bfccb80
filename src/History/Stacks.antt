-- ===== src/History/Stacks.antt =====
-- The stacks and canvases of the history read back, and undo and redo of a known action (domain/file/storage/storage.rs).
use thaum_painter.Base.{some, List, [], ◌∷◌, map, ◌≡◌, refl, ◌∙◌}
use thaum_painter.Base.Text.{Text, codes, text_Eq}
use thaum_painter.Base.Map.{Eq, get, insert, get-insert}
use thaum_painter.Cell.{Renderer, Canvas, point_Eq}
use thaum_painter.Document.{SharedDocumentRuntime as Runtime, key_Eq}
use thaum_painter.History.{
  SharedCellPatch, inverse, AppliedCellPatches, HistoryRuntime, Stacks, stack, with_stack, push,
  pop, canvas_at, put_canvas,
}
use thaum_painter.History.Patches.{PatchDirection, apply_patches}
use thaum_painter.History.Painted.{unblank_raster_block, paint, repaint}
use thaum_painter.History.Undo.{undo_top_action, redo_top_action}

module _ {K V : Type 0} ⦃e : Eq K⦄ where
  pub get-insert_same : (k : K) (v : V) (m : List (K × V)) → get k (insert k v m) ≡ some v
  get-insert_same k v m = get-insert k k v m ∙ rw ((e.beq_iff k k).1 refl) refl

module _ {A : Type 0} where
  pub pop-push : (xs : List A) (a : A) → pop (push a xs) ≡ some (xs, a)
  unfolding pop
  pop-push [] a = refl
  pop-push (x ∷ xs) a = rw (pop-push xs a) refl

pub stack-with_stack :
    (l : Text) (f : List Text → List Text) (s : Stacks) → stack l (with_stack l f s) ≡ f (stack l s)
unfolding with_stack stack
stack-with_stack l f s = rw (stack, get-insert_same l (f (stack l s)) s) refl

pub stack-insert : (l : Text) (ids : List Text) (s : Stacks) → stack l (insert l ids s) ≡ ids
unfolding stack
stack-insert l ids s = rw (stack, get-insert_same l ids s) refl

module _ {R : Renderer} {Value : Type 0} where
  pub canvas_at-put_canvas :
      (document : Runtime R Value) (l b : Text) (c : Canvas R)
      → canvas_at (put_canvas document l b c) l b ≡ c
  unfolding put_canvas canvas_at
  canvas_at-put_canvas document l b c =
      rw (canvas_at, get-insert_same (l, codes "raster", b) c document.block_canvases) refl

  pub canvas_at-repaint :
      (document : Runtime R Value) (applied : AppliedCellPatches) (direction : PatchDirection)
      → canvas_at (repaint document applied direction) applied.layer_id applied.block_id
        ≡ apply_patches
            (canvas_at document applied.layer_id applied.block_id)
            applied.patches
            direction
  unfolding repaint
  canvas_at-repaint document applied direction =
      canvas_at-put_canvas document applied.layer_id applied.block_id (
        apply_patches (canvas_at document applied.layer_id applied.block_id) applied.patches
          direction)

  pub canvas_at-paint :
      (r : HistoryRuntime R Value) (l b : Text) (patches : List SharedCellPatch)
      → canvas_at (paint r l b patches).document l b
        ≡ apply_patches
            (canvas_at (unblank_raster_block r.document l b) l b)
            patches
            PatchDirection.after
  unfolding paint
  canvas_at-paint r l b patches =
      let d : Runtime R Value = unblank_raster_block r.document l b in
      canvas_at-put_canvas d l b (apply_patches (canvas_at d l b) patches PatchDirection.after)

  -- An undo of a known top action, and a redo.
  pub undo_known :
      (r : HistoryRuntime R Value) (l id : Text) (ids : List Text) (applied : AppliedCellPatches)
      → get l r.applied_action_ids_by_layer ≡ some (push id ids)
      → get id r.patches_by_action_id ≡ some applied
      → undo_top_action r l ≡ (
        record r {
          document = repaint r.document applied PatchDirection.before;
          applied_action_ids_by_layer = insert l ids r.applied_action_ids_by_layer;
          undone_action_ids_by_layer = with_stack l (push id) r.undone_action_ids_by_layer;
        },
        some (record {
          block_id = applied.block_id;
          patches = map inverse applied.patches;
          action_id = id;
        }),
      )
  unfolding undo_top_action
  undo_known r l id ids applied h k = rw (undo_top_action, h, pop-push ids id, k) refl

  pub redo_known :
      (r : HistoryRuntime R Value) (l id : Text) (ids : List Text) (applied : AppliedCellPatches)
      → get l r.undone_action_ids_by_layer ≡ some (push id ids)
      → get id r.patches_by_action_id ≡ some applied
      → redo_top_action r l ≡ (
        record r {
          document = repaint r.document applied PatchDirection.after;
          undone_action_ids_by_layer = insert l ids r.undone_action_ids_by_layer;
          applied_action_ids_by_layer = with_stack l (push id) r.applied_action_ids_by_layer;
        },
        some (record { block_id = applied.block_id; patches = applied.patches; action_id = id }),
      )
  unfolding redo_top_action
  redo_known r l id ids applied h k = rw (redo_top_action, h, pop-push ids id, k) refl
