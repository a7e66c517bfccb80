-- ===== src/Cell/Tests.antt =====
-- A cell with a sprite, stored and read back.
use thaum_painter.Base.{◌≡◌, refl, some, [], ◌∷◌}
use thaum_painter.Base.Int.{pos}
use thaum_painter.Base.Text.{Text, codes, text_eq}
use thaum_painter.Cell.{Renderer, CellGraphic, PaintColor, PaintedCell, CellFacing}
use thaum_painter.Cell.Stored.{StoresPayloads, from_runtime, to_runtime, to_runtime-from_runtime}

-- A renderer whose payloads are texts.
abbrev texts : Renderer
texts = record {
  Sprite = Text;
  Sided = Text;
  sprite_eq = text_eq;
  sided_eq = text_eq;
  atlas_relative_path = λ s. s;
  sprite_new = λ s. s;
  sided_declaration_json = λ s. s;
  parse_sided_declaration = λ s. some s;
}

abbrev texts_kept : StoresPayloads texts
texts_kept = record { sprite_kept = λ s. refl; sided_kept = λ s. refl }

abbrev leaf : PaintedCell texts
leaf = record {
  graphic = CellGraphic.sprite (codes "leaf.png");
  color = PaintColor.material (codes "moss.mat");
  weight_index = pos 3;
  shader_stack = codes "glow" ∷ [];
  facing = CellFacing.neg_x;
}

to_runtime-from_runtime_example : to_runtime (from_runtime leaf) ≡ leaf
to_runtime-from_runtime_example = to_runtime-from_runtime texts_kept leaf
