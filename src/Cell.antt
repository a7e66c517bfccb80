-- ===== src/Cell.antt =====
-- Cells and canvases: points, painted cells and their colors
-- (domain/painter-operations/brush/brush.rs, domain/painter-session/paint-color/paint_color.rs).
pub mod Stored
mod Tests
use thaum_painter.Base.{ℕ, Bool, true, false, ◌&&◌, Option, none, some, List, [], ◌∷◌}
use thaum_painter.Base.{if◌then◌else◌, ◌==◌, arith, ◌≡◌, ◌↔◌}
use thaum_painter.Base.Int.{ℤ, eqb_ℤ, eqb_ℤ_iff}
use thaum_painter.Base.Text.{Text, text_eq}
use thaum_painter.Base.Map.{Eq, insert, remove}

pub record CellPoint : Type 0 where
  pub x : ℤ
  pub y : ℤ
  pub z : ℤ

unfoldable pub point_eq : CellPoint → CellPoint → Bool
point_eq p q = eqb_ℤ p.x q.x && eqb_ℤ p.y q.y && eqb_ℤ p.z q.z

pub point_eq_iff : (p q : CellPoint) → (point_eq p q ≡ true) ↔ (p ≡ q)
unfolding point_eq
point_eq_iff p q = ground (arith, eqb_ℤ_iff p.x q.x, eqb_ℤ_iff p.y q.y, eqb_ℤ_iff p.z q.z)

instance abbrev pub point_Eq : Eq CellPoint
point_Eq = record { beq = point_eq; beq_iff = point_eq_iff }

pub data CellFacing : Type 0 where
  pos_x neg_x pos_y neg_y pos_z neg_z : CellFacing

pub data PaintColorSlot : Type 0 where
  flat_rgb : ℕ → ℕ → ℕ → PaintColorSlot
  material : Text → PaintColorSlot

pub data PaintColor : Type 0 where
  flat_rgb : ℕ → ℕ → ℕ → PaintColor
  material : Text → PaintColor
  slots : PaintColorSlot → PaintColorSlot → PaintColorSlot → PaintColor

-- The derived `PartialEq` of the two color types.
unfoldable pub slot_eq : PaintColorSlot → PaintColorSlot → Bool
slot_eq (flat_rgb r g b) (flat_rgb r' g' b') = r == r' && g == g' && b == b'
slot_eq (material s) (material t) = text_eq s t
slot_eq (flat_rgb r g b) (material t) = false
slot_eq (material s) (flat_rgb r g b) = false

unfoldable pub color_eq : PaintColor → PaintColor → Bool
unfolding slot_eq
color_eq (flat_rgb r g b) (flat_rgb r' g' b') = r == r' && g == g' && b == b'
color_eq (material s) (material t) = text_eq s t
color_eq (slots a b c) (slots a' b' c') = slot_eq a a' && slot_eq b b' && slot_eq c c'
color_eq _ _ = false

unfoldable pub texts_eq : List Text → List Text → Bool
texts_eq [] [] = true
texts_eq (s ∷ ss) (t ∷ ts) = text_eq s t && texts_eq ss ts
texts_eq _ _ = false

unfoldable pub facing_eq : CellFacing → CellFacing → Bool
facing_eq pos_x pos_x = true
facing_eq neg_x neg_x = true
facing_eq pos_y pos_y = true
facing_eq neg_y neg_y = true
facing_eq pos_z pos_z = true
facing_eq neg_z neg_z = true
facing_eq _ _ = false

-- What the painter takes from `thaum_renderer_domain`: sprite and sided payloads with their equality,
-- and the portable texts that they are stored as.
pub record Renderer : Type 1 where
  pub Sprite : Type 0
  pub Sided : Type 0
  pub sprite_eq : Sprite → Sprite → Bool
  pub sided_eq : Sided → Sided → Bool
  pub atlas_relative_path : Sprite → Text
  pub sprite_new : Text → Sprite
  pub sided_declaration_json : Sided → Text
  pub parse_sided_declaration : Text → Option Sided

pub data CellGraphic (R : Renderer) : Type 0 where
  blank : CellGraphic R
  glyph : ℕ → CellGraphic R
  sprite : R.Sprite → CellGraphic R
  sided : R.Sided → CellGraphic R

pub record PaintedCell (R : Renderer) : Type 0 where
  pub graphic : CellGraphic R
  pub color : PaintColor
  pub weight_index : ℤ
  pub shader_stack : List Text
  pub facing : CellFacing

module _ (R : Renderer) where
  abbrev pub Canvas : Type 0
  Canvas = List (CellPoint × PaintedCell R)

module _ {R : Renderer} where
  unfoldable pub graphic_eq : CellGraphic R → CellGraphic R → Bool
  graphic_eq blank blank = true
  graphic_eq (glyph c) (glyph d) = c == d
  graphic_eq (sprite s) (sprite t) = R.sprite_eq s t
  graphic_eq (sided s) (sided t) = R.sided_eq s t
  graphic_eq _ _ = false

  unfoldable pub cell_eq : PaintedCell R → PaintedCell R → Bool
  unfolding graphic_eq
  cell_eq a b =
      graphic_eq a.graphic b.graphic
      && color_eq a.color b.color
      && eqb_ℤ a.weight_index b.weight_index
      && texts_eq a.shader_stack b.shader_stack
      && facing_eq a.facing b.facing

  -- `canvas.get(&point).cloned() == Some(cell)`.
  unfoldable pub stored_eq : Option (PaintedCell R) → PaintedCell R → Bool
  unfolding cell_eq
  stored_eq none cell = false
  stored_eq (some stored) cell = cell_eq stored cell

  unfoldable pub is_blank_cell : PaintedCell R → Bool
  is_blank_cell cell = elim cell.graphic [ glyph c ↦ c == 32 | _ ↦ false ]

  unfoldable pub effective_cell : Option (PaintedCell R) → Option (PaintedCell R)
  unfolding is_blank_cell
  effective_cell none = none
  effective_cell (some cell) = if is_blank_cell cell then none else some cell

  unfoldable pub apply_brush : Canvas R → CellPoint → PaintedCell R → Canvas R
  apply_brush canvas position cell = insert position cell canvas

  unfoldable pub write_cell : Canvas R → CellPoint → PaintedCell R → Canvas R
  unfolding is_blank_cell
  write_cell canvas position cell =
      if is_blank_cell cell then remove position canvas else insert position cell canvas
