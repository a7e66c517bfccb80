-- ===== src/Cell/Stored.antt =====
-- Cells as the action log stores them (domain/file/storage/storage.rs), and the portable names of the
-- facings (domain/painter-operations/brush/brush.rs).
use thaum_painter.Base.{ℕ, Option, none, some, List, ◌≡◌, refl, ap, if◌then◌else◌}
use thaum_painter.Base.Int.{ℤ}
use thaum_painter.Base.Text.{Text, codes, text_eq}
use thaum_painter.Cell.{
  CellFacing, pos_x, neg_x, pos_y, neg_y, pos_z, neg_z, PaintColorSlot, PaintColor, CellGraphic,
  PaintedCell, Renderer,
}

unfoldable pub facing_portable_name : CellFacing → Text
facing_portable_name pos_x = codes "pos-x"
facing_portable_name neg_x = codes "neg-x"
facing_portable_name pos_y = codes "pos-y"
facing_portable_name neg_y = codes "neg-y"
facing_portable_name pos_z = codes "pos-z"
facing_portable_name neg_z = codes "neg-z"

unfoldable pub facing_from_portable_name : Text → Option CellFacing
facing_from_portable_name name =
    if text_eq name (codes "pos-x")
    then some pos_x
    else if text_eq name (codes "neg-x")
    then some neg_x
    else if text_eq name (codes "pos-y")
    then some pos_y
    else if text_eq name (codes "neg-y")
    then some neg_y
    else if text_eq name (codes "pos-z")
    then some pos_z
    else if text_eq name (codes "neg-z")
    then some neg_z
    else none

facing_round_trip :
    (facing : CellFacing) → facing_from_portable_name (facing_portable_name facing) ≡ some facing
unfolding facing_from_portable_name facing_portable_name text_eq
facing_round_trip pos_x = refl
facing_round_trip neg_x = refl
facing_round_trip pos_y = refl
facing_round_trip neg_y = refl
facing_round_trip pos_z = refl
facing_round_trip neg_z = refl

pub data PersistedSharedPaintColorSlot : Type 0 where
  flat_rgb : ℕ → ℕ → ℕ → PersistedSharedPaintColorSlot
  material : Text → PersistedSharedPaintColorSlot

pub data PersistedSharedPaintColor : Type 0 where
  flat_rgb : ℕ → ℕ → ℕ → PersistedSharedPaintColor
  material : Text → PersistedSharedPaintColor
  slots :
      PersistedSharedPaintColorSlot
      → PersistedSharedPaintColorSlot
      → PersistedSharedPaintColorSlot
      → PersistedSharedPaintColor

pub data PersistedSharedGraphic : Type 0 where
  blank : PersistedSharedGraphic
  glyph : ℕ → PersistedSharedGraphic
  sprite : Text → PersistedSharedGraphic
  sided : Text → PersistedSharedGraphic

pub record PersistedSharedPaintedCell : Type 0 where
  pub graphic : PersistedSharedGraphic
  pub color : PersistedSharedPaintColor
  pub weight_index : ℤ
  pub shader_stack : List Text
  pub facing : Text

unfoldable pub store_slot : PaintColorSlot → PersistedSharedPaintColorSlot
store_slot (PaintColorSlot.flat_rgb r g b) = PersistedSharedPaintColorSlot.flat_rgb r g b
store_slot (PaintColorSlot.material file) = PersistedSharedPaintColorSlot.material file

unfoldable pub load_slot : PersistedSharedPaintColorSlot → PaintColorSlot
load_slot (PersistedSharedPaintColorSlot.flat_rgb r g b) = PaintColorSlot.flat_rgb r g b
load_slot (PersistedSharedPaintColorSlot.material file) = PaintColorSlot.material file

unfoldable pub store_color : PaintColor → PersistedSharedPaintColor
unfolding store_slot
store_color (PaintColor.flat_rgb r g b) = PersistedSharedPaintColor.flat_rgb r g b
store_color (PaintColor.material file) = PersistedSharedPaintColor.material file
store_color (PaintColor.slots a b c) =
    PersistedSharedPaintColor.slots (store_slot a) (store_slot b) (store_slot c)

unfoldable pub load_color : PersistedSharedPaintColor → PaintColor
unfolding load_slot
load_color (PersistedSharedPaintColor.flat_rgb r g b) = PaintColor.flat_rgb r g b
load_color (PersistedSharedPaintColor.material file) = PaintColor.material file
load_color (PersistedSharedPaintColor.slots a b c) =
    PaintColor.slots (load_slot a) (load_slot b) (load_slot c)

slot_round_trip : (slot : PaintColorSlot) → load_slot (store_slot slot) ≡ slot
unfolding load_slot store_slot
slot_round_trip (PaintColorSlot.flat_rgb r g b) = refl
slot_round_trip (PaintColorSlot.material file) = refl

color_round_trip : (color : PaintColor) → load_color (store_color color) ≡ color
unfolding load_color store_color
color_round_trip (PaintColor.flat_rgb r g b) = refl
color_round_trip (PaintColor.material file) = refl
color_round_trip (PaintColor.slots a b c) =
    rw (slot_round_trip a, slot_round_trip b, slot_round_trip c) refl

-- What storing relies on: a sprite is made again from its atlas path, and a sided declaration is
-- read back from its own text.
pub record StoresPayloads (R : Renderer) : Type 0 where
  pub sprite_kept : (s : R.Sprite) → R.sprite_new (R.atlas_relative_path s) ≡ s
  pub sided_kept : (s : R.Sided) → R.parse_sided_declaration (R.sided_declaration_json s) ≡ some s

module _ {R : Renderer} where
  unfoldable pub store_graphic : CellGraphic R → PersistedSharedGraphic
  store_graphic CellGraphic.blank = PersistedSharedGraphic.blank
  store_graphic (CellGraphic.glyph c) = PersistedSharedGraphic.glyph c
  store_graphic (CellGraphic.sprite s) = PersistedSharedGraphic.sprite (R.atlas_relative_path s)
  store_graphic (CellGraphic.sided s) = PersistedSharedGraphic.sided (R.sided_declaration_json s)

  -- A malformed declaration becomes an empty graphic.
  unfoldable pub load_graphic : PersistedSharedGraphic → CellGraphic R
  load_graphic PersistedSharedGraphic.blank = CellGraphic.blank
  load_graphic (PersistedSharedGraphic.glyph c) = CellGraphic.glyph c
  load_graphic (PersistedSharedGraphic.sprite path) = CellGraphic.sprite (R.sprite_new path)
  load_graphic (PersistedSharedGraphic.sided declaration) =
      elim (R.parse_sided_declaration declaration) [
        | none ↦ CellGraphic.blank
        | some s ↦ CellGraphic.sided s
      ]

  unfoldable pub from_runtime : PaintedCell R → PersistedSharedPaintedCell
  unfolding store_graphic store_color facing_portable_name
  from_runtime cell = record {
    graphic = store_graphic cell.graphic;
    color = store_color cell.color;
    weight_index = cell.weight_index;
    shader_stack = cell.shader_stack;
    facing = facing_portable_name cell.facing;
  }

  -- An unknown facing becomes `pos_z`.
  unfoldable pub to_runtime : PersistedSharedPaintedCell → PaintedCell R
  unfolding load_graphic load_color facing_from_portable_name
  to_runtime stored = record {
    graphic = load_graphic stored.graphic;
    color = load_color stored.color;
    weight_index = stored.weight_index;
    shader_stack = stored.shader_stack;
    facing = elim (facing_from_portable_name stored.facing) [ none ↦ pos_z | some f ↦ f ];
  }

  graphic_round_trip :
      (laws : StoresPayloads R) (g : CellGraphic R) → load_graphic (store_graphic g) ≡ g
  unfolding load_graphic store_graphic
  graphic_round_trip laws CellGraphic.blank = refl
  graphic_round_trip laws (CellGraphic.glyph c) = refl
  graphic_round_trip laws (CellGraphic.sprite s) =
      ap (λ t. CellGraphic.sprite t) (laws.sprite_kept s)
  graphic_round_trip laws (CellGraphic.sided s) = rw (laws.sided_kept s) refl

  -- A cell is read back from what the log stores of it.
  pub to_runtime-from_runtime :
      (laws : StoresPayloads R) (cell : PaintedCell R) → to_runtime (from_runtime cell) ≡ cell
  unfolding to_runtime from_runtime
  to_runtime-from_runtime laws cell =
      rw
        (
          graphic_round_trip laws cell.graphic,
          color_round_trip cell.color,
          facing_round_trip cell.facing,
        )
        refl
