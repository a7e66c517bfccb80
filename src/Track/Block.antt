-- ===== src/Track/Block.antt =====
-- The stored bar of a property track, `SharedDocumentPropertyBlock`, and the bar of the file schema.
use thaum_painter.Base.{ℕ, Bool, true, Option, none, List}
use thaum_painter.Base.Text.{Text}

-- `Value` stands for `serde_json::Value`.
pub record SharedDocumentPropertyBlock (Value : Type 0) : Type 0 where
  pub id : Text
  pub start_breath : ℕ
  pub length_breaths : ℕ
  pub is_blank : Bool
  pub value : Option Value
  pub interpretation : Option Text
  pub ease_out_percent : Option ℕ
  pub ease_in_percent : Option ℕ

pub record SharedDocumentPropertyTrack (Value : Type 0) : Type 0 where
  pub property_id : Text
  pub blocks : List (SharedDocumentPropertyBlock Value)

-- The literal that the re-tiling writes for every blank that it mints.
abbrev pub blank_block : {Value : Type 0} → Text → ℕ → ℕ → SharedDocumentPropertyBlock Value
blank_block new_id start length = record {
  id = new_id;
  start_breath = start;
  length_breaths = length;
  is_blank = true;
  value = none;
  interpretation = none;
  ease_out_percent = none;
  ease_in_percent = none;
}

-- The bar of the file schema, with an inclusive end.
pub record PropertyBlock (Value : Type 0) : Type 0 where
  pub id : Text
  pub start_breath : ℕ
  pub end_breath : ℕ
  pub value : Value
