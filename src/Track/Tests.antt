-- ===== src/Track/Tests.antt =====
-- Runs on small tracks, and the theorems at concrete tracks.
use thaum_painter.Base.{
  saturating_add, ℕ, ◌≡◌, ◌≢◌, refl, ◌↔◌, inl, inr, true, false, some, List, [], ◌∷◌, arith,
}
use thaum_painter.Base.Text.{Text, codes, text_eq, text_eq_iff}
use thaum_painter.Track.Block.{SharedDocumentPropertyBlock as Block, blank_block}
use thaum_painter.Track.Mode.{loop_out, resolve_mode}
use thaum_painter.Track.Retile.{retiled_property_track}
use thaum_painter.Track.Tiling.{IsTiled, Shows}
use thaum_painter.Track.Tiling.Retiled.{Retiles, retiled_property_track-IsTiled}
use thaum_painter.Track.Tiling.Retiled.{Shows-retiled_property_track}
use thaum_painter.Track.Tiling.Retiled.{retiled_property_track-keeps_content}
use thaum_painter.Track.Tiling.Stable.{retiled_property_track_id}
use thaum_painter.Track.Tiling.Distinct.{retiled_property_track-Distinct}
use thaum_painter.Track.Tiling.Names.{Distinct}
use thaum_painter.Track.Tiling.Cells.{
  CellAt, covering_bar_cell_tiled, GateAt, resolve_editable_breath_tiled,
}
use thaum_painter.Timeline.{TimelineState}

abbrev bar : Text → ℕ → ℕ → Block ℕ
bar name start length = record (blank_block name start length) { is_blank = false; value = some 7 }

-- Two bars in the wrong order, a gap in front of each, and a stranded mode.
abbrev gappy : List (Block ℕ)
gappy =
    bar (codes "block-2") 6 2
    ∷ record (blank_block (codes "block-1") 2 1) { interpretation = some loop_out }
    ∷ []

abbrev tiled_gappy : List (Block ℕ)
tiled_gappy =
    blank_block (codes "block-1x") 0 6
    ∷ bar (codes "block-2") 6 2
    ∷ blank_block (codes "block-1xxx") 8 2
    ∷ []

retiled_gappy : retiled_property_track gappy 0 10 ≡ tiled_gappy
unfolding retiled_property_track
retiled_gappy = refl

tiled_gappy-IsTiled : IsTiled 0 10 tiled_gappy
unfolding resolve_mode
tiled_gappy-IsTiled = record {
  chain = omega arith;
  apart = (refl, (refl, (refl, tt)));
  trailing = refl;
  edges = (
    (λ e. cc, λ e. cc, λ e. cc),
    ((λ e. cc, λ e. cc, λ e. (refl, refl, refl)), ((λ e. cc, λ e. cc, λ e. cc), tt)),
  );
}

retiled_property_track-IsTiled_example : Retiles gappy 0 10 (retiled_property_track gappy 0 10)
retiled_property_track-IsTiled_example =
    retiled_property_track-IsTiled gappy 0 10 (omega arith) (omega arith)

shown : Shows 7 (codes "block-2") (some 7) (retiled_property_track gappy 0 10)
unfolding retiled_property_track
shown = inr (inl (omega arith, omega arith, refl, refl, refl))

Shows-retiled_property_track_example : Shows 7 (codes "block-2") (some 7) gappy
Shows-retiled_property_track_example =
    Shows-retiled_property_track gappy 0 10 (omega arith) (omega arith) 7 (codes "block-2") (some 7)
      shown

retiled_property_track-keeps_content_example :
    Shows 7 (codes "block-2") (some 7) (retiled_property_track gappy 0 10)
    ↔ Shows 7 (codes "block-2") (some 7) gappy
retiled_property_track-keeps_content_example =
    retiled_property_track-keeps_content gappy 0 10 (omega arith) (omega arith) 7 (codes "block-2")
      (some 7) ((inr (omega arith), tt), (tt, tt)) (omega arith)

retiled_property_track_id_example : retiled_property_track tiled_gappy 0 10 ≡ tiled_gappy
unfolding saturating_add
retiled_property_track_id_example =
    retiled_property_track_id tiled_gappy 0 10 10 tiled_gappy-IsTiled (omega arith) (omega arith)

two-ne-one : codes "block-2" ≢ codes "block-1"
unfolding text_eq
two-ne-one e = cc ((text_eq_iff (codes "block-2") (codes "block-1")).1 e)

retiled_property_track-Distinct_example : Distinct (retiled_property_track gappy 0 10)
retiled_property_track-Distinct_example =
    retiled_property_track-Distinct gappy 0 10 ((two-ne-one, tt), (tt, tt))

covering_bar_cell_tiled_example : CellAt 7 tiled_gappy
covering_bar_cell_tiled_example =
    covering_bar_cell_tiled tiled_gappy 0 10 7 tiled_gappy-IsTiled (omega arith) (omega arith)
      (omega arith)

abbrev playhead : TimelineState
playhead = record {
  current_breath = 7;
  auto_key_enabled = false;
  playing = false;
  loop_enabled = true;
}

resolve_editable_breath_tiled_example : GateAt playhead tiled_gappy
resolve_editable_breath_tiled_example =
    resolve_editable_breath_tiled playhead tiled_gappy 0 10 tiled_gappy-IsTiled (omega arith)
      (omega arith) (omega arith)
