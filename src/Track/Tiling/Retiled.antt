-- ===== src/Track/Tiling/Retiled.antt =====
-- What `retiled_property_track` guarantees of any stored track.
use thaum_painter.Base.{ℕ, max, ◌≤◌, ◌<◌, ◌≡◌, refl, ◌↔◌, inl, inr, Option, List, [], ◌∷◌, All}
use thaum_painter.Base.{
  false, u32_max, arith, saturating_add, saturating_add-le, saturating_add-lt, length, ◌-◌,
}
use thaum_painter.Base.Text.{Text}
use thaum_painter.Track.Block.{SharedDocumentPropertyBlock as Block}
use thaum_painter.Track.Ids.{ids_of}
use thaum_painter.Track.Retile.{clip_blocks, sort_by_start, Tiling, tile_blocks, tile_tail}
use thaum_painter.Track.Retile.{trailing_blank, enforce_from, retiled_property_track}
use thaum_painter.Track.Tiling.{Shows, FitsU32, IsTiled}
use thaum_painter.Track.Tiling.Loop.{IsTiling, tile_blocks-IsTiling, Shows-tile_blocks}
use thaum_painter.Track.Tiling.Loop.{tile_blocks-Shows}
use thaum_painter.Track.Tiling.Clip.{Within, Disjoint, clip_blocks-Within, Shows-clip_blocks}
use thaum_painter.Track.Tiling.Clip.{clip_blocks-Shows, clip_blocks-Disjoint, sort_by_start-All}
use thaum_painter.Track.Tiling.Clip.{Shows-sort_by_start, sort_by_start-Ordered}
use thaum_painter.Track.Tiling.Finish.{tile_tail-Chain, tile_tail-ApartFrom, Shows-tile_tail}
use thaum_painter.Track.Tiling.Finish.{trailing_blank-IsClosed, Shows-trailing_blank}
use thaum_painter.Track.Tiling.Edges.{enforce_from-EdgesFrom, length-enforce_from}
use thaum_painter.Track.Tiling.Edges.{enforce_from-Chain, enforce_from-ApartFrom}
use thaum_painter.Track.Tiling.Edges.{enforce_from-EndsBlank, Shows-enforce_from}

module _ {Value : Type 0} (bs : List (Block Value)) (s l : ℕ) where
  -- The end of the viewport, and the stages of the re-tiling.
  abbrev pub span_end_of : ℕ
  span_end_of = saturating_add s (max l 1)

  abbrev pub clipped : List (Block Value)
  clipped = sort_by_start (clip_blocks s bs)

  abbrev pub begun : Tiling Value
  begun = record { used = ids_of clipped; tiled = []; cursor = s }

  abbrev pub rows : Tiling Value
  rows = tile_blocks begun clipped

  abbrev pub tailed : Tiling Value
  tailed = tile_tail span_end_of rows

  abbrev pub closing : List (Block Value)
  closing = trailing_blank span_end_of tailed

  pub retiled-enforce_from :
      retiled_property_track bs s l ≡ enforce_from (length closing - 1) 0 closing
  unfolding retiled_property_track
  retiled-enforce_from = refl

  -- The result of the re-tiling, and how far its stored bars reach.
  pub record Retiles (out : List (Block Value)) : Type 0 where
    pub end : ℕ
    pub tiled : IsTiled s end out
    pub covers : span_end_of ≤ end

module _ {Value : Type 0} (bs : List (Block Value)) (s l : ℕ) (fits : All FitsU32 bs)
    (low : s < u32_max) where
  clipped-FitsU32 : All FitsU32 (clipped bs s l)
  clipped-FitsU32 = within _ (sort_by_start-All (Within s) _ (clip_blocks-Within s bs fits))
    where
      within : (cs : List (Block Value)) → All (Within s) cs → All FitsU32 cs
      within [] h = tt
      within (c ∷ cs) h = (h.0.0, within cs h.1)

  begun-IsTiling : IsTiling s (begun bs s l)
  begun-IsTiling = record { chain = refl; apart = tt; low = omega arith }

  rows-IsTiling : IsTiling s (rows bs s l)
  rows-IsTiling = tile_blocks-IsTiling (clipped bs s l) _ s clipped-FitsU32 begun-IsTiling

  -- For every track whose bars are at least one breath long and end within `u32`, overlapping or
  -- not and in any order, and every span that starts below `u32::MAX`: the re-tiled bars lie end to
  -- end from the span's start to an end at or behind the span's end, no two blanks touch, the last
  -- bar is blank, `loop_out` stands only on the last bar and `loop_in` only on the first, both on
  -- blanks, and no solid bar has an interpretation or ease ends.
  pub retiled_property_track-IsTiled : Retiles bs s l (retiled_property_track bs s l)
  retiled_property_track-IsTiled =
      let top = saturating_add-le s (max l 1) in
      let grown = saturating_add-lt s l low in
      let closed =
        trailing_blank-IsClosed (span_end_of bs s l) s
          (max (rows bs s l).cursor (span_end_of bs s l)) (tailed bs s l)
          (tile_tail-Chain (span_end_of bs s l) s (rows bs s l) top rows-IsTiling) (omega arith)
          (omega (arith, rows-IsTiling.low)) (omega arith)
          (tile_tail-ApartFrom (span_end_of bs s l) (rows bs s l) rows-IsTiling.apart) in
      let last = length (closing bs s l) - 1 in
      let out = closing bs s l in
      rw (retiled-enforce_from bs s l) (record {
        end = closed.end;
        tiled = record {
          chain = enforce_from-Chain last 0 out s closed.end closed.chain;
          apart = enforce_from-ApartFrom last 0 out false closed.apart;
          trailing = enforce_from-EndsBlank last 0 out closed.trailing;
          edges = rw (length-enforce_from last 0 out) (enforce_from-EdgesFrom last 0 out);
        };
        covers = closed.covers;
      })

  -- Re-tiling invents no content: a solid bar of the result that covers a breath stems from a solid
  -- bar of the same id and value that covered it before.
  pub Shows-retiled_property_track :
      (x : ℕ) (i : Text) (v : Option Value)
      → Shows x i v (retiled_property_track bs s l)
      → Shows x i v bs
  Shows-retiled_property_track x i v h =
      let h' = rw (retiled-enforce_from bs s l) at h in
      let closed =
        (Shows-enforce_from (length (closing bs s l) - 1) 0 (closing bs s l) x i v).0 h' in
      let tail = (Shows-trailing_blank (span_end_of bs s l) (tailed bs s l) x i v).0 closed in
      let row = (Shows-tile_tail (span_end_of bs s l) (rows bs s l) x i v).0 tail in
      elim (Shows-tile_blocks (clipped bs s l) (begun bs s l) s x i v clipped-FitsU32 begun-IsTiling
        row) [
          | inl nothing ↦ absurd nothing
          | inr k ↦
              Shows-clip_blocks s bs x i v fits ((Shows-sort_by_start (clip_blocks s bs) x i v).0 k)
        ]

  -- Of a track whose bars do not overlap, re-tiling keeps at every breath from the span's start on
  -- exactly the content that was there, whatever the order of the bars.
  pub retiled_property_track-keeps_content :
      (x : ℕ) (i : Text) (v : Option Value)
      → Disjoint bs
      → s ≤ x
      → Shows x i v (retiled_property_track bs s l) ↔ Shows x i v bs
  retiled_property_track-keeps_content x i v apart inside = (
    Shows-retiled_property_track x i v,
    λ h.
        let cut = clip_blocks-Shows s bs x i v fits inside h in
        let sorted = (Shows-sort_by_start (clip_blocks s bs) x i v).1 cut in
        let ordered =
          sort_by_start-Ordered (clip_blocks s bs) s (clip_blocks-Within s bs fits)
            (clip_blocks-Disjoint s bs fits apart) in
        let row =
          tile_blocks-Shows (clipped bs s l) (begun bs s l) s x i v clipped-FitsU32 ordered
            begun-IsTiling (inr sorted) in
        let tail = (Shows-tile_tail (span_end_of bs s l) (rows bs s l) x i v).1 row in
        let closed = (Shows-trailing_blank (span_end_of bs s l) (tailed bs s l) x i v).1 tail in
        rw (retiled-enforce_from bs s l)
          ((Shows-enforce_from (length (closing bs s l) - 1) 0 (closing bs s l) x i v).1 closed),
  )
