-- ===== src/Track/Tiling/Stable.antt =====
-- Re-tiling a track that is tiled already changes nothing.
use thaum_painter.Base.{ℕ, ◌+◌, ◌-◌, max, ◌≤◌, ◌≡◌, refl, ap, ◌∙◌, inl, inr, Bool, true, false}
use thaum_painter.Base.{List, [], ◌∷◌, ◌++◌, All, u32_max, arith, saturating_add, length, leb, ltb}
use thaum_painter.Base.{some}
use thaum_painter.Base.{Option-cases}
use mathlib.Core.List.{append_assoc, append-nil}
use thaum_painter.Base.Text.{Text, text_eq_iff}
use thaum_painter.Track.Block.{SharedDocumentPropertyBlock as Block}
use thaum_painter.Track.Ids.{ids_of}
use thaum_painter.Track.Mode.{resolve_mode, loop_out, loop_in}
use thaum_painter.Track.Retile.{clip_blocks, insert_by_start, sort_by_start, Tiling}
use thaum_painter.Track.Retile.{tile_blocks, tile_tail, trailing_blank, enforce_block, enforce_from}
use thaum_painter.Track.Retile.{retiled_property_track, push_tiled_block, last?}
use thaum_painter.Track.Tiling.{
  Chain, ApartFrom, EndsBlank, HasEdgeMode, EdgesFrom, FitsU32, IsTiled,
}
use thaum_painter.Track.Tiling.Push.{Chain-le}
use thaum_painter.Track.Tiling.Retiled.{clipped, rows, closing, span_end_of, retiled-enforce_from}
use thaum_painter.Track.Tiling.Loop.{Round, skipped, gapped, pushed, tile_block-Round, trimmed_to}
use thaum_painter.Track.Tiling.Clip.{clip_block_lem, clipped_to}

module _ {Value : Type 0} where
  pub Chain-FitsU32 :
      (bs : List (Block Value)) (a c : ℕ) → Chain a c bs → c ≤ u32_max → All FitsU32 bs
  Chain-FitsU32 [] a c h k = tt
  Chain-FitsU32 (b ∷ bs) a c h k =
      let rest = Chain-le bs _ c h.2 in ((h.1, omega arith), Chain-FitsU32 bs _ c h.2 k)

  clip_blocks_id :
      (s : ℕ) (bs : List (Block Value)) (a c : ℕ)
      → Chain a c bs
      → c ≤ u32_max
      → s ≤ a
      → clip_blocks s bs ≡ bs
  unfolding clip_blocks
  clip_blocks_id s [] a c h k l = refl
  clip_blocks_id s (b ∷ bs) a c h k l =
      let rest = Chain-le bs _ c h.2 in
      let inside : leb (b.start_breath + b.length_breaths) s ≡ false = ground arith in
      let same : clipped_to s b ≡ b = ground arith in
      rw (clip_block_lem s b (h.1, omega arith), inside, clip_blocks)
        (rw (same, clip_blocks_id s bs _ c h.2 k (omega arith)))

  sort_by_start_id : (bs : List (Block Value)) (a c : ℕ) → Chain a c bs → sort_by_start bs ≡ bs
  unfolding sort_by_start
  sort_by_start_id [] a c h = refl
  sort_by_start_id (b ∷ []) a c h = refl
  sort_by_start_id (b ∷ d ∷ bs) a c h =
      let least : leb b.start_breath d.start_breath ≡ true = ground arith in
      rw (sort_by_start_id (d ∷ bs) _ c h.2, insert_by_start) (rw least)

  push_tiled_block_apart :
      (bs : List (Block Value)) (b : Block Value) (before : Bool)
      → ApartFrom before (bs ++ b ∷ [])
      → push_tiled_block bs b ≡ bs ++ b ∷ []
  unfolding push_tiled_block
  push_tiled_block_apart [] b before h = refl
  push_tiled_block_apart (x ∷ []) b before h = rw h.1.0
  push_tiled_block_apart (x ∷ y ∷ r) b before h =
      ap (λ t. x ∷ t) (push_tiled_block_apart (y ∷ r) b x.is_blank h.1)

  ApartFrom-prefix :
      (xs ys : List (Block Value)) (before : Bool)
      → ApartFrom before (xs ++ ys)
      → ApartFrom before xs
  ApartFrom-prefix [] ys before h = tt
  ApartFrom-prefix (x ∷ xs) ys before h = (h.0, ApartFrom-prefix xs ys x.is_blank h.1)

  -- A round whose bar starts at the cursor appends that bar.
  Round-exact :
      {t : Tiling Value} {b : Block Value} {u : Tiling Value}
      → Round t b u
      → b.start_breath ≡ t.cursor
      → 1 ≤ b.length_breaths
      → ApartFrom false (t.tiled ++ b ∷ [])
      → u ≡ record {
        used = t.used;
        tiled = t.tiled ++ b ∷ [];
        cursor = b.start_breath + b.length_breaths;
      }
  Round-exact (skipped h) e l k = absurd (omega arith)
  Round-exact (gapped h) e l k = absurd (omega arith)
  Round-exact {t} {b} (pushed h m) e l k =
      let same : trimmed_to t b ≡ b = ground arith in
      rw same (rw (push_tiled_block_apart t.tiled b false k))

  tile_blocks_id :
      (bs done : List (Block Value)) (used : List Text) (a c : ℕ)
      → Chain a c bs
      → c ≤ u32_max
      → ApartFrom false (done ++ bs)
      → tile_blocks (record { used = used; tiled = done; cursor = a }) bs
        ≡ record { used = used; tiled = done ++ bs; cursor = c }
  unfolding tile_blocks
  tile_blocks_id [] done used a c h k p = rw (append-nil, h)
  tile_blocks_id (b ∷ bs) done used a c h k p =
      let begun : Tiling Value = record { used = used; tiled = done; cursor = a } in
      let rest = Chain-le bs _ c h.2 in
      let regroup : (done ++ b ∷ []) ++ bs ≡ done ++ b ∷ bs = append_assoc done (b ∷ []) bs in
      let apart = ApartFrom-prefix (done ++ b ∷ []) bs false (rw regroup p) in
      let round =
        Round-exact (tile_block-Round begun b (omega arith) (h.1, omega arith)) h.0 h.1 apart in
      rw (round, tile_blocks)
        (tile_blocks_id bs (done ++ b ∷ []) used _ c h.2 k (rw regroup p) ∙ rw regroup)

  trailing_blank_id :
      (span_end : ℕ) (t : Tiling Value) → EndsBlank t.tiled → trailing_blank span_end t ≡ t.tiled
  unfolding trailing_blank
  trailing_blank_id e t h = elim (Option-cases (last? t.tiled)) [
    | inl nothing ↦ rw (nothing, trailing_blank)
    | inr (last, found) ↦ rw (found, blank t.tiled last h found, trailing_blank)
  ]
    where
      blank :
          (bs : List (Block Value)) (last : Block Value)
          → EndsBlank bs
          → last? bs ≡ some last
          → last.is_blank ≡ true
      blank [] last h e = cc
      blank (x ∷ []) last h e = ground arith
      blank (x ∷ y ∷ bs) last h e = blank (y ∷ bs) last h e

  enforce_block_id :
      (last index : ℕ) (b : Block Value) → HasEdgeMode last index b → enforce_block last index b ≡ b
  unfolding enforce_block
  enforce_block_id last index b h =
      let mode = resolve_mode b.interpretation in
      ground (arith, text_eq_iff mode loop_out, text_eq_iff mode loop_in)

  enforce_from_id :
      (last index : ℕ) (bs : List (Block Value))
      → EdgesFrom last index bs
      → enforce_from last index bs ≡ bs
  unfolding enforce_from
  enforce_from_id last index [] h = refl
  enforce_from_id last index (b ∷ bs) h =
      rw (enforce_block_id last index b h.0, enforce_from_id last (index + 1) bs h.1)

  tile_tail_id : (span_end : ℕ) (t : Tiling Value) → span_end ≤ t.cursor → tile_tail span_end t ≡ t
  unfolding tile_tail
  tile_tail_id e t h = let past : ltb t.cursor e ≡ false = ground arith in rw past

  -- A track that is tiled over the span already, its stored end within `u32`, is a fixed point of
  -- the re-tiling: ids, contents, modes and breaths all stay.
  pub retiled_property_track_id :
      (bs : List (Block Value)) (s l end : ℕ)
      → IsTiled s end bs
      → end ≤ u32_max
      → saturating_add s (max l 1) ≤ end
      → retiled_property_track bs s l ≡ bs
  retiled_property_track_id bs s l end t low covers =
      rw (retiled-enforce_from bs s l) (rw closed (enforce_from_id (length bs - 1) 0 bs t.edges))
    where
      cut : clipped bs s l ≡ bs
      cut =
          rw (clip_blocks_id s bs s end t.chain low (omega arith))
            (sort_by_start_id bs s end t.chain)

      done : Tiling Value
      done = record { used = ids_of bs; tiled = bs; cursor = end }

      ran : rows bs s l ≡ done
      ran = rw cut (tile_blocks_id bs [] (ids_of bs) s end t.chain low t.apart)

      closed : closing bs s l ≡ bs
      closed = rw ran (
          rw (tile_tail_id (span_end_of bs s l) done covers)
            (trailing_blank_id (span_end_of bs s l) done t.trailing))
