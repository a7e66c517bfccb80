-- ===== src/Track/Tiling/Distinct.antt =====
-- Re-tiling keeps the ids of a track distinct.
use thaum_painter.Base.{ℕ, ◌≡◌, ◌≢◌, refl, sym, inl, inr, List, [], ◌∷◌, All}
use thaum_painter.Base.{arith, Bool-cases, leb, Option-cases, some, length, ◌+◌, ◌-◌}
use thaum_painter.Base.Text.{Text}
use thaum_painter.Track.Block.{SharedDocumentPropertyBlock as Block}
use thaum_painter.Track.Ids.{ids_of}
use thaum_painter.Track.Tiling.Clip.{insert_by_start-All, sort_by_start-All}
use thaum_painter.Track.Tiling.Edges.{enforce_block-Same}
use thaum_painter.Track.Tiling.Retiled.{
  clipped, begun, rows, tailed, closing, span_end_of, retiled-enforce_from,
}
use thaum_painter.Track.Retile.{clip_block, clip_blocks, insert_by_start, sort_by_start}
use thaum_painter.Track.Retile.{enforce_from}
use thaum_painter.Track.Retile.{retiled_property_track}
use thaum_painter.Track.Tiling.Names.{
  Avoids, Distinct, Used, All-imp, tile_blocks-IsNamed, tile_tail-IsNamed, trailing_blank-Distinct,
}

module _ {Value : Type 0} where
  -- The clip drops bars and keeps the ids of the others; the sort keeps all of them.
  clip_block-id :
      (s : ℕ) (b : Block Value) {c : Block Value} → clip_block s b ≡ some c → c.id ≡ b.id
  unfolding clip_block
  clip_block-id s b h = ground arith

  clip_blocks-All :
      (P : Text → Type 0) (s : ℕ) (bs : List (Block Value))
      → All (λ b. P b.id) bs
      → All (λ b. P b.id) (clip_blocks s bs)
  unfolding clip_blocks
  clip_blocks-All P s [] h = tt
  clip_blocks-All P s (b ∷ bs) h = elim (Option-cases (clip_block s b)) [
    | inl gone ↦ rw (gone, clip_blocks) (clip_blocks-All P s bs h.1)
    | inr (c, kept) ↦
        rw (kept, clip_blocks) (rw (clip_block-id s b kept) h.0, clip_blocks-All P s bs h.1)
  ]

  clip_blocks-Distinct :
      (s : ℕ) (bs : List (Block Value)) → Distinct bs → Distinct (clip_blocks s bs)
  unfolding clip_blocks
  clip_blocks-Distinct s [] h = tt
  clip_blocks-Distinct s (b ∷ bs) h = elim (Option-cases (clip_block s b)) [
    | inl gone ↦ rw (gone, clip_blocks) (clip_blocks-Distinct s bs h.1)
    | inr (c, kept) ↦
        rw (kept, clip_blocks)
          (
            rw (clip_block-id s b kept) (clip_blocks-All (λ i. b.id ≢ i) s bs h.0),
            clip_blocks-Distinct s bs h.1,
          )
  ]

  insert_by_start-Distinct :
      (b : Block Value) (bs : List (Block Value))
      → Avoids b.id bs
      → Distinct bs
      → Distinct (insert_by_start b bs)
  unfolding insert_by_start
  insert_by_start-Distinct b [] h d = (tt, tt)
  insert_by_start-Distinct b (c ∷ cs) h d = elim (Bool-cases (leb b.start_breath c.start_breath)) [
    | inl e ↦ rw (e, insert_by_start) (h, d)
    | inr e ↦
        rw (e, insert_by_start)
          (
            insert_by_start-All (λ x. c.id ≢ x.id) b cs (λ e. h.0 (sym e)) d.0,
            insert_by_start-Distinct b cs h.1 d.1,
          )
  ]

  sort_by_start-Distinct : (bs : List (Block Value)) → Distinct bs → Distinct (sort_by_start bs)
  unfolding sort_by_start
  sort_by_start-Distinct [] h = tt
  sort_by_start-Distinct (b ∷ bs) h =
      insert_by_start-Distinct b (sort_by_start bs) (sort_by_start-All (λ x. b.id ≢ x.id) bs h.0)
        (sort_by_start-Distinct bs h.1)

  ids_of-Used : (bs : List (Block Value)) → Used (ids_of bs) bs
  unfolding ids_of
  ids_of-Used [] = tt
  ids_of-Used (b ∷ bs) = (inl refl, All-imp _ _ bs (λ c m. inr m) (ids_of-Used bs))

  enforce_from-All :
      (P : Text → Type 0) (last index : ℕ) (bs : List (Block Value))
      → All (λ b. P b.id) bs
      → All (λ b. P b.id) (enforce_from last index bs)
  unfolding enforce_from
  enforce_from-All P last index [] h = tt
  enforce_from-All P last index (b ∷ bs) h =
      (rw (enforce_block-Same last index b).3 h.0, enforce_from-All P last (index + 1) bs h.1)

  enforce_from-Distinct :
      (last index : ℕ) (bs : List (Block Value))
      → Distinct bs
      → Distinct (enforce_from last index bs)
  unfolding enforce_from
  enforce_from-Distinct last index [] h = tt
  enforce_from-Distinct last index (b ∷ bs) h = (
    rw (enforce_block-Same last index b).3
        (enforce_from-All (λ i. b.id ≢ i) last (index + 1) bs h.0),
    enforce_from-Distinct last (index + 1) bs h.1,
  )

  -- Re-tiling a track whose ids are distinct leaves them distinct, the ids of the minted blanks
  -- included, whatever the bars' breaths and the span are.
  pub retiled_property_track-Distinct :
      (bs : List (Block Value)) (s l : ℕ) → Distinct bs → Distinct (retiled_property_track bs s l)
  retiled_property_track-Distinct bs s l d =
      let sorted = sort_by_start-Distinct (clip_blocks s bs) (clip_blocks-Distinct s bs d) in
      let ran = tile_blocks-IsNamed (clipped bs s l) (begun bs s l) (record {
        placed = tt;
        waiting = sorted;
        across = tt;
        known = tt;
        coming = ids_of-Used _;
      }) in
      let tail = tile_tail-IsNamed (span_end_of bs s l) (rows bs s l) ran in
      rw (retiled-enforce_from bs s l) (
        enforce_from-Distinct (length (closing bs s l) - 1) 0 (closing bs s l)
          (trailing_blank-Distinct (span_end_of bs s l) (tailed bs s l) tail))
