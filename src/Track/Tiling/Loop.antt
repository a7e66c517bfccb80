-- ===== src/Track/Tiling/Loop.antt =====
-- One round of the tiling loop, and the whole loop: the chain grows, and content is only trimmed.
use thaum_painter.Base.{ℕ, ◌+◌, ◌-◌, ◌≤◌, ◌<◌, ◌≡◌, refl, ◌⊎◌, inl, inr, false, Option}
use thaum_painter.Base.{List, [], ◌∷◌, All, u32_max, arith, Bool-cases, leb, ltb}
use thaum_painter.Base.{add32, add32_fits, sub32_fits}
use thaum_painter.Base.Text.{Text}
use thaum_painter.Track.Block.{SharedDocumentPropertyBlock as Block, blank_block}
use thaum_painter.Track.Ids.{next_free_block_id}
use thaum_painter.Track.Retile.{push_tiled_block, Tiling, tile_block, tile_blocks}
use thaum_painter.Track.Tiling.{Chain, ApartFrom, Shows, FitsU32}
use thaum_painter.Track.Tiling.Push.{Chain-push, ApartFrom-push, Shows-push, push-Shows}

module _ {Value : Type 0} where
  pub record IsTiling (a : ℕ) (t : Tiling Value) : Type 0 where
    pub chain : Chain a t.cursor t.tiled
    pub apart : ApartFrom false t.tiled
    pub low : t.cursor ≤ u32_max

  -- The three branches of a round, with the wrap-around gone.
  abbrev pub gap_before : Tiling Value → Block Value → Block Value
  gap_before t b =
      blank_block (next_free_block_id t.used t.tiled) t.cursor (b.start_breath - t.cursor)

  abbrev pub trimmed_to : Tiling Value → Block Value → Block Value
  trimmed_to t b = record b {
    start_breath = t.cursor;
    length_breaths = b.start_breath + b.length_breaths - t.cursor;
  }

  pub data Round (t : Tiling Value) (b : Block Value) : Tiling Value → Type 0 where
    skipped : b.start_breath + b.length_breaths ≤ t.cursor → Round t b t
    gapped :
        t.cursor < b.start_breath
        → Round t b (record {
          used = next_free_block_id t.used t.tiled ∷ t.used;
          tiled = push_tiled_block (push_tiled_block t.tiled (gap_before t b)) b;
          cursor = b.start_breath + b.length_breaths;
        })
    pushed :
        b.start_breath ≤ t.cursor
        → t.cursor < b.start_breath + b.length_breaths
        → Round t b (record {
          used = t.used;
          tiled = push_tiled_block t.tiled (trimmed_to t b);
          cursor = b.start_breath + b.length_breaths;
        })

  pub tile_block-Round :
      (t : Tiling Value) (b : Block Value)
      → t.cursor ≤ u32_max
      → FitsU32 b
      → Round t b (tile_block t b)
  unfolding tile_block
  tile_block-Round t b low fits =
      let end = add32_fits b.start_breath b.length_breaths (omega arith) in
      elim (Bool-cases (leb (b.start_breath + b.length_breaths) t.cursor)) [
        | inl e ↦ rw (end, e) (skipped (ground arith))
        | inr e ↦ elim (Bool-cases (ltb t.cursor b.start_breath)) [
          | inl g ↦
              rw (end, e, g, sub32_fits b.start_breath t.cursor (ground arith) (omega arith))
                (gapped (ground arith))
          | inr g ↦
              let left =
                sub32_fits (b.start_breath + b.length_breaths) t.cursor (ground arith)
                  (omega arith) in
              let ends : add32 t.cursor (b.start_breath + b.length_breaths - t.cursor)
                  ≡ b.start_breath + b.length_breaths =
                ground
                  (arith, add32_fits t.cursor (b.start_breath + b.length_breaths - t.cursor)) in
              rw (end, e, g, left, ends) (pushed (ground arith) (ground arith))
        ]
      ]

  Round-IsTiling :
      {t : Tiling Value} {b : Block Value} {u : Tiling Value} {a : ℕ}
      → FitsU32 b
      → Round t b u
      → IsTiling a t
      → IsTiling a u
  Round-IsTiling fits (skipped h) i = i
  Round-IsTiling {t} {b} {a} fits (gapped h) i =
      let gap = gap_before t b in
      let first =
        Chain-push t.tiled gap a t.cursor b.start_breath i.chain refl (omega arith) (omega arith)
          (omega arith) in
      record {
        chain =
            Chain-push (push_tiled_block t.tiled gap) b a b.start_breath _ first refl fits.0 refl
              (omega arith);
        apart = ApartFrom-push _ b (ApartFrom-push t.tiled gap i.apart);
        low = fits.1;
      }
  Round-IsTiling {t} {b} {a} fits (pushed h k) i = record {
    chain =
        Chain-push t.tiled (trimmed_to t b) a t.cursor _ i.chain refl (omega arith) (omega arith)
          (omega arith);
    apart = ApartFrom-push t.tiled (trimmed_to t b) i.apart;
    low = fits.1;
  }

  Round-cursor :
      {t : Tiling Value} {b : Block Value} {u : Tiling Value}
      → Round t b u
      → (t.cursor ≤ u.cursor)
        × (b.start_breath + b.length_breaths ≤ u.cursor)
        × ((u.cursor ≡ t.cursor) ⊎ (u.cursor ≡ b.start_breath + b.length_breaths))
  Round-cursor (skipped h) = (omega arith, h, inl refl)
  Round-cursor (gapped h) = (omega arith, omega arith, inr refl)
  Round-cursor (pushed h k) = (omega arith, omega arith, inr refl)

  -- Content of the result was there before, or is the new bar's.
  Round-Shows :
      {t : Tiling Value} {b : Block Value} {u : Tiling Value} (x : ℕ) (i : Text) (v : Option Value)
      → Round t b u
      → Shows x i v u.tiled
      → Shows x i v t.tiled ⊎ Shows x i v (b ∷ [])
  Round-Shows x i v (skipped h) s = inl s
  Round-Shows {t} {b} x i v (gapped h) s = ground (
    arith,
    Shows-push (push_tiled_block t.tiled (gap_before t b)) b x i v s,
    Shows-push t.tiled (gap_before t b) x i v,
  )
  Round-Shows {t} {b} x i v (pushed h k) s =
      ground (arith, Shows-push t.tiled (trimmed_to t b) x i v s)

  -- A bar that starts at or behind the cursor keeps all of its content.
  Shows-Round :
      {t : Tiling Value} {b : Block Value} {u : Tiling Value} (x : ℕ) (i : Text) (v : Option Value)
      → t.cursor ≤ b.start_breath
      → Round t b u
      → Shows x i v t.tiled ⊎ Shows x i v (b ∷ [])
      → Shows x i v u.tiled
  Shows-Round x i v c (skipped h) (inl s) = s
  Shows-Round x i v c (skipped h) (inr s) = ground arith
  Shows-Round {t} {b} x i v c (gapped h) (inl s) =
      push-Shows _ b x i v (inl (push-Shows t.tiled (gap_before t b) x i v (inl s)))
  Shows-Round {t} {b} x i v c (gapped h) (inr s) = push-Shows _ b x i v (inr s)
  Shows-Round {t} {b} x i v c (pushed h k) (inl s) =
      push-Shows t.tiled (trimmed_to t b) x i v (inl s)
  Shows-Round {t} {b} x i v c (pushed h k) (inr s) =
      push-Shows t.tiled (trimmed_to t b) x i v (inr (ground arith))

  pub tile_blocks-IsTiling :
      (bs : List (Block Value)) (t : Tiling Value) (a : ℕ)
      → All FitsU32 bs
      → IsTiling a t
      → IsTiling a (tile_blocks t bs)
  unfolding tile_blocks
  tile_blocks-IsTiling [] t a fits i = i
  tile_blocks-IsTiling (b ∷ bs) t a fits i =
      tile_blocks-IsTiling bs (tile_block t b) a fits.1
        (Round-IsTiling fits.0 (tile_block-Round t b i.low fits.0) i)

  pub Shows-tile_blocks :
      (bs : List (Block Value)) (t : Tiling Value) (a x : ℕ) (i : Text) (v : Option Value)
      → All FitsU32 bs
      → IsTiling a t
      → Shows x i v (tile_blocks t bs).tiled
      → Shows x i v t.tiled ⊎ Shows x i v bs
  unfolding tile_blocks
  Shows-tile_blocks [] t a x i v fits p s = inl s
  Shows-tile_blocks (b ∷ bs) t a x i v fits p s =
      let r = tile_block-Round t b p.low fits.0 in
      ground (
        arith,
        Shows-tile_blocks bs (tile_block t b) a x i v fits.1 (Round-IsTiling fits.0 r p) s,
        Round-Shows x i v r,
      )

  -- The bars stand in order, and none starts in front of the end of the one before it.
  abbrev pub Ordered : ℕ → List (Block Value) → Type 0
  Ordered c [] = Unit
  Ordered c (b ∷ bs) = (c ≤ b.start_breath) × Ordered (b.start_breath + b.length_breaths) bs

  pub tile_blocks-Shows :
      (bs : List (Block Value)) (t : Tiling Value) (a x : ℕ) (i : Text) (v : Option Value)
      → All FitsU32 bs
      → Ordered t.cursor bs
      → IsTiling a t
      → Shows x i v t.tiled ⊎ Shows x i v bs
      → Shows x i v (tile_blocks t bs).tiled
  unfolding tile_blocks
  tile_blocks-Shows [] t a x i v fits o p s = ground arith
  tile_blocks-Shows (b ∷ bs) t a x i v fits o p s =
      let r = tile_block-Round t b p.low fits.0 in
      let cursor : b.start_breath + b.length_breaths ≡ (tile_block t b).cursor =
        ground (arith, Round-cursor r) in
      tile_blocks-Shows bs (tile_block t b) a x i v fits.1 (rw cursor at o.1)
        (Round-IsTiling fits.0 r p) (ground (arith, Shows-Round x i v o.0 r))
