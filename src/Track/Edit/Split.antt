-- ===== src/Track/Edit/Split.antt =====
-- What splitting a bar does to a track (domain/file/storage/storage.rs, `split_property_block`).
use thaum_painter.Base.{
  ℕ, zero, suc, ◌<◌, ◌≡◌, ◌↔◌, inl, inr, true, false, Option, some, List, [], ◌∷◌, get_elem?,
  length, arith, sub32, All, u32_max, Bool-cases, Option-cases, refl, ap,
}
use thaum_painter.Base.Text.{Text, contains}
use thaum_painter.Track.Block.{SharedDocumentPropertyBlock as Block}
use thaum_painter.Track.Ids.{ids_of, next_property_block_id}
use thaum_painter.Track.Ids.Fresh.{contains-next_id}
use thaum_painter.Track.Edit.{modify, with_span, can_split, split_at, split_blocks, position}
use thaum_painter.Track.Tiling.{Chain, ApartFrom, EndsBlank, FitsU32}
use thaum_painter.Track.Edit.Halves.{
  Paints, Paints-halved, halved-Chain, halved-ApartFrom, halved-EndsBlank,
}

module _ {Value : Type 0} where
  get_elem-position :
      (block_id : Text) (i : ℕ) (bs : List (Block Value)) (b : Block Value)
      → All FitsU32 bs
      → get_elem? bs i ≡ some b
      → FitsU32 b
  get_elem-position block_id i [] b f h = absurd (ground arith)
  get_elem-position block_id zero (c ∷ bs) b f h = let e : c ≡ b = cc h in rw (← e) f.0
  get_elem-position block_id (suc i) (c ∷ bs) b f h = get_elem-position block_id i bs b f.1 h

  ids_of-modify :
      (i start length : ℕ) (bs : List (Block Value))
      → ids_of (modify i (with_span start length) bs) ≡ ids_of bs
  unfolding ids_of modify
  ids_of-modify i start length [] = refl
  ids_of-modify zero start length (b ∷ bs) = refl
  ids_of-modify (suc i) start length (b ∷ bs) =
      ap (λ ts. b.id ∷ ts) (ids_of-modify i start length bs)

  -- The bar that a split halves, with what holds of it.
  record Halves (block_id : Text) (n : ℕ) (bs : List (Block Value))
      (out : List (Block Value) × Text) : Type 0 where
    index : ℕ
    block : Block Value
    found : get_elem? bs index ≡ some block
    can : can_split block n ≡ true
    result : out ≡ split_at index block n bs

  split_blocks-Halves :
      (block_id : Text) (n : ℕ) (bs : List (Block Value)) (out : List (Block Value) × Text)
      → split_blocks block_id n bs ≡ some out
      → Halves block_id n bs out
  unfolding split_blocks
  split_blocks-Halves block_id n bs out h = elim (Option-cases (position block_id bs)) [
    | inl e ↦ absurd (ground (arith, (rw (split_blocks, e) at h)))
    | inr i ↦
        let h1 = rw (split_blocks, i.1) at h in
        elim (Option-cases (get_elem? bs i.0)) [
          | inl e ↦ absurd (ground (arith, (rw e at h1)))
          | inr b ↦
              let h2 = rw b.1 at h1 in
              elim (Bool-cases (can_split b.0 n)) [
                | inl c ↦
                    let h3 = rw c at h2 in
                    record { index = i.0; block = b.0; found = b.1; can = c; result = cc h3 }
                | inr c ↦ absurd (ground (arith, (rw c at h2)))
              ]
        ]
  ]

  module _ (block_id : Text) (n : ℕ) (bs : List (Block Value)) (out : List (Block Value) × Text)
      (fits : All FitsU32 bs) (done : split_blocks block_id n bs ≡ some out) where
    halves : Halves block_id n bs out
    halves = split_blocks-Halves block_id n bs out done

    -- Splitting a bar leaves the content of every breath as it was.
    pub split_blocks-Paints : (x : ℕ) (v : Option Value) → Paints x v out.0 ↔ Paints x v bs
    unfolding split_at
    split_blocks-Paints x v =
        let h = halves in
        let f = get_elem-position block_id h.index bs h.block fits h.found in
        rw h.result
          (Paints-halved h.block n f h.can h.index (split_at h.index h.block n bs).1 x v bs h.found)

    -- Splitting a bar of a tiling leaves bars that lie end to end over the same breaths, with no two
    -- blanks side by side and a blank at the end.
    pub split_blocks-tiles :
        (s e : ℕ)
        → Chain s e bs × ApartFrom false bs × EndsBlank bs
        → Chain s e out.0 × ApartFrom false out.0 × EndsBlank out.0
    unfolding split_at
    split_blocks-tiles s e t =
        let h = halves in
        let f = get_elem-position block_id h.index bs h.block fits h.found in
        rw h.result (
          halved-Chain h.block n f h.can h.index (split_at h.index h.block n bs).1 s e bs h.found
              t.0,
          halved-ApartFrom h.block n f h.can h.index (split_at h.index h.block n bs).1 false bs
              h.found t.1,
          halved-EndsBlank h.block n f h.can h.index (split_at h.index h.block n bs).1 bs h.found
              t.2,
        )

    -- The id of the new half is the id of no bar of the track.
    pub split_blocks-fresh : length (ids_of bs) < u32_max → contains (ids_of bs) out.1 ≡ false
    unfolding split_at next_property_block_id
    split_blocks-fresh few =
        let h = halves in
        rw (h.result, ids_of-modify h.index h.block.start_breath (sub32 n h.block.start_breath) bs)
          (contains-next_id (ids_of bs) few)
