-- ===== src/Track/Tiling/Clip.antt =====
-- The clip at the left end of the span and the sort: what reaches the tiling loop.
use thaum_painter.Base.{ℕ, ◌+◌, ◌-◌, max, ◌≤◌, ◌≡◌, ◌⊎◌, inl, inr, Option}
use thaum_painter.Base.{none, some, List, [], ◌∷◌, All, arith, Bool-cases, leb}
use thaum_painter.Base.{add32_fits, sub32_fits, if◌then◌else◌}
use thaum_painter.Base.Text.{Text}
use thaum_painter.Track.Block.{SharedDocumentPropertyBlock as Block}
use thaum_painter.Track.Retile.{clip_block, clip_blocks, insert_by_start, sort_by_start}
use thaum_painter.Track.Tiling.{Shows, FitsU32}
use thaum_painter.Track.Tiling.Loop.{Ordered}

module _ {Value : Type 0} where
  abbrev pub Beside : Block Value → Block Value → Type 0
  Beside b c =
      (b.start_breath + b.length_breaths ≤ c.start_breath)
      ⊎ (c.start_breath + c.length_breaths ≤ b.start_breath)

  -- No two bars cover a breath in common.
  abbrev pub Disjoint : List (Block Value) → Type 0
  Disjoint [] = Unit
  Disjoint (b ∷ bs) = All (Beside b) bs × Disjoint bs

  -- The two results of the clip, with the wrap-around gone.
  abbrev pub clipped_to : ℕ → Block Value → Block Value
  clipped_to s b = record b {
    start_breath = max b.start_breath s;
    length_breaths = b.start_breath + b.length_breaths - max b.start_breath s;
  }

  -- The clip, with the wrap-around gone.
  pub clip_block_lem :
      (s : ℕ) (b : Block Value)
      → FitsU32 b
      → clip_block s b
        ≡ (if leb (b.start_breath + b.length_breaths) s then none else some (clipped_to s b))
  unfolding clip_block
  clip_block_lem s b fits =
      let len : max b.length_breaths 1 ≡ b.length_breaths = omega arith in
      rw (len, add32_fits b.start_breath b.length_breaths (omega arith))
        (ground (
          arith,
          sub32_fits (max b.start_breath s) b.start_breath,
          sub32_fits b.length_breaths (max b.start_breath s - b.start_breath),
        ))

  -- What is left of a list of bars is within the span.
  abbrev pub Within : ℕ → Block Value → Type 0
  Within s b = FitsU32 b × (s ≤ b.start_breath)

  pub clip_blocks-Within :
      (s : ℕ) (bs : List (Block Value)) → All FitsU32 bs → All (Within s) (clip_blocks s bs)
  unfolding clip_blocks
  clip_blocks-Within s [] h = tt
  clip_blocks-Within s (b ∷ bs) h = elim (Bool-cases (leb (b.start_breath + b.length_breaths) s)) [
    | inl e ↦ rw (clip_block_lem s b h.0, e, clip_blocks) (clip_blocks-Within s bs h.1)
    | inr e ↦
        rw (clip_block_lem s b h.0, e, clip_blocks) (ground arith, clip_blocks-Within s bs h.1)
  ]

  pub Shows-clip_blocks :
      (s : ℕ) (bs : List (Block Value)) (x : ℕ) (i : Text) (v : Option Value)
      → All FitsU32 bs
      → Shows x i v (clip_blocks s bs)
      → Shows x i v bs
  unfolding clip_blocks
  Shows-clip_blocks s [] x i v h k = k
  Shows-clip_blocks s (b ∷ bs) x i v h k =
      ground (arith, clip_block_lem s b h.0, Shows-clip_blocks s bs x i v h.1)

  pub clip_blocks-Shows :
      (s : ℕ) (bs : List (Block Value)) (x : ℕ) (i : Text) (v : Option Value)
      → All FitsU32 bs
      → s ≤ x
      → Shows x i v bs
      → Shows x i v (clip_blocks s bs)
  unfolding clip_blocks
  clip_blocks-Shows s [] x i v h l k = k
  clip_blocks-Shows s (b ∷ bs) x i v h l k =
      ground (arith, clip_block_lem s b h.0, clip_blocks-Shows s bs x i v h.1)

  clip_blocks-Beside :
      (s : ℕ) (b c : Block Value) (bs : List (Block Value))
      → All FitsU32 bs
      → b.start_breath ≤ c.start_breath
      → c.start_breath + c.length_breaths ≡ b.start_breath + b.length_breaths
      → s ≤ c.start_breath
      → All (Beside b) bs
      → All (Beside c) (clip_blocks s bs)
  unfolding clip_blocks
  clip_blocks-Beside s b c [] f l e k h = tt
  clip_blocks-Beside s b c (d ∷ bs) f l e k h =
      ground (arith, clip_block_lem s d f.0, clip_blocks-Beside s b c bs f.1 l e k h.1)

  pub clip_blocks-Disjoint :
      (s : ℕ) (bs : List (Block Value)) → All FitsU32 bs → Disjoint bs → Disjoint (clip_blocks s bs)
  unfolding clip_blocks
  clip_blocks-Disjoint s [] f h = tt
  clip_blocks-Disjoint s (b ∷ bs) f h =
      elim (Bool-cases (leb (b.start_breath + b.length_breaths) s)) [
        | inl e ↦ rw (clip_block_lem s b f.0, e, clip_blocks) (clip_blocks-Disjoint s bs f.1 h.1)
        | inr e ↦
            rw (clip_block_lem s b f.0, e, clip_blocks)
              (
                clip_blocks-Beside s b (clipped_to s b) bs f.1 (omega arith) (ground arith)
                    (omega arith) h.0,
                clip_blocks-Disjoint s bs f.1 h.1,
              )
      ]

  -- The sort keeps every bar, and puts disjoint bars in order.
  pub insert_by_start-All :
      (P : Block Value → Type 0) (b : Block Value) (bs : List (Block Value))
      → P b
      → All P bs
      → All P (insert_by_start b bs)
  unfolding insert_by_start
  insert_by_start-All P b [] p h = (p, tt)
  insert_by_start-All P b (c ∷ cs) p h = elim (Bool-cases (leb b.start_breath c.start_breath)) [
    | inl e ↦ rw e (p, h)
    | inr e ↦ rw e (h.0, insert_by_start-All P b cs p h.1)
  ]

  pub sort_by_start-All :
      (P : Block Value → Type 0) (bs : List (Block Value)) → All P bs → All P (sort_by_start bs)
  unfolding sort_by_start
  sort_by_start-All P [] h = tt
  sort_by_start-All P (b ∷ bs) h =
      insert_by_start-All P b (sort_by_start bs) h.0 (sort_by_start-All P bs h.1)

  Shows-insert_by_start :
      (b : Block Value) (bs : List (Block Value)) (x : ℕ) (i : Text) (v : Option Value)
      → (Shows x i v (insert_by_start b bs) → Shows x i v (b ∷ bs))
        × (Shows x i v (b ∷ bs) → Shows x i v (insert_by_start b bs))
  unfolding insert_by_start
  Shows-insert_by_start b [] x i v = (λ h. h, λ h. h)
  Shows-insert_by_start b (c ∷ cs) x i v =
      let ih = Shows-insert_by_start b cs x i v in
      elim (Bool-cases (leb b.start_breath c.start_breath)) [
        | inl e ↦ rw (e, insert_by_start) (λ h. h, λ h. h)
        | inr e ↦ rw (e, insert_by_start) (λ h. ground (arith, ih.0), λ h. ground (arith, ih.1))
      ]

  pub Shows-sort_by_start :
      (bs : List (Block Value)) (x : ℕ) (i : Text) (v : Option Value)
      → (Shows x i v (sort_by_start bs) → Shows x i v bs)
        × (Shows x i v bs → Shows x i v (sort_by_start bs))
  unfolding sort_by_start
  Shows-sort_by_start [] x i v = (λ h. h, λ h. h)
  Shows-sort_by_start (b ∷ bs) x i v =
      let ih = Shows-sort_by_start bs x i v in
      let ins = Shows-insert_by_start b (sort_by_start bs) x i v in
      (λ h. ground (arith, ins.0 h, ih.0), λ h. ins.1 (ground (arith, ih.1)))

  insert_by_start-Ordered :
      (b : Block Value) (bs : List (Block Value)) (c : ℕ)
      → 1 ≤ b.length_breaths
      → All (λ d. 1 ≤ d.length_breaths) bs
      → All (Beside b) bs
      → c ≤ b.start_breath
      → Ordered c bs
      → Ordered c (insert_by_start b bs)
  unfolding insert_by_start
  insert_by_start-Ordered b [] c l ls h k o = (k, tt)
  insert_by_start-Ordered b (d ∷ ds) c l ls h k o =
      elim (Bool-cases (leb b.start_breath d.start_breath)) [
        | inl e ↦ rw (e, insert_by_start) (k, (ground arith, o.1))
        | inr e ↦
            rw (e, insert_by_start)
              (o.0, insert_by_start-Ordered b ds _ l ls.1 h.1 (ground arith) o.1)
      ]

  pub sort_by_start-Ordered :
      (bs : List (Block Value)) (s : ℕ)
      → All (Within s) bs
      → Disjoint bs
      → Ordered s (sort_by_start bs)
  unfolding sort_by_start
  sort_by_start-Ordered [] s h d = tt
  sort_by_start-Ordered (b ∷ bs) s h d =
      insert_by_start-Ordered b (sort_by_start bs) s h.0.0.0 (sort_by_start-All _ bs (long bs h.1))
        (sort_by_start-All (Beside b) bs d.0) h.0.1 (sort_by_start-Ordered bs s h.1 d.1)
    where
      long : (cs : List (Block Value)) → All (Within s) cs → All (λ d. 1 ≤ d.length_breaths) cs
      long [] h = tt
      long (c ∷ cs) h = (h.0.0.0, long cs h.1)
