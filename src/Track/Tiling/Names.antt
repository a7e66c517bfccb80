-- ===== src/Track/Tiling/Names.antt =====
-- The ids of the bars through the tiling loop: those placed, those to place and those minted.
use thaum_painter.Base.{ℕ, ◌≡◌, ◌≢◌, refl, sym, inl, inr, false, List, [], ◌∷◌, ◌++◌, All}
use thaum_painter.Base.{add32, sub32, ◌∈◌, arith, Bool-cases, leb, ltb, Option-cases, ◌&&◌}
use thaum_painter.Base.Text.{Text, codes, contains, contains_iff}
use thaum_painter.Track.Block.{SharedDocumentPropertyBlock as Block, blank_block}
use thaum_painter.Track.Ids.{next_free_block_id}
use thaum_painter.Track.Ids.Fresh.{contains-next_free_block_id}
use thaum_painter.Track.Retile.{Tiling, tile_block}
use thaum_painter.Track.Retile.{tile_blocks, tile_tail, trailing_blank}
use thaum_painter.Track.Retile.{push_tiled_block, last?}

-- An id that is not used differs from every id that is.
fresh_ne : (used : List Text) (s i : Text) → contains used s ≡ false → i ∈ used → i ≢ s
fresh_ne used s i h m e = ground (arith, (contains_iff used i).1 m)

module _ {Value : Type 0} where
  -- No bar has the id `i`; the ids of the bars are distinct; they are among the used ones.
  abbrev pub Avoids : Text → List (Block Value) → Type 0
  Avoids i bs = All (λ b. i ≢ b.id) bs

  abbrev pub Distinct : List (Block Value) → Type 0
  Distinct [] = Unit
  Distinct (b ∷ bs) = Avoids b.id bs × Distinct bs

  abbrev pub Used : List Text → List (Block Value) → Type 0
  Used used bs = All (λ b. b.id ∈ used) bs

  push-All :
      (P : Text → Type 0) (bs : List (Block Value)) (b : Block Value)
      → All (λ c. P c.id) bs
      → P b.id
      → All (λ c. P c.id) (push_tiled_block bs b)
  unfolding push_tiled_block
  push-All P [] b h p = (p, tt)
  push-All P (x ∷ []) b h p = elim (Bool-cases (x.is_blank && b.is_blank)) [
    | inl e ↦ rw e h
    | inr e ↦ rw e (h.0, (p, tt))
  ]
  push-All P (x ∷ y ∷ r) b h p = (h.0, push-All P (y ∷ r) b h.1 p)

  push-Distinct :
      (bs : List (Block Value)) (b : Block Value)
      → Distinct bs
      → All (λ c. c.id ≢ b.id) bs
      → Distinct (push_tiled_block bs b)
  unfolding push_tiled_block
  push-Distinct [] b d h = (tt, tt)
  push-Distinct (x ∷ []) b d h = elim (Bool-cases (x.is_blank && b.is_blank)) [
    | inl e ↦ rw e (tt, tt)
    | inr e ↦ rw e ((h.0, tt), (tt, tt))
  ]
  push-Distinct (x ∷ y ∷ r) b d h =
      (push-All (λ i. x.id ≢ i) (y ∷ r) b d.0 h.0, push-Distinct (y ∷ r) b d.1 h.1)

  pub All-imp :
      (P Q : Block Value → Type 0) (bs : List (Block Value))
      → ((b : Block Value) → P b → Q b)
      → All P bs
      → All Q bs
  All-imp P Q [] f h = tt
  All-imp P Q (b ∷ bs) f h = (f b h.0, All-imp P Q bs f h.1)

  Used-Avoids :
      (used : List Text) (s : Text) (bs : List (Block Value))
      → contains used s ≡ false
      → Used used bs
      → All (λ c. c.id ≢ s) bs × Avoids s bs
  Used-Avoids used s bs h u = (
    All-imp _ _ bs (λ c m. fresh_ne used s c.id h m) u,
    All-imp _ _ bs (λ c m e. fresh_ne used s c.id h m (sym e)) u,
  )

  -- The ids of the bars placed so far and of those still to place.
  pub record IsNamed (t : Tiling Value) (rest : List (Block Value)) : Type 0 where
    pub placed : Distinct t.tiled
    pub waiting : Distinct rest
    pub across : All (λ c. Avoids c.id rest) t.tiled
    pub known : Used t.used t.tiled
    pub coming : Used t.used rest

  IsNamed-push :
      (t : Tiling Value) (b : Block Value) (rest : List (Block Value)) (n : ℕ)
      → IsNamed t (b ∷ rest)
      → IsNamed (record { used = t.used; tiled = push_tiled_block t.tiled b; cursor = n }) rest
  IsNamed-push t b rest n i = record {
    placed = push-Distinct t.tiled b i.placed (All-imp _ _ t.tiled (λ c h. h.0) i.across);
    waiting = i.waiting.1;
    across =
        push-All (λ s. Avoids s rest) t.tiled b (All-imp _ _ t.tiled (λ c h. h.1) i.across)
          i.waiting.0;
    known = push-All (λ s. s ∈ t.used) t.tiled b i.known i.coming.0;
    coming = i.coming.1;
  }

  -- A minted blank joins the bars to place.
  IsNamed-mint :
      (t : Tiling Value) (s : Text) (start len : ℕ) (rest : List (Block Value))
      → contains t.used s ≡ false
      → IsNamed t rest
      → IsNamed
          (record { used = s ∷ t.used; tiled = t.tiled; cursor = t.cursor })
          (blank_block s start len ∷ rest)
  IsNamed-mint t s start len rest fresh i =
      let placed = Used-Avoids t.used s t.tiled fresh i.known in
      let coming = Used-Avoids t.used s rest fresh i.coming in
      record {
        placed = i.placed;
        waiting = (coming.1, i.waiting);
        across = both t.tiled placed.0 i.across;
        known = All-imp _ _ t.tiled (λ c m. inr m) i.known;
        coming = (inl refl, All-imp _ _ rest (λ c m. inr m) i.coming);
      }
    where
      both :
          (bs : List (Block Value))
          → All (λ c. c.id ≢ s) bs
          → All (λ c. Avoids c.id rest) bs
          → All (λ c. Avoids c.id (blank_block s start len ∷ rest)) bs
      both [] h k = tt
      both (c ∷ cs) h k = ((h.0, k.0), both cs h.1 k.1)

  tile_block-IsNamed :
      (t : Tiling Value) (b : Block Value) (rest : List (Block Value))
      → IsNamed t (b ∷ rest)
      → IsNamed (tile_block t b) rest
  unfolding tile_block
  tile_block-IsNamed t b rest i =
      elim (Bool-cases (leb (add32 b.start_breath b.length_breaths) t.cursor)) [
        | inl covered ↦ rw covered (record {
          placed = i.placed;
          waiting = i.waiting.1;
          across = All-imp _ _ t.tiled (λ c h. h.1) i.across;
          known = i.known;
          coming = i.coming.1;
        })
        | inr open_end ↦ elim (Bool-cases (ltb t.cursor b.start_breath)) [
          | inl gap ↦
              let s = next_free_block_id t.used t.tiled in
              let fresh = contains-next_free_block_id t.used t.tiled in
              let len = sub32 b.start_breath t.cursor in
              let minted = IsNamed-mint t s t.cursor len (b ∷ rest) fresh i in
              let u : Tiling Value = record {
                used = s ∷ t.used;
                tiled = t.tiled;
                cursor = t.cursor;
              } in
              let v : Tiling Value = record {
                used = s ∷ t.used;
                tiled = push_tiled_block t.tiled (blank_block s t.cursor len);
                cursor = t.cursor;
              } in
              rw (open_end, gap)
                (IsNamed-push v b rest _
                  (IsNamed-push u (blank_block s t.cursor len) (b ∷ rest) t.cursor minted))
          | inr no_gap ↦
              let end = add32 b.start_breath b.length_breaths in
              rw (open_end, no_gap)
                (IsNamed-push t
                  (record b { start_breath = t.cursor; length_breaths = sub32 end t.cursor }) rest _
                  (record {
                    placed = i.placed;
                    waiting = i.waiting;
                    across = i.across;
                    known = i.known;
                    coming = i.coming;
                  }))
        ]
      ]

  pub tile_blocks-IsNamed :
      (bs : List (Block Value)) (t : Tiling Value) → IsNamed t bs → IsNamed (tile_blocks t bs) []
  unfolding tile_blocks
  tile_blocks-IsNamed [] t i = i
  tile_blocks-IsNamed (b ∷ bs) t i =
      tile_blocks-IsNamed bs (tile_block t b) (tile_block-IsNamed t b bs i)

  pub tile_tail-IsNamed :
      (span_end : ℕ) (t : Tiling Value) → IsNamed t [] → IsNamed (tile_tail span_end t) []
  unfolding tile_tail
  tile_tail-IsNamed e t i = elim (Bool-cases (ltb t.cursor e)) [
    | inl less ↦
        let s = next_free_block_id t.used t.tiled in
        let fresh = contains-next_free_block_id t.used t.tiled in
        let u : Tiling Value = record { used = s ∷ t.used; tiled = t.tiled; cursor = t.cursor } in
        rw less (
          IsNamed-push u (blank_block s t.cursor (sub32 e t.cursor)) [] t.cursor
            (IsNamed-mint t s t.cursor (sub32 e t.cursor) [] fresh i))
    | inr more ↦ rw more i
  ]

  Distinct-append :
      (bs : List (Block Value)) (b : Block Value)
      → Distinct bs
      → All (λ c. c.id ≢ b.id) bs
      → Distinct (bs ++ b ∷ [])
  Distinct-append [] b d h = (tt, tt)
  Distinct-append (c ∷ bs) b d h = (snoc bs d.0, Distinct-append bs b d.1 h.1)
    where
      snoc : (cs : List (Block Value)) → Avoids c.id cs → Avoids c.id (cs ++ b ∷ [])
      snoc [] k = (h.0, tt)
      snoc (e ∷ cs) k = (k.0, snoc cs k.1)

  pub trailing_blank-Distinct :
      (span_end : ℕ) (t : Tiling Value) → IsNamed t [] → Distinct (trailing_blank span_end t)
  unfolding trailing_blank
  trailing_blank-Distinct e t i = elim (Option-cases (last? t.tiled)) [
    | inl nothing ↦ rw (nothing, trailing_blank) i.placed
    | inr (last, found) ↦ elim (Bool-cases last.is_blank) [
      | inl blank ↦ rw (found, blank, trailing_blank) i.placed
      | inr solid ↦ elim (Bool-cases (contains t.used (codes "tail"))) [
        | inl taken ↦
            let fresh = contains-next_free_block_id t.used t.tiled in
            rw (found, solid, taken, trailing_blank)
              (Distinct-append t.tiled _ i.placed
                (Used-Avoids t.used (next_free_block_id t.used t.tiled) t.tiled fresh i.known).0)
        | inr free ↦
            rw (found, solid, free, trailing_blank)
              (Distinct-append t.tiled _ i.placed
                (Used-Avoids t.used (codes "tail") t.tiled free i.known).0)
      ]
    ]
  ]
