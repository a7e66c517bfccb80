-- ===== src/Track/Tiling/Cells.antt =====
-- Under the tiling every breath of the span lies on a bar, and edits go where the tiling says.
use thaum_painter.Base.{ℕ, ◌+◌, ◌≤◌, ◌<◌, ◌≡◌, refl, inl, inr, true, none, some}
use thaum_painter.Base.{
  not, ◌||◌, List, [], ◌∷◌, ◌∈◌, ◌-◌, Bool-cases, u32_max, arith, leb, ltb, add32_fits, sub32_fits,
  if◌then◌else◌, ◌==◌,
}
use thaum_painter.Breath.Pieces.{BarCell, BarPiece, single, left_head, right_head, center}
use thaum_painter.Breath.Pieces.{
  empty, solid, stored_bar, classify_bar_piece, cell_type_of, covering_bar_cell,
}
use thaum_painter.Timeline.{TimelineState, resolve_editable_breath}
use thaum_painter.Track.Block.{SharedDocumentPropertyBlock as Block}
use thaum_painter.Track.Tiling.{Chain, IsTiled}
use thaum_painter.Track.Tiling.Push.{Chain-le}

-- What a piece says of the breath `x` on the bar from `start` on, `len` breaths long.
abbrev pub IsPieceOf : ℕ → ℕ → ℕ → BarPiece → Type 0
IsPieceOf start len x single = (len ≡ 1) × (x ≡ start)
IsPieceOf start len x left_head = (2 ≤ len) × (x ≡ start)
IsPieceOf start len x right_head = (2 ≤ len) × (x + 1 ≡ start + len)
IsPieceOf start len x center = (3 ≤ len) × (start < x) × (x + 1 < start + len)

classify_bar_piece-IsPieceOf :
    (start len x : ℕ)
    → 1 ≤ len
    → start + len ≤ u32_max
    → start ≤ x
    → x < start + len
    → IsPieceOf start len x (classify_bar_piece start len x)
unfolding classify_bar_piece
classify_bar_piece-IsPieceOf start len x l top h k =
    let end = add32_fits start len (omega arith) in
    let last = sub32_fits (start + len) 1 (omega arith) (omega arith) in
    rw (end, last)
      (elim (Bool-cases (leb len 1)) [
        | inl one ↦ rw one (ground arith)
        | inr more ↦ elim (Bool-cases (x == start)) [
          | inl first ↦ rw (more, first) (ground arith)
          | inr later ↦ elim (Bool-cases (x == (start + len - 1))) [
            | inl final ↦ rw (more, later, final) (ground arith)
            | inr inner ↦ rw (more, later, inner) (ground arith)
          ]
        ]
      ])

module _ {Value : Type 0} where
  -- The bar of the track that `x` lies on, and the cell that the lookup answers for it.
  pub record CellAt (x : ℕ) (bs : List (Block Value)) : Type 0 where
    pub bar : Block Value
    pub stored : bar ∈ bs
    pub begins : bar.start_breath ≤ x
    pub ends : x < bar.start_breath + bar.length_breaths
    pub cell : BarCell
    pub answers : covering_bar_cell bs x ≡ some cell
    pub piece : IsPieceOf bar.start_breath bar.length_breaths x cell.piece
    pub kind : cell.cell_type ≡ (if bar.is_blank then empty else solid)

  Chain-CellAt :
      (bs : List (Block Value)) (a c x : ℕ)
      → Chain a c bs
      → c ≤ u32_max
      → a ≤ x
      → x < c
      → CellAt x bs
  unfolding covering_bar_cell
  Chain-CellAt [] a c x h top k l = absurd (omega arith)
  Chain-CellAt (b ∷ bs) a c x h top k l =
      let rest = Chain-le bs _ c h.2 in
      let end = add32_fits b.start_breath b.length_breaths (omega arith) in
      elim (Bool-cases (ltb x (b.start_breath + b.length_breaths))) [
        | inl inside ↦
            let from : leb b.start_breath x ≡ true = ground arith in
            record {
              bar = b;
              stored = inl refl;
              begins = omega arith;
              ends = ground arith;
              cell = record {
                piece = classify_bar_piece b.start_breath b.length_breaths x;
                cell_type = cell_type_of b.is_blank;
              };
              answers = rw (end, from, inside);
              piece =
                  classify_bar_piece-IsPieceOf b.start_breath b.length_breaths x h.1 (omega arith)
                    (omega arith) (ground arith);
              kind = refl;
            }
        | inr outside ↦
            let tail =
              Chain-CellAt bs (b.start_breath + b.length_breaths) c x h.2 top (ground arith) l in
            record {
              bar = tail.bar;
              stored = inr tail.stored;
              begins = tail.begins;
              ends = tail.ends;
              cell = tail.cell;
              answers = ground (arith, end, tail.answers);
              piece = tail.piece;
              kind = tail.kind;
            }
      ]

  -- On a tiled track the lookup answers at every breath from the start to the stored end: with the
  -- piece that the breath is of its bar (single, left head, right head or center), and with the
  -- bar's kind, empty for a blank and solid otherwise.
  pub covering_bar_cell_tiled :
      (bs : List (Block Value)) (s end x : ℕ)
      → IsTiled s end bs
      → end ≤ u32_max
      → s ≤ x
      → x < end
      → CellAt x bs
  covering_bar_cell_tiled bs s end x t top h k = Chain-CellAt bs s end x t.chain top h k

  -- The bar of the track that the playhead stands on, and what the edit gate answers there.
  pub record GateAt (s : TimelineState) (bs : List (Block Value)) : Type 0 where
    pub bar : Block Value
    pub stored : bar ∈ bs
    pub begins : bar.start_breath ≤ s.current_breath
    pub ends : s.current_breath < bar.start_breath + bar.length_breaths
    pub answers :
        resolve_editable_breath s bs
        ≡ (if s.auto_key_enabled || not bar.is_blank then some s.current_breath else none)

  -- On a tiled track an edit at the playhead is let through exactly if auto-key is on or the bar
  -- under the playhead is solid, and then it lands on the playhead's breath.
  pub resolve_editable_breath_tiled :
      (s : TimelineState) (bs : List (Block Value)) (start end : ℕ)
      → IsTiled start end bs
      → end ≤ u32_max
      → start ≤ s.current_breath
      → s.current_breath < end
      → GateAt s bs
  unfolding resolve_editable_breath
  resolve_editable_breath_tiled s bs start end t top h k =
      let c = Chain-CellAt bs start end s.current_breath t.chain top h k in
      record {
        bar = c.bar;
        stored = c.stored;
        begins = c.begins;
        ends = c.ends;
        answers = ground (arith, c.answers, c.kind);
      }
