-- ===== src/Track/Edit/Fits.antt =====
-- Bars of an edited track still end within `u32` (domain/file/storage/storage.rs).
use thaum_painter.Base.{
  ℕ, zero, suc, some, List, [], ◌∷◌, ◌≡◌, All, arith, inl, inr, get_elem?, Option-cases,
}
use thaum_painter.Track.Block.{SharedDocumentPropertyBlock as Block}
use thaum_painter.Track.Tiling.{FitsU32}
use thaum_painter.Track.Edit.{modify, swap_spans}

module _ {Value : Type 0} where
  pub FitsU32-modify :
      (i : ℕ) (f : Block Value → Block Value) (bs : List (Block Value))
      → ((b : Block Value) → FitsU32 b → FitsU32 (f b))
      → All FitsU32 bs
      → All FitsU32 (modify i f bs)
  unfolding modify
  FitsU32-modify i f [] k h = tt
  FitsU32-modify zero f (b ∷ bs) k h = (k b h.0, h.1)
  FitsU32-modify (suc i) f (b ∷ bs) k h = (h.0, FitsU32-modify i f bs k h.1)

  FitsU32-get_elem :
      (i : ℕ) (bs : List (Block Value)) (b : Block Value)
      → All FitsU32 bs
      → get_elem? bs i ≡ some b
      → FitsU32 b
  FitsU32-get_elem i [] b f h = absurd (ground arith)
  FitsU32-get_elem zero (c ∷ bs) b f h = let e : c ≡ b = cc h in rw (← e) f.0
  FitsU32-get_elem (suc i) (c ∷ bs) b f h = FitsU32-get_elem i bs b f.1 h

  pub FitsU32-swap_spans :
      (i j : ℕ) (bs : List (Block Value)) → All FitsU32 bs → All FitsU32 (swap_spans i j bs)
  unfolding swap_spans
  FitsU32-swap_spans i j bs fits = elim (Option-cases (get_elem? bs i)) [
    | inl e ↦ rw (swap_spans, e) fits
    | inr a ↦ elim (Option-cases (get_elem? bs j)) [
      | inl e ↦ rw (swap_spans, a.1, e) fits
      | inr c ↦
          rw (swap_spans, a.1, c.1)
            (FitsU32-modify j _ _ (λ d f. FitsU32-get_elem i bs a.0 fits a.1)
              (FitsU32-modify i _ bs (λ d f. FitsU32-get_elem j bs c.0 fits c.1) fits))
    ]
  ]
