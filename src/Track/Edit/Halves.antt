-- ===== src/Track/Edit/Halves.antt =====
-- The two halves of a split bar, and a track with them in place of the bar
-- (domain/file/storage/storage.rs, `split_property_block`).
use thaum_painter.Base.{
  ℕ, zero, suc, ◌+◌, ◌-◌, ◌≤◌, ◌<◌, ◌≡◌, ◌↔◌, ◌⊎◌, inl, inr, Bool, true, false, ◌&&◌, Option, some,
  List, [], ◌∷◌, ltb, get_elem?, arith, add32, sub32, add32_fits, sub32_fits, Bool-cases,
}
use thaum_painter.Base.Text.{Text}
use thaum_painter.Track.Block.{SharedDocumentPropertyBlock as Block}
use thaum_painter.Track.Edit.{modify, insert_at, with_span, copy_of, can_split}
use thaum_painter.Track.Tiling.{Chain, ApartFrom, EndsBlank, FitsU32}

module _ {Value : Type 0} where
  -- A solid bar that covers `x`, by its value.
  abbrev pub Covers : ℕ → Option Value → Block Value → Type 0
  Covers x v b =
      (b.start_breath ≤ x)
      × (x < b.start_breath + b.length_breaths)
      × (b.is_blank ≡ false)
      × (b.value ≡ v)

  abbrev pub Paints : ℕ → Option Value → List (Block Value) → Type 0
  Paints x v [] = ⊥
  Paints x v (b ∷ bs) = Covers x v b ⊎ Paints x v bs

  module _ (b : Block Value) (n : ℕ) (fits : FitsU32 b) (can : can_split b n ≡ true) where
    split_within :
        (b.start_breath < n) × (n < b.start_breath + b.length_breaths) × (b.is_blank ≡ false)
    unfolding can_split
    split_within =
        let e = add32_fits b.start_breath b.length_breaths in
        let d = sub32_fits (add32 b.start_breath b.length_breaths) 1 in
        ground (
          arith,
          e (omega arith),
          d (omega (arith, e (omega arith))) (omega (arith, e (omega arith))),
        )

    abbrev left : Block Value
    left = with_span b.start_breath (sub32 n b.start_breath) b

    abbrev right : Text → Block Value
    right new_id =
        copy_of b new_id n (add32 (sub32 (sub32 (add32 b.start_breath b.length_breaths) 1) n) 1)

    lengths :
        (sub32 n b.start_breath ≡ n - b.start_breath)
        × (add32 (sub32 (sub32 (add32 b.start_breath b.length_breaths) 1) n) 1
            ≡ b.start_breath + b.length_breaths - n)
    lengths =
        let w = split_within in
        let e = add32_fits b.start_breath b.length_breaths (omega arith) in
        let l = sub32_fits n b.start_breath (omega arith) (omega arith) in
        let d = sub32_fits (b.start_breath + b.length_breaths) 1 (omega arith) (omega arith) in
        let r = sub32_fits (b.start_breath + b.length_breaths - 1) n (omega arith) (omega arith) in
        let a = add32_fits (b.start_breath + b.length_breaths - 1 - n) 1 (omega arith) in
        (l, rw (e, d, r, a) (omega arith))

    Covers-halves :
        (new_id : Text) (x : ℕ) (v : Option Value)
        → (Covers x v left ⊎ Covers x v (right new_id)) ↔ Covers x v b
    Covers-halves new_id x v =
        let w = split_within in
        rw (lengths.0, lengths.1)
          (
            λ h. elim h [
              | inl k ↦ (k.0, omega arith, k.2, k.3)
              | inr k ↦ (omega arith, omega arith, k.2, k.3)
            ],
            λ h. elim (Bool-cases (ltb x n)) [
              | inl e ↦ inl (h.0, ground arith, h.2, h.3)
              | inr e ↦ inr (ground arith, ground arith, h.2, h.3)
            ],
          )

    -- The bars with the halves in place of the bar at an index.
    abbrev halved : ℕ → Text → List (Block Value) → List (Block Value)
    halved i new_id bs =
        insert_at (suc i) (right new_id)
          (modify i (with_span b.start_breath (sub32 n b.start_breath)) bs)

    pub Paints-halved :
        (i : ℕ) (new_id : Text) (x : ℕ) (v : Option Value) (bs : List (Block Value))
        → get_elem? bs i ≡ some b
        → Paints x v (halved i new_id bs) ↔ Paints x v bs
    unfolding insert_at modify
    Paints-halved i new_id x v [] h = absurd (ground arith)
    Paints-halved zero new_id x v (c ∷ bs) h =
        let e : c ≡ b = cc h in
        let k = Covers-halves new_id x v in
        rw e (
          λ m. elim m [
            | inl p ↦ inl (k.0 (inl p))
            | inr p ↦ elim p [ inl q ↦ inl (k.0 (inr q)) | inr q ↦ inr q ]
          ],
          λ m. elim m [
            | inl p ↦ elim (k.1 p) [ inl q ↦ inl q | inr q ↦ inr (inl q) ]
            | inr p ↦ inr (inr p)
          ],
        )
    Paints-halved (suc i) new_id x v (c ∷ bs) h =
        let ih = Paints-halved i new_id x v bs h in
        (
          λ m. elim m [ inl p ↦ inl p | inr p ↦ inr (ih.0 p) ],
          λ m. elim m [ inl p ↦ inl p | inr p ↦ inr (ih.1 p) ],
        )

    pub halved-Chain :
        (i : ℕ) (new_id : Text) (a c : ℕ) (bs : List (Block Value))
        → get_elem? bs i ≡ some b
        → Chain a c bs
        → Chain a c (halved i new_id bs)
    unfolding insert_at modify
    halved-Chain i new_id a c [] h k = absurd (ground arith)
    halved-Chain zero new_id a c (d ∷ bs) h k =
        let e : d ≡ b = cc h in
        let w = split_within in
        let k' : (b.start_breath ≡ a)
            × (1 ≤ b.length_breaths)
            × Chain (b.start_breath + b.length_breaths) c bs =
          rw (← e) k in
        let last : b.start_breath + b.length_breaths ≡ n + (b.start_breath + b.length_breaths - n) =
          omega arith in
        rw (lengths.0, lengths.1) (k'.0, omega arith, (omega arith, omega arith, rw (← last) k'.2))
    halved-Chain (suc i) new_id a c (d ∷ bs) h k =
        (k.0, k.1, halved-Chain i new_id (d.start_breath + d.length_breaths) c bs h k.2)

    pub halved-ApartFrom :
        (i : ℕ) (new_id : Text) (before : Bool) (bs : List (Block Value))
        → get_elem? bs i ≡ some b
        → ApartFrom before bs
        → ApartFrom before (halved i new_id bs)
    unfolding insert_at modify
    halved-ApartFrom i new_id before [] h k = absurd (ground arith)
    halved-ApartFrom zero new_id before (d ∷ bs) h k =
        let e : d ≡ b = cc h in
        let w = split_within in
        let k' : ((before && b.is_blank) ≡ false) × ApartFrom b.is_blank bs = rw (← e) k in
        rw e (k'.0, (ground arith, k'.1))
    halved-ApartFrom (suc i) new_id before (d ∷ bs) h k =
        (k.0, halved-ApartFrom i new_id d.is_blank bs h k.1)

    pub halved-EndsBlank :
        (i : ℕ) (new_id : Text) (bs : List (Block Value))
        → get_elem? bs i ≡ some b
        → EndsBlank bs
        → EndsBlank (halved i new_id bs)
    unfolding insert_at modify
    halved-EndsBlank i new_id [] h k = absurd k
    halved-EndsBlank zero new_id (d ∷ []) h k =
        let e : d ≡ b = cc h in
        let w = split_within in let k' : b.is_blank ≡ true = rw (← e) k in absurd (ground arith)
    halved-EndsBlank zero new_id (d ∷ c ∷ bs) h k = k
    halved-EndsBlank (suc i) new_id (d ∷ []) h k = absurd (ground arith)
    halved-EndsBlank (suc zero) new_id (d ∷ c ∷ bs) h k = halved-EndsBlank zero new_id (c ∷ bs) h k
    halved-EndsBlank (suc (suc i)) new_id (d ∷ c ∷ bs) h k =
        halved-EndsBlank (suc i) new_id (c ∷ bs) h k
