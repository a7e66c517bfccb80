-- ===== src/Track/Tiling/Finish.antt =====
-- The end of the re-tiling: the tail, the trailing blank, and the edge modes.
use thaum_painter.Base.{ℕ, ◌+◌, max, ◌≤◌, ◌<◌, ◌≡◌, ◌≢◌, refl, inl, inr, Bool, true, false}
use thaum_painter.Base.{Option, none, some, List, [], ◌∷◌, ◌++◌, u32_max, arith, Bool-cases}
use thaum_painter.Base.{ltb, add32_fits, sub32_fits}
use thaum_painter.Base.{Option-cases}
use thaum_painter.Base.Text.{Text}
use thaum_painter.Track.Block.{SharedDocumentPropertyBlock as Block}
use thaum_painter.Track.Retile.{Tiling, tile_tail, last?, trailing_blank}
use thaum_painter.Track.Tiling.{Chain, ApartFrom, EndsBlank, Shows}
use thaum_painter.Track.Tiling.Push.{Chain-push, ApartFrom-push, Shows-push, push-Shows}
use thaum_painter.Track.Tiling.Loop.{IsTiling}

module _ {Value : Type 0} where
  -- After the tail the chain reaches the end of the span.
  pub tile_tail-Chain :
      (span_end a : ℕ) (t : Tiling Value)
      → span_end ≤ u32_max
      → IsTiling a t
      → Chain a (max t.cursor span_end) (tile_tail span_end t).tiled
  unfolding tile_tail
  tile_tail-Chain e a t h i = elim (Bool-cases (ltb t.cursor e)) [
    | inl less ↦
        rw (less, sub32_fits e t.cursor (ground arith) (omega arith))
          (Chain-push t.tiled _ a t.cursor _ i.chain refl (ground arith) (ground arith)
            (omega (arith, i.low)))
    | inr more ↦ let top : t.cursor ≡ max t.cursor e = ground arith in rw (more, ← top) i.chain
  ]

  pub tile_tail-ApartFrom :
      (span_end : ℕ) (t : Tiling Value)
      → ApartFrom false t.tiled
      → ApartFrom false (tile_tail span_end t).tiled
  unfolding tile_tail
  tile_tail-ApartFrom e t h = elim (Bool-cases (ltb t.cursor e)) [
    | inl less ↦ rw less (ApartFrom-push t.tiled _ h)
    | inr more ↦ rw more h
  ]

  pub Shows-tile_tail :
      (span_end : ℕ) (t : Tiling Value) (x : ℕ) (i : Text) (v : Option Value)
      → (Shows x i v (tile_tail span_end t).tiled → Shows x i v t.tiled)
        × (Shows x i v t.tiled → Shows x i v (tile_tail span_end t).tiled)
  unfolding tile_tail
  Shows-tile_tail e t x i v = elim (Bool-cases (ltb t.cursor e)) [
    | inl less ↦
        rw less (
          λ h. ground (arith, Shows-push t.tiled _ x i v h),
          λ h. push-Shows t.tiled _ x i v (inl h),
        )
    | inr more ↦ rw more (λ h. h, λ h. h)
  ]

  last?-Chain :
      (bs : List (Block Value)) (a c : ℕ) (last : Block Value)
      → Chain a c bs
      → last? bs ≡ some last
      → last.start_breath + last.length_breaths ≡ c
  last?-Chain [] a c last h e = cc
  last?-Chain (b ∷ []) a c last h e = ground arith
  last?-Chain (b ∷ d ∷ bs) a c last h e = last?-Chain (d ∷ bs) _ c last h.2 e

  Chain-append :
      (bs : List (Block Value)) (b : Block Value) (a c : ℕ)
      → Chain a c bs
      → b.start_breath ≡ c
      → 1 ≤ b.length_breaths
      → Chain a (c + b.length_breaths) (bs ++ b ∷ [])
  Chain-append [] b a c h e l = (omega arith, l, omega arith)
  Chain-append (x ∷ bs) b a c h e l = (h.0, h.1, Chain-append bs b _ c h.2 e l)

  ApartFrom-append :
      (bs : List (Block Value)) (b last : Block Value) (before : Bool)
      → ApartFrom before bs
      → last? bs ≡ some last
      → last.is_blank ≡ false
      → ApartFrom before (bs ++ b ∷ [])
  ApartFrom-append [] b last before h e k = cc
  ApartFrom-append (x ∷ []) b last before h e k = ground arith
  ApartFrom-append (x ∷ y ∷ bs) b last before h e k =
      (h.0, ApartFrom-append (y ∷ bs) b last x.is_blank h.1 e k)

  EndsBlank-append :
      (bs : List (Block Value)) (b : Block Value) → b.is_blank ≡ true → EndsBlank (bs ++ b ∷ [])
  EndsBlank-append [] b h = h
  EndsBlank-append (x ∷ []) b h = h
  EndsBlank-append (x ∷ y ∷ bs) b h = EndsBlank-append (y ∷ bs) b h

  EndsBlank-last? :
      (bs : List (Block Value)) (last : Block Value)
      → last? bs ≡ some last
      → last.is_blank ≡ true
      → EndsBlank bs
  EndsBlank-last? [] last e h = cc
  EndsBlank-last? (x ∷ []) last e h = ground arith
  EndsBlank-last? (x ∷ y ∷ bs) last e h = EndsBlank-last? (y ∷ bs) last e h

  last?-cons : (b : Block Value) (bs : List (Block Value)) → last? (b ∷ bs) ≢ none
  last?-cons b [] e = cc
  last?-cons b (c ∷ bs) e = last?-cons c bs e

  Shows-append :
      (bs : List (Block Value)) (b : Block Value) (x : ℕ) (i : Text) (v : Option Value)
      → b.is_blank ≡ true
      → (Shows x i v (bs ++ b ∷ []) → Shows x i v bs)
        × (Shows x i v bs → Shows x i v (bs ++ b ∷ []))
  Shows-append [] b x i v h = (λ k. ground arith, λ k. absurd k)
  Shows-append (y ∷ bs) b x i v h =
      let ih = Shows-append bs b x i v h in (λ k. ground (arith, ih.0), λ k. ground (arith, ih.1))

  -- The tiling before the edge modes are enforced.
  pub record IsClosed (a low : ℕ) (bs : List (Block Value)) : Type 0 where
    pub end : ℕ
    pub chain : Chain a end bs
    pub covers : low ≤ end
    pub apart : ApartFrom false bs
    pub trailing : EndsBlank bs

  pub trailing_blank-IsClosed :
      (span_end a c : ℕ) (t : Tiling Value)
      → Chain a c t.tiled
      → a < c
      → c ≤ u32_max
      → span_end ≤ c
      → ApartFrom false t.tiled
      → IsClosed a span_end (trailing_blank span_end t)
  unfolding trailing_blank
  trailing_blank-IsClosed e a c t chain less top covers apart =
      elim (Option-cases (last? t.tiled)) [
        | inl nothing ↦ absurd (stored t.tiled chain nothing)
        | inr (last, found) ↦
            let ends = last?-Chain t.tiled a c last chain found in
            let start = add32_fits last.start_breath last.length_breaths (omega arith) in
            let past : ltb c e ≡ false = ground arith in
            elim (Bool-cases last.is_blank) [
              | inl blank ↦
                  rw (found, blank, trailing_blank)
                    (record {
                      end = c;
                      chain = chain;
                      covers = covers;
                      apart = apart;
                      trailing = EndsBlank-last? t.tiled last found blank;
                    })
              | inr solid ↦
                  rw (found, solid, start, ends, past, trailing_blank)
                    (record {
                      end = c + 1;
                      chain = Chain-append t.tiled _ a c chain refl (omega arith);
                      covers = omega arith;
                      apart = ApartFrom-append t.tiled _ last false apart found solid;
                      trailing = EndsBlank-append t.tiled _ refl;
                    })
            ]
      ]
    where
      stored : (bs : List (Block Value)) → Chain a c bs → last? bs ≡ none → ⊥
      stored [] h k = omega arith
      stored (b ∷ bs) h k = last?-cons b bs k

  pub Shows-trailing_blank :
      (span_end : ℕ) (t : Tiling Value) (x : ℕ) (i : Text) (v : Option Value)
      → (Shows x i v (trailing_blank span_end t) → Shows x i v t.tiled)
        × (Shows x i v t.tiled → Shows x i v (trailing_blank span_end t))
  unfolding trailing_blank
  Shows-trailing_blank e t x i v = elim (Option-cases (last? t.tiled)) [
    | inl nothing ↦ rw (nothing, trailing_blank) (λ h. h, λ h. h)
    | inr (last, found) ↦ elim (Bool-cases last.is_blank) [
      | inl blank ↦ rw (found, blank, trailing_blank) (λ h. h, λ h. h)
      | inr solid ↦ rw (found, solid, trailing_blank) (Shows-append t.tiled _ x i v refl)
    ]
  ]
