-- ===== src/Track/Tiling/Edges.antt =====
-- `enforce_loop_mode_edges` leaves every bar where it is and puts the edge modes in order.
use thaum_painter.Base.{ℕ, ◌+◌, ◌≡◌, ◌≢◌, ◌∙◌, refl, Bool}
use thaum_painter.Base.{Option, none, List, [], ◌∷◌, arith, length}
use thaum_painter.Base.Text.{Text, text_eq_iff}
use thaum_painter.Track.Block.{SharedDocumentPropertyBlock as Block}
use thaum_painter.Track.Mode.{resolve_mode, loop_out, loop_in, interpolate}
use thaum_painter.Track.Retile.{enforce_block, enforce_from}
use thaum_painter.Track.Tiling.{Chain, ApartFrom, EndsBlank, HasEdgeMode, EdgesFrom, Shows}

resolve_mode-none : resolve_mode none ≡ interpolate
unfolding resolve_mode
resolve_mode-none = refl

interpolate-ne-loop : (interpolate ≢ loop_out) × (interpolate ≢ loop_in)
interpolate-ne-loop = (λ e. cc, λ e. cc)

loop_out-ne-loop_in : loop_out ≢ loop_in
loop_out-ne-loop_in e = cc

module _ {Value : Type 0} where
  -- All of a bar but its interpretation and ease ends.
  abbrev pub Same : Block Value → Block Value → Type 0
  Same b c =
      (b.start_breath ≡ c.start_breath)
      × (b.length_breaths ≡ c.length_breaths)
      × (b.is_blank ≡ c.is_blank)
      × (b.id ≡ c.id)
      × (b.value ≡ c.value)

  pub enforce_block-Same : (last index : ℕ) (b : Block Value) → Same (enforce_block last index b) b
  unfolding enforce_block
  enforce_block-Same last index b = ground arith

  enforce_block-HasEdgeMode :
      (last index : ℕ) (b : Block Value) → HasEdgeMode last index (enforce_block last index b)
  unfolding enforce_block
  enforce_block-HasEdgeMode last index b =
      let mode = resolve_mode b.interpretation in
      let out = text_eq_iff mode loop_out in
      let into = text_eq_iff mode loop_in in
      let default = resolve_mode-none in
      (
        ground (arith, out, into, default, interpolate-ne-loop.0, loop_out-ne-loop_in),
        ground (arith, out, into, default, interpolate-ne-loop.1, loop_out-ne-loop_in),
        ground arith,
      )

  pub enforce_from-EdgesFrom :
      (last index : ℕ) (bs : List (Block Value)) → EdgesFrom last index (enforce_from last index bs)
  unfolding enforce_from
  enforce_from-EdgesFrom last index [] = tt
  enforce_from-EdgesFrom last index (b ∷ bs) =
      (enforce_block-HasEdgeMode last index b, enforce_from-EdgesFrom last (index + 1) bs)

  pub length-enforce_from :
      (last index : ℕ) (bs : List (Block Value)) → length (enforce_from last index bs) ≡ length bs
  unfolding enforce_from
  length-enforce_from last index [] = refl
  length-enforce_from last index (b ∷ bs) = omega (arith, length-enforce_from last (index + 1) bs)

  pub enforce_from-Chain :
      (last index : ℕ) (bs : List (Block Value)) (a c : ℕ)
      → Chain a c bs
      → Chain a c (enforce_from last index bs)
  unfolding enforce_from
  enforce_from-Chain last index [] a c h = h
  enforce_from-Chain last index (b ∷ bs) a c h =
      let same = enforce_block-Same last index b in
      (
        ground (arith, same.0),
        ground (arith, same.1),
        rw (same.0, same.1) (enforce_from-Chain last (index + 1) bs _ c h.2),
      )

  pub enforce_from-ApartFrom :
      (last index : ℕ) (bs : List (Block Value)) (before : Bool)
      → ApartFrom before bs
      → ApartFrom before (enforce_from last index bs)
  unfolding enforce_from
  enforce_from-ApartFrom last index [] before h = tt
  enforce_from-ApartFrom last index (b ∷ bs) before h =
      let same = enforce_block-Same last index b in
      rw same.2 (h.0, enforce_from-ApartFrom last (index + 1) bs _ h.1)

  pub enforce_from-EndsBlank :
      (last index : ℕ) (bs : List (Block Value))
      → EndsBlank bs
      → EndsBlank (enforce_from last index bs)
  unfolding enforce_from
  enforce_from-EndsBlank last index [] h = h
  enforce_from-EndsBlank last index (b ∷ []) h = (enforce_block-Same last index b).2 ∙ h
  enforce_from-EndsBlank last index (b ∷ c ∷ bs) h =
      enforce_from-EndsBlank last (index + 1) (c ∷ bs) h

  pub Shows-enforce_from :
      (last index : ℕ) (bs : List (Block Value)) (x : ℕ) (i : Text) (v : Option Value)
      → (Shows x i v (enforce_from last index bs) → Shows x i v bs)
        × (Shows x i v bs → Shows x i v (enforce_from last index bs))
  unfolding enforce_from
  Shows-enforce_from last index [] x i v = (λ h. h, λ h. h)
  Shows-enforce_from last index (b ∷ bs) x i v =
      let ih = Shows-enforce_from last (index + 1) bs x i v in
      let same = enforce_block-Same last index b in
      rw same.0 (
        rw same.1 (
          rw same.2 (rw same.3 (rw same.4 (λ h. ground (arith, ih.0), λ h. ground (arith, ih.1))))))
