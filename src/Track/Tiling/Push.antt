-- ===== src/Track/Tiling/Push.antt =====
-- `push_tiled_block` keeps the chain, keeps blanks apart, and shows what it showed before.
use thaum_painter.Base.{ℕ, ◌+◌, ◌≤◌, ◌<◌, ◌≡◌, refl, ◌⊎◌, inl, inr, Bool, false, Option}
use thaum_painter.Base.{List, [], ◌∷◌, u32_mod, arith, add32_fits}
use thaum_painter.Base.Text.{Text}
use thaum_painter.Track.Block.{SharedDocumentPropertyBlock as Block}
use thaum_painter.Track.Retile.{push_tiled_block}
use thaum_painter.Track.Tiling.{Chain, ApartFrom, Shows}

module _ {Value : Type 0} where
  pub Chain-le : (bs : List (Block Value)) (a c : ℕ) → Chain a c bs → a ≤ c
  Chain-le [] a c h = omega arith
  Chain-le (b ∷ bs) a c h = omega (arith, Chain-le bs (b.start_breath + b.length_breaths) c h.2)

  pub Chain-push :
      (bs : List (Block Value)) (b : Block Value) (a c d : ℕ)
      → Chain a c bs
      → b.start_breath ≡ c
      → 1 ≤ b.length_breaths
      → c + b.length_breaths ≡ d
      → d < u32_mod
      → Chain a d (push_tiled_block bs b)
  unfolding push_tiled_block
  Chain-push [] b a c d h s l e k = (omega arith, l, omega arith)
  Chain-push (x ∷ []) b a c d h s l e k =
      ground (arith, add32_fits x.length_breaths b.length_breaths)
  Chain-push (x ∷ y ∷ r) b a c d h s l e k =
      (h.0, h.1, Chain-push (y ∷ r) b (x.start_breath + x.length_breaths) c d h.2 s l e k)

  ApartFrom-push_cons :
      (y : Block Value) (r : List (Block Value)) (b : Block Value) (before : Bool)
      → ApartFrom before (y ∷ r)
      → ApartFrom before (push_tiled_block (y ∷ r) b)
  unfolding push_tiled_block
  ApartFrom-push_cons y [] b before h = ground arith
  ApartFrom-push_cons y (z ∷ r) b before h = (h.0, ApartFrom-push_cons z r b y.is_blank h.1)

  pub ApartFrom-push :
      (bs : List (Block Value)) (b : Block Value)
      → ApartFrom false bs
      → ApartFrom false (push_tiled_block bs b)
  unfolding push_tiled_block
  ApartFrom-push [] b h = (refl, tt)
  ApartFrom-push (y ∷ r) b h = ApartFrom-push_cons y r b false h

  -- A merge of two blanks hides nothing.
  pub Shows-push :
      (bs : List (Block Value)) (b : Block Value) (x : ℕ) (i : Text) (v : Option Value)
      → Shows x i v (push_tiled_block bs b)
      → Shows x i v bs ⊎ Shows x i v (b ∷ [])
  unfolding push_tiled_block
  Shows-push [] b x i v h = inr h
  Shows-push (y ∷ []) b x i v h = ground arith
  Shows-push (y ∷ z ∷ r) b x i v (inl h) = inl (inl h)
  Shows-push (y ∷ z ∷ r) b x i v (inr h) = elim (Shows-push (z ∷ r) b x i v h) [
    | inl k ↦ inl (inr k)
    | inr k ↦ inr k
  ]

  pub push-Shows :
      (bs : List (Block Value)) (b : Block Value) (x : ℕ) (i : Text) (v : Option Value)
      → Shows x i v bs ⊎ Shows x i v (b ∷ [])
      → Shows x i v (push_tiled_block bs b)
  unfolding push_tiled_block
  push-Shows [] b x i v (inl h) = absurd h
  push-Shows [] b x i v (inr h) = h
  push-Shows (y ∷ []) b x i v h = ground arith
  push-Shows (y ∷ z ∷ r) b x i v (inl (inl h)) = inl h
  push-Shows (y ∷ z ∷ r) b x i v (inl (inr h)) = inr (push-Shows (z ∷ r) b x i v (inl h))
  push-Shows (y ∷ z ∷ r) b x i v (inr h) = inr (push-Shows (z ∷ r) b x i v (inr h))
