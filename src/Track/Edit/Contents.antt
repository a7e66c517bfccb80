-- ===== src/Track/Edit/Contents.antt =====
-- What the bars show after a write to one of them and after a swap of two spans
-- (domain/file/storage/storage.rs, `blank_property_block` and `swap_property_blocks`).
use thaum_painter.Base.{
  ℕ, zero, suc, ◌+◌, ◌≤◌, ◌≡◌, ◌≢◌, ◌↔◌, ◌⊎◌, inl, inr, refl, sym, ◌∙◌, true, Option, some, List,
  [], ◌∷◌, All, get_elem?, arith, Bool-cases, Option-cases,
}
use thaum_painter.Base.Text.{Text, text_eq, text_eq_iff}
use thaum_painter.Track.Block.{SharedDocumentPropertyBlock as Block}
use thaum_painter.Track.Tiling.{Shows, Chain}
use thaum_painter.Track.Tiling.Names.{Avoids, Distinct}
use thaum_painter.Track.Tiling.Clip.{Beside, Disjoint}
use thaum_painter.Track.Edit.{position, modify}

module _ {Value : Type 0} where
  pub Chain-Shows :
      (a c x : ℕ) (k : Text) (v : Option Value) (bs : List (Block Value))
      → Chain a c bs
      → Shows x k v bs
      → a ≤ x
  Chain-Shows a c x k v [] chain h = absurd h
  Chain-Shows a c x k v (b ∷ bs) chain (inl s) = omega (arith, chain.0, s.0)
  Chain-Shows a c x k v (b ∷ bs) chain (inr m) =
      omega (arith, chain.0, Chain-Shows (b.start_breath + b.length_breaths) c x k v bs chain.2 m)

  Shows-Avoids :
      (x : ℕ) (k i : Text) (v : Option Value) (bs : List (Block Value))
      → Avoids i bs
      → Shows x k v bs
      → k ≢ i
  Shows-Avoids x k i v [] far h = absurd h
  Shows-Avoids x k i v (b ∷ bs) far (inl s) = λ e. far.0 (sym e ∙ sym (s.3))
  Shows-Avoids x k i v (b ∷ bs) far (inr m) = Shows-Avoids x k i v bs far.1 m

  Avoids-get_elem :
      (n : ℕ) (i : Text) (bs : List (Block Value)) (a : Block Value)
      → Avoids i bs
      → get_elem? bs n ≡ some a
      → i ≢ a.id
  Avoids-get_elem n i [] a far h = absurd (ground arith)
  Avoids-get_elem zero i (b ∷ bs) a far h = let e : b ≡ a = cc h in rw (← e) far.0
  Avoids-get_elem (suc n) i (b ∷ bs) a far h = Avoids-get_elem n i bs a far.1 h

  -- A write that keeps the id of the bar at an index: the content of the other bars, and that of the
  -- bar that was written.
  pub Shows-modify :
      (n : ℕ) (f : Block Value → Block Value) (bs : List (Block Value)) (a : Block Value) (x : ℕ)
      (k : Text) (v : Option Value)
      → Distinct bs
      → get_elem? bs n ≡ some a
      → Shows x k v (modify n f bs) ↔ ((Shows x k v bs × (k ≢ a.id)) ⊎ Shows x k v (f a ∷ []))
  unfolding modify
  Shows-modify n f [] a x k v apart h = absurd (ground arith)
  Shows-modify zero f (b ∷ bs) a x k v apart h =
      let e : b ≡ a = cc h in
      rw (← e) (
        λ m. elim m [
          | inl s ↦ inr (inl s)
          | inr m ↦ inl (inr m, Shows-Avoids x k b.id v bs apart.0 m)
        ],
        λ m. elim m [
          | inl m ↦ elim m.0 [ inl s ↦ absurd (m.1 (sym s.3)) | inr m ↦ inr m ]
          | inr s ↦ elim s [ inl s ↦ inl s | inr nothing ↦ absurd nothing ]
        ],
      )
  Shows-modify (suc n) f (b ∷ bs) a x k v apart h =
      let ih = Shows-modify n f bs a x k v apart.1 h in
      let other = Avoids-get_elem n b.id bs a apart.0 h in
      (
        λ m. elim m [
          | inl s ↦ inl (inl s, λ e. other (s.3 ∙ e))
          | inr m ↦ elim (ih.0 m) [ inl q ↦ inl (inr q.0, q.1) | inr s ↦ inr s ]
        ],
        λ m. elim m [
          | inl m ↦ elim m.0 [ inl s ↦ inl s | inr q ↦ inr (ih.1 (inl (q, m.1))) ]
          | inr s ↦ inr (ih.1 (inr s))
        ],
      )

  pub get_elem-modify :
      (n m : ℕ) (f : Block Value → Block Value) (bs : List (Block Value))
      → n ≢ m
      → get_elem? (modify n f bs) m ≡ get_elem? bs m
  unfolding modify
  get_elem-modify n m f [] h = refl
  get_elem-modify zero zero f (b ∷ bs) h = absurd (h refl)
  get_elem-modify zero (suc m) f (b ∷ bs) h = refl
  get_elem-modify (suc n) zero f (b ∷ bs) h = refl
  get_elem-modify (suc n) (suc m) f (b ∷ bs) h =
      get_elem-modify n m f bs (λ e. h (omega (arith, e)))

  pub get_elem-modify_self :
      (n : ℕ) (f : Block Value → Block Value) (bs : List (Block Value)) (a : Block Value)
      → get_elem? bs n ≡ some a
      → get_elem? (modify n f bs) n ≡ some (f a)
  unfolding modify
  get_elem-modify_self n f [] a h = absurd (ground arith)
  get_elem-modify_self zero f (b ∷ bs) a h = let e : b ≡ a = cc h in rw e refl
  get_elem-modify_self (suc n) f (b ∷ bs) a h = get_elem-modify_self n f bs a h

  Avoids-modify :
      (n : ℕ) (i : Text) (f : Block Value → Block Value) (bs : List (Block Value))
      → ((b : Block Value) → (f b).id ≡ b.id)
      → Avoids i bs
      → Avoids i (modify n f bs)
  unfolding modify
  Avoids-modify n i f [] keeps h = tt
  Avoids-modify zero i f (b ∷ bs) keeps h = (λ e. h.0 (e ∙ keeps b), h.1)
  Avoids-modify (suc n) i f (b ∷ bs) keeps h = (h.0, Avoids-modify n i f bs keeps h.1)

  pub Distinct-modify :
      (n : ℕ) (f : Block Value → Block Value) (bs : List (Block Value))
      → ((b : Block Value) → (f b).id ≡ b.id)
      → Distinct bs
      → Distinct (modify n f bs)
  unfolding modify
  Distinct-modify n f [] keeps h = tt
  Distinct-modify zero f (b ∷ bs) keeps h = (rw (keeps b) h.0, h.1)
  Distinct-modify (suc n) f (b ∷ bs) keeps h =
      (Avoids-modify n b.id f bs keeps h.0, Distinct-modify n f bs keeps h.1)

  -- The bar that `position` finds has the id.
  pub position_found :
      (b : Text) (bs : List (Block Value)) (n : ℕ)
      → position b bs ≡ some n
      → (a : Block Value) × (get_elem? bs n ≡ some a) × (a.id ≡ b)
  unfolding position
  position_found b [] n h = absurd (ground (arith, h))
  position_found b (c ∷ bs) n h = elim (Bool-cases (text_eq c.id b)) [
    | inl e ↦
        let at_ : zero ≡ n = ground (arith, rw (position, e) at h) in
        rw (← at_) (c, refl, (text_eq_iff c.id b).0 e)
    | inr e ↦ elim (Option-cases (position b bs)) [
      | inl q ↦ absurd (ground (arith, rw (position, e, q) at h))
      | inr q ↦
          let at_ : suc q.0 ≡ n = ground (arith, rw (position, e, q.1) at h) in
          rw (← at_) (position_found b bs q.0 q.1)
    ]
  ]

  -- Blanking a bar takes away its content and no other.
  pub Shows-blanked :
      (n : ℕ) (bs : List (Block Value)) (b : Text) (x : ℕ) (k : Text) (v : Option Value)
      → Distinct bs
      → position b bs ≡ some n
      → Shows x k v (modify n (λ block. record block { is_blank = true }) bs)
        ↔ (Shows x k v bs × (k ≢ b))
  Shows-blanked n bs b x k v apart h =
      let here = position_found b bs n h in
      let q =
        Shows-modify n (λ block. record block { is_blank = true }) bs here.0 x k v apart here.1 in
      let q' = rw (here.2) at q in
      (
        λ m. elim (q'.0 m) [
          | inl r ↦ r
          | inr s ↦ elim s [ inl s ↦ ground (arith, s.2) | inr nothing ↦ absurd nothing ]
        ],
        λ r. q'.1 (inl r),
      )

  Beside-blanked :
      (n : ℕ) (c : Block Value) (bs : List (Block Value))
      → All (Beside c) bs
      → All (Beside c) (modify n (λ block. record block { is_blank = true }) bs)
  unfolding modify
  Beside-blanked n c [] h = tt
  Beside-blanked zero c (b ∷ bs) h = h
  Beside-blanked (suc n) c (b ∷ bs) h = (h.0, Beside-blanked n c bs h.1)

  pub Disjoint-blanked :
      (n : ℕ) (bs : List (Block Value))
      → Disjoint bs
      → Disjoint (modify n (λ block. record block { is_blank = true }) bs)
  unfolding modify
  Disjoint-blanked n [] d = tt
  Disjoint-blanked zero (b ∷ bs) d = d
  Disjoint-blanked (suc n) (b ∷ bs) d = (Beside-blanked n b bs d.0, Disjoint-blanked n bs d.1)
