-- ===== src/Track/Edit/Swapped.antt =====
-- What the bars show after two of them swapped their spans, and that bars that lie beside each other
-- still do (domain/file/storage/storage.rs, `swap_property_blocks`).
use thaum_painter.Base.{
  ℕ, zero, suc, ◌≡◌, ◌≢◌, ◌↔◌, ◌⊎◌, inl, inr, refl, sym, ◌∙◌, Option, some, List, [], ◌∷◌, All,
  get_elem?, if◌then◌else◌, ◌==◌, arith, Bool-cases,
}
use thaum_painter.Base.Text.{Text}
use thaum_painter.Track.Block.{SharedDocumentPropertyBlock as Block}
use thaum_painter.Track.Tiling.{Shows}
use thaum_painter.Track.Tiling.Names.{Distinct}
use thaum_painter.Track.Tiling.Clip.{Beside, Disjoint}
use thaum_painter.Track.Edit.{modify, with_span, swap_spans}
use thaum_painter.Track.Edit.Contents.{
  Shows-modify, get_elem-modify, get_elem-modify_self, Distinct-modify,
}

module _ {Value : Type 0} where
  -- Bars with the spans of others, at any two indices.
  All-get_elem :
      (P : Block Value → Type 0) (n : ℕ) (bs : List (Block Value)) (b : Block Value)
      → All P bs
      → get_elem? bs n ≡ some b
      → P b
  All-get_elem P n [] b h e = absurd (ground arith)
  All-get_elem P zero (c ∷ bs) b h e = let s : c ≡ b = cc e in rw (← s) h.0
  All-get_elem P (suc n) (c ∷ bs) b h e = All-get_elem P n bs b h.1 e

  All-at :
      (P : Block Value → Type 0) (bs : List (Block Value))
      → ((n : ℕ) (b : Block Value) → get_elem? bs n ≡ some b → P b)
      → All P bs
  All-at P [] h = tt
  All-at P (b ∷ bs) h = (h 0 b refl, All-at P bs (λ n c e. h (suc n) c e))

  Disjoint-get_elem :
      (m n : ℕ) (bs : List (Block Value)) (b c : Block Value)
      → Disjoint bs
      → m ≢ n
      → get_elem? bs m ≡ some b
      → get_elem? bs n ≡ some c
      → Beside b c
  Disjoint-get_elem m n [] b c d h e f = absurd (ground arith)
  Disjoint-get_elem zero zero (a ∷ bs) b c d h e f = absurd (h refl)
  Disjoint-get_elem zero (suc n) (a ∷ bs) b c d h e f =
      let s : a ≡ b = cc e in rw (← s) (All-get_elem (Beside a) n bs c d.0 f)
  Disjoint-get_elem (suc m) zero (a ∷ bs) b c d h e f =
      let s : a ≡ c = cc f in
      elim (All-get_elem (Beside a) m bs b d.0 e) [
        | inl k ↦ inr (rw (← s) k)
        | inr k ↦ inl (rw (← s) k)
      ]
  Disjoint-get_elem (suc m) (suc n) (a ∷ bs) b c d h e f =
      Disjoint-get_elem m n bs b c d.1 (λ s. h (omega (arith, s))) e f

  Disjoint-at :
      (bs : List (Block Value))
      → ((m n : ℕ) (b c : Block Value)
          → m ≢ n
          → get_elem? bs m ≡ some b
          → get_elem? bs n ≡ some c
          → Beside b c)
      → Disjoint bs
  Disjoint-at [] h = tt
  Disjoint-at (b ∷ bs) h = (
    All-at (Beside b) bs (λ n c e. h 0 (suc n) b c (λ s. omega (arith, s)) refl e),
    Disjoint-at bs (λ m n c d k. h (suc m) (suc n) c d (λ s. k (omega (arith, s)))),
  )

  module _ (i j : ℕ) (bs : List (Block Value)) (one two : Block Value)
      (one_at : get_elem? bs i ≡ some one) (two_at : get_elem? bs j ≡ some two)
      (other : i ≢ j) where
    -- The two bars, each on the span of the other.
    abbrev pub moved_one : Block Value
    moved_one = with_span two.start_breath two.length_breaths one

    abbrev pub moved_two : Block Value
    moved_two = with_span one.start_breath one.length_breaths two

    abbrev half_swapped : List (Block Value)
    half_swapped = modify i (with_span two.start_breath two.length_breaths) bs

    swap_spans_lem :
        swap_spans i j bs ≡ modify j (with_span one.start_breath one.length_breaths) half_swapped
    unfolding swap_spans
    swap_spans_lem = rw (swap_spans, one_at, two_at) refl

    half_two_at : get_elem? half_swapped j ≡ some two
    half_two_at =
        get_elem-modify i j (with_span two.start_breath two.length_breaths) bs other ∙ two_at

    -- Whose span the bar at an index has after the swap.
    abbrev source_of : ℕ → ℕ
    source_of m = if m == j then i else if m == i then j else m

    record HasSpanOf (m : ℕ) (c : Block Value) : Type 0 where
      from : Block Value
      from_at : get_elem? bs (source_of m) ≡ some from
      starts : c.start_breath ≡ from.start_breath
      lasts : c.length_breaths ≡ from.length_breaths

    swapped_span :
        (m : ℕ) (c : Block Value) → get_elem? (swap_spans i j bs) m ≡ some c → HasSpanOf m c
    swapped_span m c h =
        let h' = rw swap_spans_lem at h in
        let last : Block Value → Block Value = with_span one.start_breath one.length_breaths in
        let first : Block Value → Block Value = with_span two.start_breath two.length_breaths in
        elim (Bool-cases (m == j)) [
          | inl e ↦
              let here : m ≡ j = ground (arith, e) in
              let now : some moved_two ≡ some c =
                sym (get_elem-modify_self j last half_swapped two half_two_at) ∙ rw here at h' in
              let same : moved_two ≡ c = cc now in
              record {
                from = one;
                from_at = rw e one_at;
                starts = rw (← same) refl;
                lasts = rw (← same) refl;
              }
          | inr e ↦
              let away : j ≢ m = λ s. ground (arith, e, s) in
              let h'' = sym (get_elem-modify j m last half_swapped away) ∙ h' in
              elim (Bool-cases (m == i)) [
                | inl f ↦
                    let here : m ≡ i = ground (arith, f) in
                    let now : some moved_one ≡ some c =
                      sym (get_elem-modify_self i first bs one one_at) ∙ rw here at h'' in
                    let same : moved_one ≡ c = cc now in
                    record {
                      from = two;
                      from_at = rw (e, f) two_at;
                      starts = rw (← same) refl;
                      lasts = rw (← same) refl;
                    }
                | inr f ↦
                    let apart : i ≢ m = λ s. ground (arith, f, s) in
                    record {
                      from = c;
                      from_at = rw (e, f) (sym (get_elem-modify i m first bs apart) ∙ h'');
                      starts = refl;
                      lasts = refl;
                    }
              ]
        ]

    pub Disjoint-swap_spans : Disjoint bs → Disjoint (swap_spans i j bs)
    Disjoint-swap_spans d = Disjoint-at (swap_spans i j bs) (λ m n b c h e f.
        let p = swapped_span m b e in
        let q = swapped_span n c f in
        let far : source_of m ≢ source_of n = λ s. ground (arith, s, h, other) in
        let beside =
          Disjoint-get_elem (source_of m) (source_of n) bs p.from q.from d far p.from_at
            q.from_at in
        rw (p.starts, p.lasts, q.starts, q.lasts) beside)

    -- After the swap each of the two bars shows its content on the span of the other, and the other
    -- bars show theirs where they did.
    pub Shows-swap_spans :
        (x : ℕ) (k : Text) (v : Option Value)
        → Distinct bs
        → one.id ≢ two.id
        → Shows x k v (swap_spans i j bs) ↔ (
            (Shows x k v bs × (k ≢ one.id) × (k ≢ two.id))
            ⊎ Shows x k v (moved_one ∷ moved_two ∷ []))
    Shows-swap_spans x k v apart differ =
        let first : Block Value → Block Value = with_span two.start_breath two.length_breaths in
        let last : Block Value → Block Value = with_span one.start_breath one.length_breaths in
        let outer =
          Shows-modify j last half_swapped two x k v (Distinct-modify i first bs (λ b. refl) apart)
            half_two_at in
        let inner = Shows-modify i first bs one x k v apart one_at in
        rw swap_spans_lem (
          λ m. elim (outer.0 m) [
            | inl h ↦ elim (inner.0 h.0) [
              | inl g ↦ inl (g.0, g.1, h.1)
              | inr g ↦ elim g [ inl s ↦ inr (inl s) | inr nothing ↦ absurd nothing ]
            ]
            | inr g ↦ inr (inr g)
          ],
          λ m. elim m [
            | inl h ↦ outer.1 (inl (inner.1 (inl (h.0, h.1)), h.2))
            | inr g ↦ elim g [
              | inl s ↦ outer.1 (inl (inner.1 (inr (inl s)), λ e. differ (s.3 ∙ e)))
              | inr g ↦ outer.1 (inr g)
            ]
          ],
        )
