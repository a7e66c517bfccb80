-- ===== src/Breath/Destructive.antt =====
-- `destructive_breath_span` overwrites exactly the edited span, neighbour by neighbour.
use thaum_painter.Base.{
  ℕ, zero, suc, ◌+◌, ◌-◌, max, ◌≤◌, ◌<◌, ◌≡◌, ◌≢◌, refl, ◌↔◌, ◌⊎◌, inl, inr, Bool, true, false,
}
use thaum_painter.Base.{
  List, [], ◌∷◌, Bool-cases, u32_max, arith, leb, ltb, ◌==◌, ◌||◌, ◌&&◌, get_elem?, some,
}
use thaum_painter.Base.{saturating_add_fits, sub32_fits, if◌then◌else◌, ◌∙◌}
use thaum_painter.Breath.{
  Span, Fate, kept, dies, crops, fate, indexed, apply_fate, destroy_neighbours, span_end_breath,
}
use thaum_painter.Breath.{DestructiveBreathSpan, destructive_breath_span}

abbrev pub InSpan : ℕ → Span → Type 0
InSpan x (start, length) = (start ≤ x) × (x < start + length)

abbrev pub InAny : ℕ → List Span → Type 0
InAny x [] = ⊥
InAny x (s ∷ ss) = InSpan x s ⊎ InAny x ss

abbrev pub SpanFits : Span → Type 0
SpanFits (start, length) = (1 ≤ length) × (start + length ≤ u32_max)

-- The breaths that a neighbour covers after its fate.
abbrev Survives : ℕ → Span → Fate → Type 0
Survives x s kept = InSpan x s
Survives x s dies = ⊥
Survives x s (crops spans) = InAny x spans

span_end_fits : (s : Span) → SpanFits s → span_end_breath s.0 s.1 ≡ s.0 + s.1
unfolding span_end_breath
span_end_fits (start, length) h = saturating_add_fits start length (omega arith)

-- The fate with the saturation and the wrap-around gone.
abbrev plain_fate : Span → Span → Fate
plain_fate (e, m) (start, length) =
    if leb (start + length) e || leb (e + m) start
    then kept
    else if leb e start && leb (start + length) (e + m)
    then dies
    else if ltb start e
    then crops (
        (start, e - start)
        ∷ (if ltb (e + m) (start + length) then (e + m, start + length - (e + m)) ∷ [] else []))
    else crops ((e + m, start + length - (e + m)) ∷ [])

fate-plain_fate :
    (edited s : Span)
    → SpanFits edited
    → SpanFits s
    → fate edited (edited.0 + edited.1) s ≡ plain_fate edited s
unfolding fate
fate-plain_fate (e, m) (start, length) h k =
    rw (span_end_fits (start, length) k)
      (ground (arith, sub32_fits e start, sub32_fits (start + length) (e + m)))

abbrev pub OutOf : ℕ → Span → Type 0
OutOf x (start, length) = (x < start) ⊎ (start + length ≤ x)

plain_fate-Survives :
    (edited s : Span) (x : ℕ)
    → SpanFits edited
    → SpanFits s
    → Survives x s (plain_fate edited s) ↔ (InSpan x s × OutOf x edited)
plain_fate-Survives (e, m) (start, length) x h k =
    elim (Bool-cases (leb (start + length) e || leb (e + m) start)) [
      | inl apart ↦ rw apart (λ p. (p, ground arith), λ p. p.0)
      | inr near ↦ elim (Bool-cases (leb e start && leb (start + length) (e + m))) [
        | inl within ↦ rw (near, within) (λ p. absurd p, λ p. ground arith)
        | inr partly ↦ elim (Bool-cases (ltb start e)) [
          | inl left ↦ elim (Bool-cases (ltb (e + m) (start + length))) [
            | inl both ↦ rw (near, partly, left, both) (λ p. ground arith, λ p. ground arith)
            | inr one ↦ rw (near, partly, left, one) (λ p. ground arith, λ p. ground arith)
          ]
          | inr right ↦ rw (near, partly, right) (λ p. ground arith, λ p. ground arith)
        ]
      ]
    ]

-- The entries of one neighbour in the result of the loop.
abbrev pub trimmed_of : ℕ → List (ℕ × Span) → List Span
trimmed_of i [] = []
trimmed_of i ((j, s) ∷ r) = if j == i then s ∷ trimmed_of i r else trimmed_of i r

abbrev pub is_removed : ℕ → List ℕ → Bool
is_removed i [] = false
is_removed i (j ∷ r) = j == i || is_removed i r

abbrev spans_of : Fate → List Span
spans_of (crops spans) = spans
spans_of _ = []

abbrev is_dies : Fate → Bool
is_dies dies = true
is_dies _ = false

trimmed_of-indexed_ne :
    (i j : ℕ) (ss : List Span) (r : List (ℕ × Span))
    → j ≢ i
    → trimmed_of i (indexed j ss r) ≡ trimmed_of i r
unfolding indexed
trimmed_of-indexed_ne i j [] r h = refl
trimmed_of-indexed_ne i j (s ∷ ss) r h = ground (arith, trimmed_of-indexed_ne i j ss r h)

trimmed_of-indexed :
    (i : ℕ) (ss : List Span) (r : List (ℕ × Span))
    → trimmed_of i r ≡ []
    → trimmed_of i (indexed i ss r) ≡ ss
unfolding indexed
trimmed_of-indexed i [] r h = h
trimmed_of-indexed i (s ∷ ss) r h = ground (arith, trimmed_of-indexed i ss r h)

abbrev Outcome : Type 0
Outcome = List (ℕ × Span) × List ℕ

-- What the result says of the neighbour `i`.
abbrev Says : ℕ → Outcome → List Span → Bool → Type 0
Says i r spans gone = (trimmed_of i r.0 ≡ spans) × (is_removed i r.1 ≡ gone)

apply_fate_ne :
    (i k : ℕ) (f : Fate) (r : Outcome) (spans : List Span) (gone : Bool)
    → k ≢ i
    → Says i r spans gone
    → Says i (apply_fate k f r) spans gone
unfolding apply_fate
apply_fate_ne i k kept r spans gone h s = s
apply_fate_ne i k dies r spans gone h s = (s.0, ground arith)
apply_fate_ne i k (crops ss) r spans gone h s = (trimmed_of-indexed_ne i k ss r.0 h ∙ s.0, s.1)

apply_fate_self :
    (i : ℕ) (f : Fate) (r : Outcome)
    → Says i r [] false
    → Says i (apply_fate i f r) (spans_of f) (is_dies f)
unfolding apply_fate
apply_fate_self i kept r s = s
apply_fate_self i dies r s = (s.0, ground arith)
apply_fate_self i (crops ss) r s = (trimmed_of-indexed i ss r.0 s.0, s.1)

-- The loop from `k` on makes no entry for an index below `k`.
destroy_neighbours_below :
    (i k : ℕ) (others : List Span) (edited : Span) (end : ℕ)
    → i < k
    → Says i (destroy_neighbours k others edited end) [] false
unfolding destroy_neighbours
destroy_neighbours_below i k [] edited end h = (refl, refl)
destroy_neighbours_below i k (s ∷ others) edited end h =
    apply_fate_ne i k (fate edited end s) _ [] false (omega arith)
      (destroy_neighbours_below i (k + 1) others edited end (omega arith))

destroy_neighbours-Says :
    (k n : ℕ) (others : List Span) (edited : Span) (end : ℕ) (s : Span)
    → get_elem? others n ≡ some s
    → Says
        (k + n)
        (destroy_neighbours k others edited end)
        (spans_of (fate edited end s))
        (is_dies (fate edited end s))
unfolding destroy_neighbours
destroy_neighbours-Says k n [] edited end s e = cc
destroy_neighbours-Says k zero (t ∷ others) edited end s e =
    let same : t ≡ s = ground arith in
    let here : k + 0 ≡ k = omega arith in
    rw (here, same)
      (apply_fate_self k (fate edited end s) _
        (destroy_neighbours_below k (k + 1) others edited end (omega arith)))
destroy_neighbours-Says k (suc n) (t ∷ others) edited end s e =
    let there : k + suc n ≡ k + 1 + n = omega arith in
    rw there (
      apply_fate_ne (k + 1 + n) k (fate edited end t) _ _ _ (omega arith)
        (destroy_neighbours-Says (k + 1) n others edited end s e))

-- The breaths that neighbour `i` of span `s` still covers after the edit: those of its remainders,
-- or its own if the result does not name it.
abbrev pub Remains : DestructiveBreathSpan → ℕ → Span → ℕ → Type 0
Remains result i s x =
    InAny x (trimmed_of i result.trimmed)
    ⊎ (trimmed_of i result.trimmed ≡ []) × (is_removed i result.removed ≡ false) × InSpan x s

Survives-Remains :
    (f : Fate) (s : Span) (x : ℕ)
    → (f ≢ crops [])
    → Survives x s f ↔ (InAny x (spans_of f) ⊎ (spans_of f ≡ []) × (is_dies f ≡ false) × InSpan x s)
Survives-Remains kept s x h = (λ p. inr (refl, refl, p), λ p. ground arith)
Survives-Remains dies s x h = (λ p. absurd p, λ p. ground arith)
Survives-Remains (crops []) s x h = absurd (h refl)
Survives-Remains (crops (t ∷ ts)) s x h = (λ p. inl p, λ p. ground arith)

plain_fate-ne-crops : (edited s : Span) → plain_fate edited s ≢ crops []
plain_fate-ne-crops (e, m) (start, length) h = ground arith

plain_fate-dies :
    (edited s : Span)
    → SpanFits edited
    → SpanFits s
    → (is_dies (plain_fate edited s) ≡ true)
      ↔ ((edited.0 ≤ s.0) × (s.0 + s.1 ≤ edited.0 + edited.1))
plain_fate-dies (e, m) (start, length) h k =
    elim (Bool-cases (leb (start + length) e || leb (e + m) start)) [
      | inl apart ↦ rw apart (λ p. cc, λ p. ground arith)
      | inr near ↦ elim (Bool-cases (leb e start && leb (start + length) (e + m))) [
        | inl within ↦ rw (near, within) (λ p. ground arith, λ p. refl)
        | inr partly ↦ elim (Bool-cases (ltb start e)) [
          | inl left ↦ rw (near, partly, left) (λ p. cc, λ p. ground arith)
          | inr right ↦ rw (near, partly, right) (λ p. cc, λ p. ground arith)
        ]
      ]
    ]

destroy_neighbours_plain :
    (others : List Span) (edited : Span) (i : ℕ) (s : Span)
    → SpanFits edited
    → SpanFits s
    → get_elem? others i ≡ some s
    → Says i
        (destroy_neighbours 0 others edited (span_end_breath edited.0 edited.1))
        (spans_of (plain_fate edited s))
        (is_dies (plain_fate edited s))
destroy_neighbours_plain others edited i s h k found =
    let here : 0 + i ≡ i = omega arith in
    let says =
      rw here at (destroy_neighbours-Says 0 i others edited (edited.0 + edited.1) s found) in
    rw (span_end_fits edited h) (rw (fate-plain_fate edited s h k) at says)

-- A destructive edit overwrites exactly the edited span: for every neighbour of at least one breath
-- that ends within `u32`, the breaths that its remainders cover afterwards are its own breaths
-- outside the edited span; and it is removed exactly when the edited span encloses it.
pub destructive_breath_span-Remains :
    (others : List Span) (requested : Span) (i : ℕ) (s : Span) (x : ℕ)
    → SpanFits (requested.0, max requested.1 1)
    → get_elem? others i ≡ some s
    → SpanFits s
    → (Remains (destructive_breath_span others requested) i s x
        ↔ (InSpan x s × OutOf x (requested.0, max requested.1 1)))
      × ((is_removed i (destructive_breath_span others requested).removed ≡ true)
          ↔ ((requested.0 ≤ s.0) × (s.0 + s.1 ≤ requested.0 + max requested.1 1)))
unfolding destructive_breath_span
destructive_breath_span-Remains others requested i s x h found k =
    let edited : Span = (requested.0, max requested.1 1) in
    let says = destroy_neighbours_plain others edited i s h k found in
    let survives = plain_fate-Survives edited s x h k in
    let remains = Survives-Remains (plain_fate edited s) s x (plain_fate-ne-crops edited s) in
    let dies = plain_fate-dies edited s h k in
    rw says.0
      (rw says.1 ((λ p. survives.0 (remains.1 p), λ p. remains.0 (survives.1 p)), (dies.0, dies.1)))
