-- ===== src/Fill/Flood/Invariant.antt =====
-- What every pass of the flood loop keeps (domain/painter-operations/fill/fill.rs,
-- `matching_region_points`).
use thaum_painter.Base.{true, List, [], ◌∷◌, ◌++◌}
use thaum_painter.Base.{
  Bool-cases, arith, ◌≡◌, ◌⊎◌, inl, inr, refl, ◌∈◌, mem-append, mem-append_cases,
}
use thaum_painter.Base.{Nodup, Nodup-snoc}
use thaum_painter.Base.Map.{Eq, member, member_iff}
use thaum_painter.Fill.Flood.{FloodState, Ground, Reach, here, step, visit, flood_from}

module _ {A : Type 0} ⦃e : Eq A⦄ (g : Ground A) (start : A) where
  -- A queued place is reached if it is inside and matches; a taken place is seen; a seen place that
  -- is inside and matches is taken; the neighbors of a taken place are seen or queued, as is the
  -- start; and no place is taken twice.
  pub record IsFlooding (s : FloodState A) : Type 0 where
    pub queued : (p : A) → p ∈ s.queue → g.inside p ≡ true → g.matches p ≡ true → Reach g start p
    pub taken_reached : (p : A) → p ∈ s.points → Reach g start p
    pub taken_seen : (p : A) → p ∈ s.points → p ∈ s.seen
    pub seen_taken : (p : A) → p ∈ s.seen → g.inside p ≡ true → g.matches p ≡ true → p ∈ s.points
    pub around_known : (p q : A) → p ∈ s.points → q ∈ g.around p → (q ∈ s.seen) ⊎ (q ∈ s.queue)
    pub start_known : (start ∈ s.seen) ⊎ (start ∈ s.queue)
    pub distinct : Nodup s.points

  pub flood_from-IsFlooding : IsFlooding (flood_from start)
  flood_from-IsFlooding = record {
    queued = λ p m i h. elim m [ inl e ↦ rw e (here (rw (← e) i) (rw (← e) h)) | inr k ↦ absurd k ];
    taken_reached = λ p m. absurd m;
    taken_seen = λ p m. absurd m;
    seen_taken = λ p m i h. absurd m;
    around_known = λ p q m k. absurd m;
    start_known = inr (inl refl);
    distinct = tt;
  }

  -- What is known of a place stays known when the front of the queue is seen.
  known :
      (p q : A) (rest seen : List A) → (q ∈ seen) ⊎ (q ∈ (p ∷ rest)) → (q ∈ (p ∷ seen)) ⊎ (q ∈ rest)
  known p q rest seen h = elim h [
    | inl k ↦ inl (inr k)
    | inr k ↦ elim k [ inl e ↦ inl (inl e) | inr m ↦ inr m ]
  ]

  module _ (p : A) (rest seen points : List A) where
    abbrev before : FloodState A
    before = record { queue = p ∷ rest; seen = seen; points = points }

    pub skip-IsFlooding :
        IsFlooding before
        → p ∈ seen
        → IsFlooding (record { queue = rest; seen = seen; points = points })
    skip-IsFlooding h m = record {
      queued = λ q k. h.queued q (inr k);
      taken_reached = h.taken_reached;
      taken_seen = h.taken_seen;
      seen_taken = h.seen_taken;
      around_known = λ r q k a. elim (h.around_known r q k a) [
        | inl s ↦ inl s
        | inr s ↦ elim s [ inl e ↦ inl (rw e m) | inr t ↦ inr t ]
      ];
      start_known = elim h.start_known [
        | inl s ↦ inl s
        | inr s ↦ elim s [ inl e ↦ inl (rw e m) | inr t ↦ inr t ]
      ];
      distinct = h.distinct;
    }

    -- A place that is not inside or does not match is seen and left.
    pub leave-IsFlooding :
        IsFlooding before
        → ¬ ((g.inside p ≡ true) × (g.matches p ≡ true))
        → IsFlooding (record { queue = rest; seen = p ∷ seen; points = points })
    leave-IsFlooding h out = record {
      queued = λ q k. h.queued q (inr k);
      taken_reached = h.taken_reached;
      taken_seen = λ q k. inr (h.taken_seen q k);
      seen_taken = λ q k i m. elim k [
        | inl e ↦ absurd (out (rw (← e) i, rw (← e) m))
        | inr s ↦ h.seen_taken q s i m
      ];
      around_known = λ r q k a. known p q rest seen (h.around_known r q k a);
      start_known = known p start rest seen h.start_known;
      distinct = h.distinct;
    }

    pub take-IsFlooding :
        IsFlooding before
        → ¬ (p ∈ seen)
        → g.inside p ≡ true
        → g.matches p ≡ true
        → IsFlooding
            (record { queue = rest ++ g.around p; seen = p ∷ seen; points = points ++ p ∷ [] })
    take-IsFlooding h new i m =
        let r = h.queued p (inl refl) i m in
        record {
          queued = λ q k i' m'. elim (mem-append_cases q rest (g.around p) k) [
            | inl old ↦ h.queued q (inr old) i' m'
            | inr near ↦ step r near i' m'
          ];
          taken_reached = λ q k. elim (mem-append_cases q points (p ∷ []) k) [
            | inl old ↦ h.taken_reached q old
            | inr now ↦ elim now [ inl e ↦ rw e r | inr z ↦ absurd z ]
          ];
          taken_seen = λ q k. elim (mem-append_cases q points (p ∷ []) k) [
            | inl old ↦ inr (h.taken_seen q old)
            | inr now ↦ elim now [ inl e ↦ inl e | inr z ↦ absurd z ]
          ];
          seen_taken = λ q k i' m'. elim k [
            | inl e ↦ mem-append q points (p ∷ []) (inr (inl e))
            | inr s ↦ mem-append q points (p ∷ []) (inl (h.seen_taken q s i' m'))
          ];
          around_known = λ t q k a. elim (mem-append_cases t points (p ∷ []) k) [
            | inl old ↦ elim (known p q rest seen (h.around_known t q old a)) [
              | inl s ↦ inl s
              | inr s ↦ inr (mem-append q rest (g.around p) (inl s))
            ]
            | inr now ↦ elim now [
              | inl e ↦ inr (mem-append q rest (g.around p) (inr (rw (← e) a)))
              | inr z ↦ absurd z
            ]
          ];
          start_known = elim (known p start rest seen h.start_known) [
            | inl s ↦ inl s
            | inr s ↦ inr (mem-append start rest (g.around p) (inl s))
          ];
          distinct = Nodup-snoc points p h.distinct (λ k. new (h.taken_seen p k));
        }

    pub visit-IsFlooding : IsFlooding before → IsFlooding (visit g p rest before)
    unfolding visit
    visit-IsFlooding h = elim (Bool-cases (member p seen)) [
      | inl s ↦ rw s (skip-IsFlooding h ((member_iff p seen).0 s))
      | inr s ↦ elim (Bool-cases (g.inside p)) [
        | inr i ↦ rw (s, i) (leave-IsFlooding h (λ k. grind arith))
        | inl i ↦ elim (Bool-cases (g.matches p)) [
          | inr m ↦ rw (s, i, m) (leave-IsFlooding h (λ k. grind arith))
          | inl m ↦
              rw (s, i, m) (take-IsFlooding h (λ k. grind (arith, (member_iff p seen).1 k)) i m)
        ]
      ]
    ]
