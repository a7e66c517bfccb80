-- ===== src/Fill/Flood/Reached.antt =====
-- What a flood returns (domain/painter-operations/fill/fill.rs, `matching_region_points`).
use thaum_painter.Base.{ℕ, zero, suc, ◌+◌, ◌≤◌, true, some, List, [], ◌∷◌}
use thaum_painter.Base.{arith, ◌≡◌, ◌↔◌, inl, inr, refl, length, ◌∈◌, Nodup}
use thaum_painter.Base.Map.{Eq}
use thaum_painter.Fill.Flood.{Ground, Reach, here, step, visit, flood, flood_from}
use thaum_painter.Fill.Flood.Invariant.{IsFlooding, visit-IsFlooding, flood_from-IsFlooding}
use thaum_painter.Fill.Flood.Fuel.{weigh, load-visit}

module _ {A : Type 0} ⦃e : Eq A⦄ (g : Ground A) (start : A) where
  -- The places that a flood has taken once its queue is empty: those it reaches, each once.
  pub record IsReached (points : List A) : Type 0 where
    pub complete : (p : A) → (p ∈ points) ↔ Reach g start p
    pub distinct : Nodup points

  reach-taken :
      (seen points : List A)
      → IsFlooding g start (record { queue = []; seen = seen; points = points })
      → (p : A) → Reach g start p
      → p ∈ points
  reach-taken seen points h p (here i m) = elim h.start_known [
    | inl s ↦ h.seen_taken start s i m
    | inr z ↦ absurd z
  ]
  reach-taken seen points h p (step {p = q} r a i m) =
      elim (h.around_known q p (reach-taken seen points h q r) a) [
        | inl s ↦ h.seen_taken p s i m
        | inr z ↦ absurd z
      ]

  module _ (region : List A) (within : (p : A) → g.inside p ≡ true → p ∈ region)
      (few : (p : A) → length (g.around p) ≤ 27) where
    flood-total :
        (fuel : ℕ) (queue seen points : List A)
        → length queue + weigh region seen ≤ fuel
        → IsFlooding g start (record { queue = queue; seen = seen; points = points })
        → (ps : List A) × (flood g fuel (record { queue = queue; seen = seen; points = points })
            ≡ some ps)
          × IsReached ps
    unfolding flood
    flood-total zero [] seen points n h = (
      points,
      refl,
      record {
        complete = λ p. (h.taken_reached p, reach-taken seen points h p);
        distinct = h.distinct;
      },
    )
    flood-total (suc fuel) [] seen points n h = (
      points,
      refl,
      record {
        complete = λ p. (h.taken_reached p, reach-taken seen points h p);
        distinct = h.distinct;
      },
    )
    flood-total zero (p ∷ rest) seen points n h = absurd (omega (arith, n))
    flood-total (suc fuel) (p ∷ rest) seen points n h =
        let s = visit g p rest (record { queue = p ∷ rest; seen = seen; points = points }) in
        flood-total fuel s.queue s.seen s.points
          (ground (arith, load-visit g region within few p rest seen points, n))
          (visit-IsFlooding g start p rest seen points h)

    pub flood-IsReached :
        (ps : List A) × (flood g (suc (weigh region [])) (flood_from start) ≡ some ps)
        × IsReached ps
    flood-IsReached =
        flood-total (suc (weigh region [])) (start ∷ []) [] [] (ground arith)
          (flood_from-IsFlooding g start)
