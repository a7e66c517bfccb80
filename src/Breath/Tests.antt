-- ===== src/Breath/Tests.antt =====
-- Runs of the span edits, and the theorems at concrete spans.
use thaum_painter.Base.{◌+◌, max, ◌≤◌, ◌≡◌, refl, ◌↔◌, true, List, [], ◌∷◌, arith}
use thaum_painter.Base.{sub32, saturating_add}
use thaum_painter.Base.Int.{◌+ℤ◌, ◌-ℤ◌}
use thaum_painter.Breath.{Span, destructive_breath_span, pushed_breath_span}
use thaum_painter.Breath.Destructive.{InSpan, OutOf, Remains, is_removed}
use thaum_painter.Breath.Destructive.{destructive_breath_span-Remains}

abbrev neighbours : List Span
neighbours = (4, 8) ∷ (20, 4) ∷ (40, 4) ∷ []

destructive_runs :
    destructive_breath_span neighbours (8, 20)
    ≡ record { edited = (8, 20); trimmed = (0, (4, 4)) ∷ []; removed = 1 ∷ [] }
unfolding destructive_breath_span saturating_add sub32
destructive_runs = refl

pushed_runs :
    pushed_breath_span ((0, 8) ∷ (20, 8) ∷ (40, 4) ∷ []) (8, 4) (8, 12)
    ≡ record { edited = (8, 12); shifted = (1, (28, 8)) ∷ (2, (48, 4)) ∷ [] }
unfolding pushed_breath_span saturating_add ◌+ℤ◌ ◌-ℤ◌
pushed_runs = refl

destructive_breath_span-Remains_example :
    (Remains (destructive_breath_span neighbours (8, 20)) 0 (4, 8) 5
      ↔ (InSpan 5 (4, 8) × OutOf 5 (8, max 20 1)))
    × ((is_removed 0 (destructive_breath_span neighbours (8, 20)).removed ≡ true)
        ↔ ((8 ≤ 4) × (4 + 8 ≤ 8 + max 20 1)))
destructive_breath_span-Remains_example =
    destructive_breath_span-Remains neighbours (8, 20) 0 (4, 8) 5 (omega arith) refl (omega arith)
