-- ===== src/Fill/Paint.antt =====
-- What a fill does to the canvas (domain/painter-operations/fill/fill.rs, `flood_fill_with`), and the
-- stored names of the connectivities (`FillConnectivity::id`, `FillConnectivity::from_id`).
use thaum_painter.Base.{not, ◌&&◌, some, List, [], ◌∷◌, Bool-cases, if◌then◌else◌}
use thaum_painter.Base.{arith, ◌≡◌, ◌↔◌, inl, inr, refl}
use thaum_painter.Base.Text.{Text, codes, text_eq, text_eq_iff}
use thaum_painter.Base.Map.{get, insert, member, get-insert}
use thaum_painter.Cell.{CellPoint, point_Eq, Renderer, Canvas, PaintedCell, stored_eq}
use thaum_painter.Plane.{CanvasBounds}
use thaum_painter.Fill.{
  FillConnectivity, adjacent, diagonal, all, FillDepthMode, FillChannelMask, id, from_id,
}
use thaum_painter.Fill.{flood_fill_points_with, insert_all, flood_fill_with}
use thaum_painter.Fill.Points.{flood_fill_points_with-total}

from_id-id : (c : FillConnectivity) → from_id (id c) ≡ some c
unfolding from_id id text_eq
from_id-id adjacent = refl
from_id-id diagonal = refl
from_id-id all = refl

id-from_id : (text : Text) (c : FillConnectivity) → from_id text ≡ some c → text ≡ id c
unfolding from_id id
id-from_id text adjacent h = ground (arith, text_eq_iff text (codes "adjacent"))
id-from_id text diagonal h = ground (arith, text_eq_iff text (codes "diagonal"))
id-from_id text all h = ground (arith, text_eq_iff text (codes "all"))

-- A connectivity is read back from its stored name, and nothing else reads as it.
pub from_id_lem : (text : Text) (c : FillConnectivity) → (from_id text ≡ some c) ↔ (text ≡ id c)
from_id_lem text c = (id-from_id text c, λ h. rw h (from_id-id c))

module _ {R : Renderer} where
  get-insert_all :
      (canvas : Canvas R) (cell : PaintedCell R) (points : List CellPoint) (p : CellPoint)
      → get p (insert_all canvas cell points)
        ≡ (if member p points then some cell else get p canvas)
  unfolding insert_all member
  get-insert_all canvas cell [] p = refl
  get-insert_all canvas cell (q ∷ points) p =
      ground
        (arith, get-insert_all (insert q cell canvas) cell points p, get-insert q p cell canvas)

  -- A fill ends. If the start already holds the replacement, the canvas stays as it is; otherwise
  -- each point that the fill takes holds the replacement, and every other point what it held.
  pub get-flood_fill_with :
      (canvas : Canvas R) (start : CellPoint) (bounds : CanvasBounds) (replacement : PaintedCell R)
      (connectivity : FillConnectivity) (mask : FillChannelMask) (depth : FillDepthMode)
      → (after : Canvas R) × (ps : List CellPoint) × (flood_fill_with canvas start bounds
            replacement connectivity mask depth
          ≡ some after)
        × (flood_fill_points_with canvas start bounds connectivity mask depth ≡ some ps)
        × ((p : CellPoint)
            → get p after ≡ (
                if not (stored_eq (get start canvas) replacement) && member p ps
                then some replacement
                else get p canvas))
  unfolding flood_fill_with
  get-flood_fill_with canvas start bounds replacement connectivity mask depth =
      let f = flood_fill_points_with-total canvas start bounds connectivity mask depth in
      elim (Bool-cases (stored_eq (get start canvas) replacement)) [
        | inl e ↦ (canvas, f.0, rw e refl, f.1, λ p. rw e refl)
        | inr e ↦ (
          insert_all canvas replacement f.0,
          f.0,
          rw (e, f.1) refl,
          f.1,
          λ p. rw e (get-insert_all canvas replacement f.0 p),
        )
      ]
