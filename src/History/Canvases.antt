-- ===== src/History/Canvases.antt =====
-- Patches read back cell by cell (domain/file/storage/storage.rs, `apply_patches`).
use thaum_painter.Base.{
  Bool, true, false, ◌||◌, ◌⊎◌, Option, none, some, List, [], ◌∷◌, map, ◌≡◌, refl, sym, ◌∙◌,
  if◌then◌else◌, arith, All, Nodup, ◌∈◌, Bool-cases, Option-cases, inl, inr,
}
use thaum_painter.Base.Map.{get, get-insert, get-remove}
use thaum_painter.Cell.{CellPoint, Renderer, PaintedCell, Canvas, point_eq, point_eq_iff, point_Eq}
use thaum_painter.Cell.Stored.{
  PersistedSharedPaintedCell, to_runtime, from_runtime, StoresPayloads, to_runtime-from_runtime,
}
use thaum_painter.History.{SharedCellPatch, inverse, patch_of}
use thaum_painter.History.Patches.{PatchDirection, patch_value, apply_patch, apply_patches}
use thaum_painter.History.Fold.{canvas_patches}

-- Whether a patch is at a point.
unfoldable pub touches : CellPoint → List SharedCellPatch → Bool
touches q [] = false
touches q (patch ∷ patches) = point_eq patch.position q || touches q patches

module _ {R : Renderer} where
  abbrev pub loaded : Option PersistedSharedPaintedCell → Option (PaintedCell R)
  loaded none = none
  loaded (some cell) = some (to_runtime cell)

  get-apply_patch :
      (canvas : Canvas R) (p q : CellPoint) (value : Option PersistedSharedPaintedCell)
      → get q (apply_patch canvas p value) ≡ (if point_eq p q then loaded value else get q canvas)
  unfolding apply_patch
  get-apply_patch canvas p q none = get-remove p q canvas
  get-apply_patch canvas p q (some cell) = get-insert p q (to_runtime cell) canvas

  -- Patches keep the cells elsewhere, and what they write does not depend on what was there.
  pub get-apply_patches_elsewhere :
      (direction : PatchDirection) (q : CellPoint) (patches : List SharedCellPatch) (c : Canvas R)
      → touches q patches ≡ false
      → get q (apply_patches c patches direction) ≡ get q c
  unfolding apply_patches touches
  get-apply_patches_elsewhere direction q [] c h = refl
  get-apply_patches_elsewhere direction q (patch ∷ patches) c h = ground (
    arith,
    get-apply_patches_elsewhere direction q patches
        (apply_patch c patch.position (patch_value direction patch)),
    get-apply_patch c patch.position q (patch_value direction patch),
  )

  pub get-apply_patches_there :
      (direction : PatchDirection) (q : CellPoint) (patches : List SharedCellPatch) (c d : Canvas R)
      → (touches q patches ≡ true) ⊎ (get q c ≡ get q d)
      → get q (apply_patches c patches direction) ≡ get q (apply_patches d patches direction)
  unfolding apply_patches touches
  get-apply_patches_there direction q [] c d h = ground (arith, h)
  get-apply_patches_there direction q (patch ∷ patches) c d h =
      get-apply_patches_there direction q patches
        (apply_patch c patch.position (patch_value direction patch))
        (apply_patch d patch.position (patch_value direction patch))
        (ground (
          arith,
          h,
          get-apply_patch c patch.position q (patch_value direction patch),
          get-apply_patch d patch.position q (patch_value direction patch),
        ))

  -- The patches start from a canvas: each `before` is the cell that stands there.
  abbrev pub StartFrom : Canvas R → List SharedCellPatch → Type 0
  StartFrom c patches = All (λ patch. get patch.position c ≡ loaded patch.before) patches

  get-before :
      (q : CellPoint) (patches : List SharedCellPatch) (c d : Canvas R)
      → StartFrom c patches
      → touches q patches ≡ true ⊎ get q d ≡ get q c
      → get q (apply_patches d patches PatchDirection.before) ≡ get q c
  unfolding apply_patches patch_value touches
  get-before q [] c d s h = ground (arith, h)
  get-before q (patch ∷ patches) c d s h =
      get-before q patches c (apply_patch d patch.position patch.before) s.1
        (elim (Bool-cases (point_eq patch.position q)) [
          | inl t ↦ inr (
              get-apply_patch d patch.position q patch.before
              ∙ rw t (sym s.0 ∙ rw ((point_eq_iff patch.position q).0 t) refl))
          | inr t ↦ ground (arith, h, t, get-apply_patch d patch.position q patch.before)
        ])

  -- The values before, after those after: the canvas that the patches started from.
  pub undone_cell :
      (q : CellPoint) (patches : List SharedCellPatch) (c : Canvas R)
      → StartFrom c patches
      → get q (
          apply_patches
            (apply_patches c patches PatchDirection.after)
            patches
            PatchDirection.before)
        ≡ get q c
  undone_cell q patches c s =
      get-before q patches c (apply_patches c patches PatchDirection.after) s
        (elim (Bool-cases (touches q patches)) [
          | inl t ↦ inl t
          | inr t ↦ inr (get-apply_patches_elsewhere PatchDirection.after q patches c t)
        ])

  -- Values written over what any patches of the same points wrote.
  pub rewritten_cell :
      (d : PatchDirection) (q : CellPoint) (patches : List SharedCellPatch) (c : Canvas R)
      → get q (apply_patches (apply_patches c patches d) patches PatchDirection.after)
        ≡ get q (apply_patches c patches PatchDirection.after)
  rewritten_cell d q patches c =
      get-apply_patches_there PatchDirection.after q patches (apply_patches c patches d) c
        (elim (Bool-cases (touches q patches)) [
          | inl t ↦ inl t
          | inr t ↦ inr (get-apply_patches_elsewhere d q patches c t)
        ])

  -- Patches turned around write the values before.
  pub apply_patches-inverse :
      (patches : List SharedCellPatch) (c : Canvas R)
      → apply_patches c (map inverse patches) PatchDirection.after
        ≡ apply_patches c patches PatchDirection.before
  unfolding apply_patches inverse patch_value
  apply_patches-inverse [] c = refl
  apply_patches-inverse (patch ∷ patches) c =
      apply_patches-inverse patches (apply_patch c patch.position patch.before)

  abbrev pub points_of : Canvas R → List CellPoint
  points_of c = map (λ (entry : CellPoint × PaintedCell R). entry.0) c

  get_missing : (q : CellPoint) (c : Canvas R) → ¬ (q ∈ points_of c) → get q c ≡ none
  unfolding get
  get_missing q [] h = refl
  get_missing q ((p, cell) ∷ c) h = ground (arith, get_missing q c, h, point_eq_iff p q)

  -- The patches of a whole canvas make its cells again.
  pub get-canvas_patches :
      (laws : StoresPayloads R) (q : CellPoint) (c d : Canvas R)
      → Nodup (points_of c)
      → get q (apply_patches d (canvas_patches c) PatchDirection.after)
        ≡ elim (get q c) [ none ↦ get q d | some cell ↦ some cell ]
  unfolding apply_patches canvas_patches patch_of patch_value get
  get-canvas_patches laws q [] d n = refl
  get-canvas_patches laws q ((p, cell) ∷ c) d n =
      let next : Canvas R = apply_patch d p (some (from_runtime cell)) in
      let here : get q next ≡ (if point_eq p q then some cell else get q d) =
        get-apply_patch d p q (some (from_runtime cell))
        ∙ rw (to_runtime-from_runtime laws cell) refl in
      let ih = get-canvas_patches laws q c next n.1 in
      elim (Bool-cases (point_eq p q)) [
        | inl t ↦
            let gone : get q c ≡ none = get_missing q c (rw (← (point_eq_iff p q).0 t) n.0) in
            ih ∙ rw (gone, here, t) refl
        | inr t ↦ elim (Option-cases (get q c)) [
          | inl e ↦ ih ∙ rw (e, here, t) refl
          | inr e ↦ ih ∙ rw (e.1, t) refl
        ]
      ]
