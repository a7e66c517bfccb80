-- ===== src/History/Runs.antt =====
-- The patches of the actions on the stacks stay known under undo and redo
-- (domain/file/storage/storage.rs).
use thaum_painter.Base.{[], ◌≡◌, refl, arith, ◌⊎◌, inl, inr, Option-cases}
use thaum_painter.Base.Text.{Text, text_Eq}
use thaum_painter.Base.Map.{get}
use thaum_painter.Cell.{Renderer}
use thaum_painter.History.{HistoryRuntime, stack, with_stack, push, pop}
use thaum_painter.History.Apply.{undo_record, redo_record}
use thaum_painter.History.Undo.{undo_top_action, redo_top_action}
use thaum_painter.History.Recorded.{
  Recorded, mem-pop, mem-push, written, written_applied, written_undone,
}

module _ {R : Renderer} {Value : Type 0} where
  pub undo_record-Recorded :
      (r : HistoryRuntime R Value) (l : Text) → Recorded r → Recorded (undo_record r l)
  unfolding undo_record with_stack
  undo_record-Recorded r l known =
      let ap = r.applied_action_ids_by_layer in
      let un = r.undone_action_ids_by_layer in
      let ps = r.patches_by_action_id in
      elim (Option-cases (pop (stack l ap))) [
        | inl e ↦ rw (undo_record, e) (written_applied ap un l ps [] known (λ id h. absurd h))
        | inr e ↦
            let top = e.0 in
            let out = mem-pop (stack l ap) top e.1 in
            elim (Option-cases (get top.1 ps)) [
              | inl k ↦
                  rw (undo_record, e.1, k)
                    (written_applied ap un l ps top.0 known (λ id h. inl (out.1 id h)))
              | inr k ↦
                  rw (undo_record, e.1, k.1)
                    (written ap un l ps top.0 (push top.1 (stack l un)) known
                      (λ id h. ground (arith, h, out.0, out.1 id, mem-push id top.1 (stack l un))))
            ]
      ]

  pub redo_record-Recorded :
      (r : HistoryRuntime R Value) (l : Text) → Recorded r → Recorded (redo_record r l)
  unfolding redo_record with_stack
  redo_record-Recorded r l known =
      let ap = r.applied_action_ids_by_layer in
      let un = r.undone_action_ids_by_layer in
      let ps = r.patches_by_action_id in
      elim (Option-cases (pop (stack l un))) [
        | inl e ↦ rw (redo_record, e) (written_undone ap un l ps [] known (λ id h. absurd h))
        | inr e ↦
            let top = e.0 in
            let out = mem-pop (stack l un) top e.1 in
            elim (Option-cases (get top.1 ps)) [
              | inl k ↦
                  rw (redo_record, e.1, k)
                    (written_undone ap un l ps top.0 known (λ id h. inr (out.1 id h)))
              | inr k ↦
                  rw (redo_record, e.1, k.1)
                    (written ap un l ps (push top.1 (stack l ap)) top.0 known
                      (λ id h. ground (arith, h, out.0, out.1 id, mem-push id top.1 (stack l ap))))
            ]
      ]

  -- The live undo changes the stacks as a legacy undo record does, where the layer has a stack.
  pub undo_top_action_as :
      (r : HistoryRuntime R Value) (l : Text)
      → ((undo_top_action r l).0 ≡ r) ⊎ ((undo_top_action r l).0 ≡ undo_record r l)
  unfolding undo_top_action undo_record stack
  undo_top_action_as r l = elim (Option-cases (get l r.applied_action_ids_by_layer)) [
    | inl e ↦ inl (rw (undo_top_action, e) refl)
    | inr e ↦ elim (Option-cases (pop e.0)) [
      | inl k ↦ inl (rw (undo_top_action, e.1, k) refl)
      | inr k ↦ elim (Option-cases (get (k.0).1 r.patches_by_action_id)) [
        | inl n ↦ inr (rw (undo_top_action, undo_record, stack, e.1, k.1, n) refl)
        | inr n ↦ inr (rw (undo_top_action, undo_record, stack, e.1, k.1, n.1) refl)
      ]
    ]
  ]

  pub redo_top_action_as :
      (r : HistoryRuntime R Value) (l : Text)
      → ((redo_top_action r l).0 ≡ r) ⊎ ((redo_top_action r l).0 ≡ redo_record r l)
  unfolding redo_top_action redo_record stack
  redo_top_action_as r l = elim (Option-cases (get l r.undone_action_ids_by_layer)) [
    | inl e ↦ inl (rw (redo_top_action, e) refl)
    | inr e ↦ elim (Option-cases (pop e.0)) [
      | inl k ↦ inl (rw (redo_top_action, e.1, k) refl)
      | inr k ↦ elim (Option-cases (get (k.0).1 r.patches_by_action_id)) [
        | inl n ↦ inr (rw (redo_top_action, redo_record, stack, e.1, k.1, n) refl)
        | inr n ↦ inr (rw (redo_top_action, redo_record, stack, e.1, k.1, n.1) refl)
      ]
    ]
  ]
