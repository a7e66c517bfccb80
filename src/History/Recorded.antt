-- ===== src/History/Recorded.antt =====
-- The patches of the actions on the stacks stay known through every run of a runtime
-- (domain/file/storage/storage.rs).
use thaum_painter.Base.{
  true, none, some, List, [], ◌∷◌, filter, if◌then◌else◌, is_some, ◌≡◌, refl, sym, arith, ◌∈◌, ◌⊎◌,
  inl, inr, mem-append_cases, Bool-cases, Option-cases,
}
use mathlib.Core.Path.{subst}
use thaum_painter.Base.Text.{Text, contains, text_Eq, text_eq, text_eq_iff}
use thaum_painter.Base.Map.{get, insert, get-insert}
use thaum_painter.Cell.{Renderer}
use thaum_painter.History.{AppliedCellPatches, HistoryRuntime, Stacks, stack, with_stack, push, pop}
use thaum_painter.History.Apply.{record_stroke, move_reverted, take_out}

-- Whether an action stands on a stack of some layer.
abbrev pub Held : Text → Stacks → Stacks → Type 0
Held id applied undone = (l : Text) × ((id ∈ stack l applied) ⊎ (id ∈ stack l undone))

-- Every action on a stack has its patches recorded.
abbrev pub IsRecorded : Stacks → Stacks → List (Text × AppliedCellPatches) → Type 0
IsRecorded applied undone patches =
    (id : Text) → Held id applied undone → is_some (get id patches) ≡ true

mem-insert :
    (id l m : Text) (ids : List Text) (s : Stacks)
    → id ∈ stack m (insert l ids s)
    → (id ∈ ids) ⊎ (id ∈ stack m s)
unfolding stack
mem-insert id l m ids s h = elim (Bool-cases (text_eq l m)) [
  | inl e ↦ inl (rw (stack, get-insert l m ids s, e) at h)
  | inr e ↦ inr (rw (stack, get-insert l m ids s, e) at h)
]

pub mem-push : (id a : Text) (ids : List Text) → id ∈ push a ids → (id ∈ ids) ⊎ (id ≡ a)
mem-push id a ids h = ground (arith, mem-append_cases id ids (a ∷ []) h)

pub mem-pop :
    (ids : List Text) (top : List Text × Text)
    → pop ids ≡ some top
    → (top.1 ∈ ids) × ((id : Text) → id ∈ top.0 → id ∈ ids)
unfolding pop
mem-pop [] top h = ground (arith, h)
mem-pop (x ∷ xs) top h = elim (Option-cases (pop xs)) [
  | inl e ↦
      let same : top ≡ ([], x) = ground (arith, rw (pop, e) at h) in
      rw same (inl refl, λ id m. absurd m)
  | inr e ↦
      let ih = mem-pop xs e.0 e.1 in
      let same : top ≡ (x ∷ (e.0).0, (e.0).1) = ground (arith, rw (pop, e.1) at h) in
      subst (λ (t : List Text × Text). (t.1 ∈ x ∷ xs) × ((id : Text) → id ∈ t.0 → id ∈ x ∷ xs))
        (sym same) (inr ih.0, λ id m. elim m [ inl k ↦ inl k | inr k ↦ inr (ih.1 id k) ])
]

mem-take_out :
    (a : Text) (ids rest : List Text)
    → take_out a ids ≡ some rest
    → (a ∈ ids) × ((id : Text) → id ∈ rest → id ∈ ids)
unfolding take_out
mem-take_out a [] rest h = ground (arith, h)
mem-take_out a (x ∷ xs) rest h = elim (Bool-cases (text_eq x a)) [
  | inl t ↦
      let same : rest ≡ xs = ground (arith, rw (take_out, t) at h) in
      rw same (inl (sym ((text_eq_iff x a).0 t)), λ id m. inr m)
  | inr t ↦ elim (Option-cases (take_out a xs)) [
    | inl e ↦ ground (arith, h, e, t)
    | inr e ↦
        let ih = mem-take_out a xs e.0 e.1 in
        let same : rest ≡ x ∷ e.0 = ground (arith, rw (take_out, t, e.1) at h) in
        rw same (inr ih.0, λ id m. elim m [ inl k ↦ inl k | inr k ↦ inr (ih.1 id k) ])
  ]
]

module _ {A : Type 0} where
  get-filter :
      (ls : List Text) (m : Text) (s : List (Text × A))
      → get m (filter (λ entry. contains ls entry.0) s) ≡ (if contains ls m then get m s else none)
  unfolding filter get
  get-filter ls m [] = ground arith
  get-filter ls m ((l, x) ∷ s) = ground (arith, get-filter ls m s, text_eq_iff l m)

pub mem-filter_stack :
    (id : Text) (ls : List Text) (m : Text) (s : Stacks)
    → id ∈ stack m (filter (λ entry. contains ls entry.0) s)
    → id ∈ stack m s
unfolding stack
mem-filter_stack id ls m s h = elim (Bool-cases (contains ls m)) [
  | inl e ↦ rw (stack, get-filter ls m s, e) at h
  | inr e ↦ absurd (rw (stack, get-filter ls m s, e) at h)
]

-- Stacks written for one layer with actions that stood on its stacks.
module _ (applied undone : Stacks) (l : Text) (patches : List (Text × AppliedCellPatches)) where
  abbrev Here : Text → Type 0
  Here id = (id ∈ stack l applied) ⊎ (id ∈ stack l undone)

  pub written_applied :
      (ids : List Text)
      → IsRecorded applied undone patches
      → ((id : Text) → id ∈ ids → Here id)
      → IsRecorded (insert l ids applied) undone patches
  written_applied ids known h id (m, inr k) = known id (m, inr k)
  written_applied ids known h id (m, inl k) = elim (mem-insert id l m ids applied k) [
    | inl here ↦ known id (l, h id here)
    | inr old ↦ known id (m, inl old)
  ]

  pub written_undone :
      (ids : List Text)
      → IsRecorded applied undone patches
      → ((id : Text) → id ∈ ids → Here id)
      → IsRecorded applied (insert l ids undone) patches
  written_undone ids known h id (m, inl k) = known id (m, inl k)
  written_undone ids known h id (m, inr k) = elim (mem-insert id l m ids undone k) [
    | inl here ↦ known id (l, h id here)
    | inr old ↦ known id (m, inr old)
  ]

  pub written :
      (ids ids' : List Text)
      → IsRecorded applied undone patches
      → ((id : Text) → (id ∈ ids) ⊎ (id ∈ ids') → Here id)
      → IsRecorded (insert l ids applied) (insert l ids' undone) patches
  written ids ids' known h id (m, inl k) =
      written_applied ids known (λ i n. h i (inl n)) id (m, inl k)
  written ids ids' known h id (m, inr k) =
      written_undone ids' known (λ i n. h i (inr n)) id (m, inr k)

-- The stacks and the recorded patches of a runtime.
module _ {R : Renderer} {Value : Type 0} where
  abbrev pub Recorded : HistoryRuntime R Value → Type 0
  Recorded r =
      IsRecorded r.applied_action_ids_by_layer r.undone_action_ids_by_layer r.patches_by_action_id

  pub record_stroke-Recorded :
      (r : HistoryRuntime R Value) (l a : Text) (applied : AppliedCellPatches)
      → Recorded r
      → Recorded (record_stroke r l a applied)
  unfolding record_stroke with_stack
  record_stroke-Recorded r l a applied known id held =
      let found : (id ≡ a) ⊎ (is_some (get id r.patches_by_action_id) ≡ true)
          → is_some (get id (insert a applied r.patches_by_action_id)) ≡ true =
        λ f. ground (arith, f, get-insert a id applied r.patches_by_action_id, text_eq_iff a id) in
      elim held.1 [
        | inl k ↦
            elim (mem-insert id l held.0 (push a (stack l r.applied_action_ids_by_layer))
              r.applied_action_ids_by_layer k) [
                | inl here ↦ elim (mem-push id a (stack l r.applied_action_ids_by_layer) here) [
                  | inl old ↦ found (inr (known id (l, inl old)))
                  | inr new_one ↦ found (inl new_one)
                ]
                | inr old ↦ found (inr (known id (held.0, inl old)))
              ]
        | inr k ↦ elim (mem-insert id l held.0 [] r.undone_action_ids_by_layer k) [
          | inl here ↦ absurd here
          | inr old ↦ found (inr (known id (held.0, inr old)))
        ]
      ]

  pub move_reverted-Recorded :
      (r : HistoryRuntime R Value) (l a : Text) → Recorded r → Recorded (move_reverted r l a)
  unfolding move_reverted with_stack
  move_reverted-Recorded r l a known =
      let ap = r.applied_action_ids_by_layer in
      let un = r.undone_action_ids_by_layer in
      elim (Option-cases (take_out a (stack l ap))) [
        | inr e ↦
            let out = mem-take_out a (stack l ap) e.0 e.1 in
            rw (move_reverted, e.1)
              (written ap un l r.patches_by_action_id e.0 (push a (stack l un)) known
                (λ id h. ground (arith, h, out.0, out.1 id, mem-push id a (stack l un))))
        | inl e ↦ elim (Option-cases (take_out a (stack l un))) [
          | inr k ↦
              let out = mem-take_out a (stack l un) k.0 k.1 in
              rw (move_reverted, e, k.1)
                (written ap un l r.patches_by_action_id (push a (stack l ap)) k.0 known
                  (λ id h. ground (arith, h, out.0, out.1 id, mem-push id a (stack l ap))))
          | inl k ↦
              rw (move_reverted, e, k)
                (written ap un l r.patches_by_action_id (stack l ap) (stack l un) known (λ id h. h))
        ]
      ]
