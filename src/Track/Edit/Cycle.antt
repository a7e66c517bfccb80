-- ===== src/Track/Edit/Cycle.antt =====
-- Where the cycles over modes and ease strengths lead (domain/painter-document/properties/interp_mode.rs
-- and `cycle_property_block_interp_mode` of domain/file/storage/storage.rs).
use thaum_painter.Base.{Bool, true, false, Option, ◌≡◌, ◌⊎◌, inl, inr, refl, arith, Bool-cases}
use thaum_painter.Base.Text.{Text, codes, text_eq}
use thaum_painter.Track.Mode.{
  interpolate, hold, smear, loop_out, loop_in, interp_modes, behind, next_mode, resolve_mode,
  mode_allowed_at, mode_allowed_for_property_at,
}
use thaum_painter.Track.Edit.{allowed_mode, cycled_mode}

-- The five modes.
abbrev IsMode : Text → Type 0
IsMode mode =
    (mode ≡ interpolate) ⊎ (mode ≡ hold) ⊎ (mode ≡ smear) ⊎ (mode ≡ loop_out) ⊎ (mode ≡ loop_in)

behind-IsMode : (s : Text) → IsMode (behind s interp_modes)
unfolding behind
behind-IsMode s = elim (Bool-cases (text_eq interpolate s)) [
  | inl e ↦ rw (behind, e) (inr (inl refl))
  | inr e ↦ elim (Bool-cases (text_eq hold s)) [
    | inl h ↦ rw (behind, e, h) (inr (inr (inl refl)))
    | inr h ↦ elim (Bool-cases (text_eq smear s)) [
      | inl k ↦ rw (behind, e, h, k) (inr (inr (inr (inl refl))))
      | inr k ↦ elim (Bool-cases (text_eq loop_out s)) [
        | inl m ↦ rw (behind, e, h, k, m) (inr (inr (inr (inr refl))))
        | inr m ↦ rw (behind, e, h, k, m) (inl refl)
      ]
    ]
  ]
]

next_mode-IsMode : (o : Option Text) → IsMode (next_mode o)
unfolding next_mode
next_mode-IsMode o = behind-IsMode (resolve_mode o)

-- A cycle that tries a mode stops at one that the place allows.
abbrev Stops : Text → Text → Bool → Bool → Type 0
Stops mode property_id is_first is_last =
    mode_allowed_for_property_at (allowed_mode 5 mode property_id is_first is_last) property_id
      is_first is_last
    ≡ true

interpolate-Stops : (p : Text) (f l : Bool) → Stops interpolate p f l
unfolding allowed_mode next_mode behind resolve_mode mode_allowed_for_property_at mode_allowed_at
    text_eq
interpolate-Stops p f l = refl

hold-Stops : (p : Text) (f l : Bool) → Stops hold p f l
unfolding allowed_mode next_mode behind resolve_mode mode_allowed_for_property_at mode_allowed_at
    text_eq
hold-Stops p f l = refl

loop_in-Stops : (p : Text) (f l : Bool) → Stops loop_in p f l
unfolding allowed_mode next_mode behind resolve_mode mode_allowed_for_property_at mode_allowed_at
    text_eq
loop_in-Stops p true l = refl
loop_in-Stops p false l = refl

loop_out-Stops : (p : Text) (f l : Bool) → Stops loop_out p f l
unfolding allowed_mode next_mode behind resolve_mode mode_allowed_for_property_at mode_allowed_at
    text_eq
loop_out-Stops p f true = refl
loop_out-Stops p true false = refl
loop_out-Stops p false false = refl

smear-Stops : (p : Text) (f l : Bool) → Stops smear p f l
unfolding allowed_mode next_mode behind resolve_mode mode_allowed_for_property_at mode_allowed_at
    text_eq
smear-Stops p true true = refl
smear-Stops p false true = refl
smear-Stops p true false = refl
smear-Stops p false false = elim (Bool-cases (text_eq p (codes "raster"))) [
  | inl e ↦ ground arith
  | inr e ↦ ground arith
]

IsMode-Stops : (mode p : Text) (f l : Bool) → IsMode mode → Stops mode p f l
IsMode-Stops mode p f l (inl e) = rw e (interpolate-Stops p f l)
IsMode-Stops mode p f l (inr (inl e)) = rw e (hold-Stops p f l)
IsMode-Stops mode p f l (inr (inr (inl e))) = rw e (smear-Stops p f l)
IsMode-Stops mode p f l (inr (inr (inr (inl e)))) = rw e (loop_out-Stops p f l)
IsMode-Stops mode p f l (inr (inr (inr (inr e)))) = rw e (loop_in-Stops p f l)

-- Cycling the mode of an empty bar leads to a mode that its track and place allow.
pub cycled_mode_lem :
    (interpretation : Option Text) (property_id : Text) (is_first is_last : Bool)
    → mode_allowed_for_property_at
        (cycled_mode interpretation property_id is_first is_last)
        property_id
        is_first
        is_last
      ≡ true
unfolding cycled_mode
cycled_mode_lem interpretation property_id is_first is_last =
    IsMode-Stops (next_mode interpretation) property_id is_first is_last
      (next_mode-IsMode interpretation)
