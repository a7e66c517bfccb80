-- ===== src/Relay/Invites.antt =====
-- Codes that are minted, typed in and read back (workers/session-relay/relay_codes.rs).
use thaum_painter.Base.{
  ℕ, zero, suc, ◌%◌, ◌<◌, Bool, true, false, not, ◌&&◌, some, List, [], ◌∷◌, ◌++◌, map, length,
  length-append, ltb, ◌==◌, All, All-append, ◌≡◌, refl, ◌∙◌, ap, arith, Bool-cases, inl, inr,
}
use thaum_painter.Base.Text.{Text}
use thaum_painter.Relay.Codes.{
  code_alphabet, room_id_len, room_token_len, code_separator, is_whitespace, trim_start, trim_end,
  to_ascii_uppercase, split_once, len_utf8, has_glyph, all_glyphs, parse_code, glyph_at, code_part,
  generate_code,
}

abbrev IsGlyph : ℕ → Type 0
IsGlyph c = has_glyph code_alphabet c ≡ true

-- What holds of every glyph of the alphabet.
abbrev every : (ℕ → Bool) → Text → Bool
every test [] = true
every test (c ∷ cs) = test c && every test cs

every-has_glyph :
    (test : ℕ → Bool) (ds : Text) (c : ℕ)
    → every test ds ≡ true
    → has_glyph ds c ≡ true
    → test c ≡ true
unfolding has_glyph
every-has_glyph test [] c h k = absurd (ground (arith, k))
every-has_glyph test (d ∷ ds) c h k = elim (Bool-cases (d == c)) [
  | inl e ↦ let same : d ≡ c = ground (arith, e) in rw (← same) (ground (arith, h))
  | inr e ↦ every-has_glyph test ds c (ground (arith, h)) (ground (arith, k, e))
]

-- A glyph is ASCII, and is neither white space nor the separator.
abbrev plain : ℕ → Bool
plain c = ltb c 128 && not (is_whitespace c) && not (c == 45)

glyph-plain : (c : ℕ) → IsGlyph c → plain c ≡ true
unfolding is_whitespace
glyph-plain c h = every-has_glyph plain code_alphabet c refl h

glyph_at-IsGlyph : (ds : Text) (i : ℕ) → i < length ds → has_glyph ds (glyph_at ds i) ≡ true
unfolding has_glyph glyph_at
glyph_at-IsGlyph [] i h = absurd (omega (arith, h))
glyph_at-IsGlyph (d ∷ ds) zero h = ground arith
glyph_at-IsGlyph (d ∷ ds) (suc i) h = ground (arith, glyph_at-IsGlyph ds i (omega (arith, h)))

code_part-IsGlyph : (bytes : List ℕ) → All IsGlyph (code_part bytes)
unfolding code_part
code_part-IsGlyph [] = tt
code_part-IsGlyph (b ∷ bytes) = (
  glyph_at-IsGlyph code_alphabet (b % length code_alphabet) (omega arith),
  code_part-IsGlyph bytes,
)

length-code_part : (bytes : List ℕ) → length (code_part bytes) ≡ length bytes
unfolding code_part
length-code_part [] = refl
length-code_part (b ∷ bytes) = omega (arith, length-code_part bytes)

all_glyphs_lem : (t : Text) → All IsGlyph t → all_glyphs t ≡ true
unfolding all_glyphs
all_glyphs_lem [] h = refl
all_glyphs_lem (c ∷ t) h = rw (h.0, all_glyphs_lem t h.1) refl

len_utf8_lem : (t : Text) → All IsGlyph t → len_utf8 t ≡ length t
unfolding len_utf8
len_utf8_lem [] h = refl
len_utf8_lem (c ∷ t) h =
    let ascii : ltb c 128 ≡ true = ground (arith, glyph-plain c h.0) in
    rw (ascii, len_utf8_lem t h.1) (omega arith)

split_once_lem :
    (room token : Text)
    → All IsGlyph room
    → split_once code_separator (room ++ code_separator ∷ token) ≡ some (room, token)
unfolding split_once
split_once_lem [] token h = refl
split_once_lem (c ∷ room) token h =
    let other : (c == 45) ≡ false = ground (arith, glyph-plain c h.0) in
    rw (other, split_once_lem room token h.1) refl

-- Trimming.
abbrev Space : ℕ → Type 0
Space c = is_whitespace c ≡ true

abbrev Ink : ℕ → Type 0
Ink c = is_whitespace c ≡ false

trim_start-append : (before t : Text) → All Space before → trim_start (before ++ t) ≡ trim_start t
unfolding trim_start
trim_start-append [] t h = refl
trim_start-append (c ∷ before) t h = rw (h.0) (trim_start-append before t h.1)

trim_start-Ink : (c : ℕ) (t : Text) → Ink c → trim_start (c ∷ t) ≡ c ∷ t
unfolding trim_start
trim_start-Ink c t h = rw h refl

trim_end-Space : (after : Text) → All Space after → trim_end after ≡ []
unfolding trim_end
trim_end-Space [] h = refl
trim_end-Space (c ∷ after) h = rw (trim_end-Space after h.1, h.0) refl

trim_end-append : (t after : Text) → All Ink t → All Space after → trim_end (t ++ after) ≡ t
unfolding trim_end
trim_end-append [] after h k = trim_end-Space after k
trim_end-append (c ∷ []) after h k = rw (trim_end-Space after k, h.0) refl
trim_end-append (c ∷ d ∷ t) after h k = rw (trim_end-append (d ∷ t) after h.1 k) refl

Ink-upper : (c : ℕ) → Ink (to_ascii_uppercase c) → Ink c
unfolding to_ascii_uppercase is_whitespace
Ink-upper c h = ground (arith, h)

typed-Ink : (typed : Text) → All Ink (map to_ascii_uppercase typed) → All Ink typed
typed-Ink [] h = tt
typed-Ink (c ∷ typed) h = (Ink-upper c h.0, typed-Ink typed h.1)

glyphs-Ink : (t : Text) → All IsGlyph t → All Ink t
glyphs-Ink [] h = tt
glyphs-Ink (c ∷ t) h = (ground (arith, glyph-plain c h.0), glyphs-Ink t h.1)

trimmed :
    (before typed after : Text)
    → All Space before
    → All Space after
    → All Ink typed
    → 0 < length typed
    → trim_end (trim_start (before ++ (typed ++ after))) ≡ typed
trimmed before [] after b a ink long = absurd (omega (arith, long))
trimmed before (c ∷ typed) after b a ink long =
    rw (trim_start-append before (c ∷ (typed ++ after)) b, trim_start-Ink c (typed ++ after) ink.0)
      (trim_end-append (c ∷ typed) after ink a)

separator-Ink : Ink code_separator
unfolding is_whitespace
separator-Ink = refl

length-map : (f : ℕ → ℕ) (t : Text) → length (map f t) ≡ length t
length-map f [] = refl
length-map f (c ∷ t) = omega (arith, length-map f t)

typed_long :
    (typed room token : Text)
    → map to_ascii_uppercase typed ≡ room ++ code_separator ∷ token
    → 0 < length typed
typed_long typed room token e = omega (
  arith,
  length-map to_ascii_uppercase typed,
  length-append room (code_separator ∷ token),
  ap (λ (t : Text). length t) e,
)

-- A room and a token of glyphs, parsed from any text that is theirs in capitals.
parsed :
    (room token before typed after : Text)
    → All IsGlyph room
    → All IsGlyph token
    → length room ≡ room_id_len
    → length token ≡ room_token_len
    → All Space before
    → All Space after
    → map to_ascii_uppercase typed ≡ room ++ code_separator ∷ token
    → parse_code (before ++ (typed ++ after)) ≡ some (room, token)
unfolding parse_code
parsed room token before typed after r t six ten b a upper =
    let dash : Ink code_separator = separator-Ink in
    let all_ink : All Ink (room ++ code_separator ∷ token) =
      All-append Ink room (code_separator ∷ token) (glyphs-Ink room r) (dash, glyphs-Ink token t) in
    let long : 0 < length typed = typed_long typed room token upper in
    let trim = trimmed before typed after b a (typed-Ink typed (rw upper all_ink)) long in
    let both : all_glyphs (room ++ token) ≡ true =
      all_glyphs_lem (room ++ token) (All-append IsGlyph room token r t) in
    rw
      (
        parse_code,
        trim,
        upper,
        split_once_lem room token r,
        len_utf8_lem room r,
        six,
        len_utf8_lem token t,
        ten,
        both,
      )
      refl

-- An invite code that was minted from random bytes for its six and ten glyphs is read back as its
-- room and its token, in capitals or not and with any white space around it.
pub parse_code-generate_code :
    (room_bytes token_bytes : List ℕ) (before typed after : Text)
    → length room_bytes ≡ room_id_len
    → length token_bytes ≡ room_token_len
    → All Space before
    → All Space after
    → map to_ascii_uppercase typed ≡ (generate_code room_bytes token_bytes).2
    → parse_code (before ++ (typed ++ after))
      ≡ some ((generate_code room_bytes token_bytes).0, (generate_code room_bytes token_bytes).1)
unfolding generate_code
parse_code-generate_code room_bytes token_bytes before typed after six ten b a upper =
    parsed (code_part room_bytes) (code_part token_bytes) before typed after
      (code_part-IsGlyph room_bytes) (code_part-IsGlyph token_bytes)
      (length-code_part room_bytes ∙ six) (length-code_part token_bytes ∙ ten) b a upper
