-- ===== src/Relay/Wire.antt =====
-- Frames taken from a buffer (workers/session-relay/relay_protocol.rs).
use Prim.Native.Nat.{◌/◌}
use thaum_painter.Base.{
  ℕ, zero, suc, ◌%◌, ◌≤◌, ◌<◌, true, false, some, List, [], ◌∷◌, ◌++◌, length, take, drop, ltb,
  ◌==◌, ◌≡◌, refl, sym, ◌∙◌, ap, arith, Bool-cases, inl, inr, length-append,
}
use thaum_painter.Relay.Frames.{
  Bytes, is_utf8, to_be_bytes, from_be_bytes, waiting, frame, take_body, take_frame, write_frame,
}

from_be_bytes-to_be_bytes :
    (n : ℕ)
    → n < 4294967296
    → from_be_bytes (n / 16777216 % 256) (n / 65536 % 256) (n / 256 % 256) (n % 256) ≡ n
unfolding from_be_bytes
from_be_bytes-to_be_bytes n h = omega (arith, h)

not_below : (a b : ℕ) → b ≤ a → ltb a b ≡ false
not_below a b h = ground (arith, h)

below : (a b : ℕ) → a < b → ltb a b ≡ true
below a b h = ground (arith, h)

not_zero : (n : ℕ) → 0 < n → (n == 0) ≡ false
not_zero n h = ground (arith, h)

-- The length that bytes announce, and what follows it.
abbrev pub announced : Bytes → ℕ
announced (a ∷ b ∷ c ∷ d ∷ rest) = from_be_bytes a b c d
announced _ = 0

abbrev after_length : Bytes → Bytes
after_length (a ∷ b ∷ c ∷ d ∷ rest) = rest
after_length _ = []

module _ {A : Type 0} where
  take-append : (xs ys : List A) → take (length xs) (xs ++ ys) ≡ xs
  take-append [] ys = refl
  take-append (x ∷ xs) ys = ap (λ zs. x ∷ zs) (take-append xs ys)

  drop-append : (xs ys : List A) → drop (length xs) (xs ++ ys) ≡ ys
  drop-append [] ys = refl
  drop-append (x ∷ xs) ys = drop-append xs ys

-- A text that the cap_bytes and the length prefix allow.
pub record IsBody (max_frame_bytes : ℕ) (json : Bytes) : Type 0 where
  pub not_empty : 0 < length json
  pub within_cap : length json ≤ max_frame_bytes
  pub within_prefix : length json < 4294967296
  pub utf8 : is_utf8 json ≡ true

-- The bytes of a frame.
abbrev pub wire_bytes : Bytes → Bytes
wire_bytes json = to_be_bytes (length json) ++ json

pub write_frame_lem :
    (cap_bytes : ℕ) (json : Bytes)
    → IsBody cap_bytes json
    → write_frame cap_bytes json ≡ some (wire_bytes json)
unfolding write_frame
write_frame_lem cap_bytes json body =
    let small = not_below cap_bytes (length json) body.within_cap in
    let same : length json % 4294967296 ≡ length json = omega (arith, body.within_prefix) in
    rw (write_frame, small, same) refl

-- A buffer that starts with the bytes of a frame gives the frame, and keeps what follows.
pub take_frame-wire_bytes :
    (cap_bytes : ℕ) (json rest : Bytes)
    → IsBody cap_bytes json
    → take_frame cap_bytes (wire_bytes json ++ rest) ≡ (rest, frame json)
unfolding take_frame take_body to_be_bytes
take_frame-wire_bytes cap_bytes json rest body =
    let n = length json in
    let size = from_be_bytes-to_be_bytes n body.within_prefix in
    let a = not_zero n body.not_empty in
    let b = not_below cap_bytes n body.within_cap in
    let c = not_below (length (json ++ rest)) n (omega (arith, length-append json rest)) in
    rw
      (
        take_frame,
        size,
        take_body,
        a,
        b,
        c,
        take-append json rest,
        drop-append json rest,
        body.utf8,
      )
      refl

-- A buffer with a part of it waits.
body_waits :
    (cap_bytes : ℕ) (json buf part : Bytes)
    → IsBody cap_bytes json
    → length part < length json
    → take_body cap_bytes buf (length json) part ≡ (buf, waiting)
unfolding take_body
body_waits cap_bytes json buf part body short =
    let n = length json in
    let a = not_zero n body.not_empty in
    let b = not_below cap_bytes n body.within_cap in
    let c = below (length part) n short in rw (take_body, a, b, c) refl

pub take_frame-part :
    (cap_bytes : ℕ) (json part : Bytes) (x : ℕ) (missing : Bytes)
    → IsBody cap_bytes json
    → part ++ x ∷ missing ≡ wire_bytes json
    → take_frame cap_bytes part ≡ (part, waiting)
unfolding take_frame to_be_bytes
take_frame-part cap_bytes json [] x missing body e = refl
take_frame-part cap_bytes json (a ∷ []) x missing body e = refl
take_frame-part cap_bytes json (a ∷ b ∷ []) x missing body e = refl
take_frame-part cap_bytes json (a ∷ b ∷ c ∷ []) x missing body e = refl
take_frame-part cap_bytes json (a ∷ b ∷ c ∷ d ∷ part) x missing body e =
    let size : from_be_bytes a b c d ≡ length json =
      ap announced e ∙ from_be_bytes-to_be_bytes (length json) body.within_prefix in
    let rest : part ++ x ∷ missing ≡ json = ap after_length e in
    let short : length part < length json =
      omega (arith, length-append part (x ∷ missing), ap (λ (bs : Bytes). length bs) rest) in
    rw (take_frame, size) (body_waits cap_bytes json (a ∷ b ∷ c ∷ d ∷ part) part body short)

module _ {A : Type 0} where
  take-drop : (n : ℕ) (xs : List A) → take n xs ++ drop n xs ≡ xs
  take-drop zero xs = refl
  take-drop (suc n) [] = refl
  take-drop (suc n) (x ∷ xs) = ap (λ ys. x ∷ ys) (take-drop n xs)

  length-take : (n : ℕ) (xs : List A) → n ≤ length xs → length (take n xs) ≡ n
  length-take zero xs h = refl
  length-take (suc n) [] h = absurd (omega (arith, h))
  length-take (suc n) (x ∷ xs) h = omega (arith, length-take n xs (omega (arith, h)))

take_body-bounds :
    (cap_bytes : ℕ) (buf : Bytes) (size : ℕ) (rest text : Bytes)
    → (take_body cap_bytes buf size rest).1 ≡ frame text
    → (0 < length text)
      × (length text ≤ cap_bytes)
      × (is_utf8 text ≡ true)
      × (size ≡ length text)
      × (rest ≡ text ++ (take_body cap_bytes buf size rest).0)
unfolding take_body
take_body-bounds cap_bytes buf size rest text h = elim (Bool-cases (size == 0)) [
  | inl a ↦ absurd (ground (arith, rw (take_body, a) at h))
  | inr a ↦ elim (Bool-cases (ltb cap_bytes size)) [
    | inl b ↦ absurd (ground (arith, rw (take_body, a, b) at h))
    | inr b ↦ elim (Bool-cases (ltb (length rest) size)) [
      | inl c ↦ absurd (ground (arith, rw (take_body, a, b, c) at h))
      | inr c ↦ elim (Bool-cases (is_utf8 (take size rest))) [
        | inr e ↦ absurd (ground (arith, rw (take_body, a, b, c, e) at h))
        | inl e ↦
            let same : text ≡ take size rest = ground (arith, rw (take_body, a, b, c, e) at h) in
            let fits : size ≤ length rest = ground (arith, c) in
            let n = length-take size rest fits in
            let some_bytes : 0 < size = ground (arith, a) in
            let within : size ≤ cap_bytes = ground (arith, b) in
            rw (same, take_body, a, b, c)
              (
                omega (arith, n, some_bytes),
                omega (arith, n, within),
                e,
                sym n,
                sym (take-drop size rest),
              )
      ]
    ]
  ]
]

-- A frame that a buffer gives has between one byte and the cap and is UTF-8, the buffer begins with
-- four bytes that announce its length, and what they are followed by is the frame and then exactly
-- the buffer that is left.
pub take_frame-bounds :
    (cap_bytes : ℕ) (buf text : Bytes)
    → (take_frame cap_bytes buf).1 ≡ frame text
    → (0 < length text)
      × (length text ≤ cap_bytes)
      × (is_utf8 text ≡ true)
      × (announced buf ≡ length text)
      × (buf ≡ take 4 buf ++ text ++ (take_frame cap_bytes buf).0)
unfolding take_frame
take_frame-bounds cap_bytes [] text h = absurd (ground (arith, h))
take_frame-bounds cap_bytes (a ∷ []) text h = absurd (ground (arith, h))
take_frame-bounds cap_bytes (a ∷ b ∷ []) text h = absurd (ground (arith, h))
take_frame-bounds cap_bytes (a ∷ b ∷ c ∷ []) text h = absurd (ground (arith, h))
take_frame-bounds cap_bytes (a ∷ b ∷ c ∷ d ∷ rest) text h =
    let body =
      take_body-bounds cap_bytes (a ∷ b ∷ c ∷ d ∷ rest) (from_be_bytes a b c d) rest text h in
    (body.0, body.1, body.2, body.3, ap (λ (bytes : Bytes). a ∷ b ∷ c ∷ d ∷ bytes) body.4)
