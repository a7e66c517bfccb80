-- ===== src/Relay/Chunks.antt =====
-- A queue of texts, written by one side and read by the other through any cuts of the stream
-- (workers/session-relay/relay_server.rs).
use thaum_painter.Base.{
  ℕ, ◌≤◌, zero, suc, List, [], ◌∷◌, ◌++◌, length, ◌≡◌, refl, ◌∙◌, ap, arith, inl, inr, ◌⊎◌, All,
}
use mathlib.Core.List.{append_assoc}
use thaum_painter.Relay.Frames.{
  Bytes, frame, take_frame, got, closed, read_frame_shared, read_frames, write_queue,
}
use thaum_painter.Relay.Wire.{
  IsBody, wire_bytes, write_frame_lem, take_frame-wire_bytes, take_frame-part,
}

abbrev pub concat : List Bytes → Bytes
concat [] = []
concat (chunk ∷ chunks) = chunk ++ concat chunks

-- A buffer either reaches past the bytes that come first, or has only a part of them.
abbrev Cut : Bytes → Bytes → Bytes → Bytes → Type 0
Cut buf later first rest =
    ((more : Bytes) × (buf ≡ first ++ more) × (more ++ later ≡ rest))
    ⊎ ((x : ℕ) × (missing : Bytes) × (buf ++ x ∷ missing ≡ first) × (later ≡ (x ∷ missing) ++ rest))

abbrev head_or : ℕ → Bytes → ℕ
head_or n [] = n
head_or n (x ∷ xs) = x

abbrev tail : Bytes → Bytes
tail [] = []
tail (x ∷ xs) = xs

cut : (buf later first rest : Bytes) → buf ++ later ≡ first ++ rest → Cut buf later first rest
cut buf later [] rest e = inl (buf, refl, e)
cut [] later (y ∷ ys) rest e = inr (y, ys, refl, e)
cut (x ∷ xs) later (y ∷ ys) rest e =
    let same : x ≡ y = ap (head_or 0) e in
    elim (cut xs later ys rest (ap tail e)) [
      | inl r ↦ inl (r.0, rw (same, r.1) refl, r.2)
      | inr r ↦ inr (r.0, r.1, rw (same, r.2) refl, r.3)
    ]

-- A read gives the frame that comes next in the buffer and the stream, and leaves what follows it.
read_next :
    (cap_bytes : ℕ) (chunks : List Bytes) (buf json rest : Bytes)
    → IsBody cap_bytes json
    → buf ++ concat chunks ≡ wire_bytes json ++ rest
    → let read = read_frame_shared cap_bytes chunks buf in
      (read.2 ≡ got json) × (read.1 ++ concat read.0 ≡ rest)
unfolding read_frame_shared
read_next cap_bytes [] buf json rest body e = elim (cut buf [] (wire_bytes json) rest e) [
  | inl r ↦
      let whole : take_frame cap_bytes buf ≡ (r.0, frame json) =
        rw (r.1) (take_frame-wire_bytes cap_bytes json r.0 body) in
      rw (read_frame_shared, whole, whole) (refl, r.2)
  | inr r ↦ absurd (ground (arith, r.3))
]
read_next cap_bytes (chunk ∷ chunks) buf json rest body e =
    elim (cut buf (concat (chunk ∷ chunks)) (wire_bytes json) rest e) [
      | inl r ↦
          let whole : take_frame cap_bytes buf ≡ (r.0, frame json) =
            rw (r.1) (take_frame-wire_bytes cap_bytes json r.0 body) in
          rw (read_frame_shared, whole, whole) (refl, r.2)
      | inr r ↦
          let taken = take_frame-part cap_bytes json buf r.0 r.1 body r.2 in
          rw (read_frame_shared, taken, taken)
            (read_next cap_bytes chunks (buf ++ chunk) json rest body
              (append_assoc buf chunk (concat chunks) ∙ e))
    ]

-- At the end of the stream no frame is left.
read_closed :
    (cap_bytes : ℕ) (chunks : List Bytes) (buf : Bytes)
    → buf ++ concat chunks ≡ []
    → (read_frame_shared cap_bytes chunks buf).2 ≡ closed
unfolding read_frame_shared take_frame
read_closed cap_bytes chunks (x ∷ buf) e = absurd (ground (arith, e))
read_closed cap_bytes [] [] e = refl
read_closed cap_bytes (chunk ∷ chunks) [] e = read_closed cap_bytes chunks chunk e

read_none :
    (k cap_bytes : ℕ) (chunks : List Bytes) (buf : Bytes)
    → buf ++ concat chunks ≡ []
    → read_frames k cap_bytes chunks buf ≡ []
unfolding read_frames
read_none zero cap_bytes chunks buf e = refl
read_none (suc k) cap_bytes chunks buf e = rw (read_frames, read_closed cap_bytes chunks buf e) refl

-- A queue written, and read from any cuts of its bytes.
read_queue :
    (n cap_bytes : ℕ) (queue : List Bytes) (chunks : List Bytes) (buf : Bytes)
    → length queue ≤ n
    → All (IsBody cap_bytes) queue
    → buf ++ concat chunks ≡ write_queue cap_bytes queue
    → read_frames n cap_bytes chunks buf ≡ queue
unfolding read_frames write_queue
read_queue n cap_bytes [] chunks buf fits bodies e = read_none n cap_bytes chunks buf e
read_queue zero cap_bytes (json ∷ queue) chunks buf fits bodies e = absurd (omega (arith, fits))
read_queue (suc n) cap_bytes (json ∷ queue) chunks buf fits bodies e =
    let sent : write_queue cap_bytes (json ∷ queue)
        ≡ wire_bytes json ++ write_queue cap_bytes queue =
      rw (write_queue, write_frame_lem cap_bytes json bodies.0) refl in
    let read = read_frame_shared cap_bytes chunks buf in
    let step =
      read_next cap_bytes chunks buf json (write_queue cap_bytes queue) bodies.0 (e ∙ sent) in
    rw (read_frames, step.0)
      (ap (λ (texts : List Bytes). json ∷ texts)
        (read_queue n cap_bytes queue read.0 read.1 (omega (arith, fits)) bodies.1 step.1))

-- The texts that one side queues, each of them not empty, UTF-8 and within the cap and the prefix,
-- are the texts that the other side reads, in order and none after them, however the stream cuts the
-- bytes into reads.
pub read_frames-write_queue :
    (n cap_bytes : ℕ) (queue : List Bytes) (chunks : List Bytes)
    → length queue ≤ n
    → All (IsBody cap_bytes) queue
    → concat chunks ≡ write_queue cap_bytes queue
    → read_frames n cap_bytes chunks [] ≡ queue
read_frames-write_queue n cap_bytes queue chunks fits bodies e =
    read_queue n cap_bytes queue chunks [] fits bodies e
