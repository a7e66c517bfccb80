-- ===== src/Relay/Frames.antt =====
-- Frames: a length of four bytes and that many bytes of text (workers/session-relay/relay_protocol.rs,
-- and the reading loop of workers/session-relay/relay_server.rs).
use Prim.Native.Nat.{◌/◌}
use thaum_painter.Base.{
  ℕ, zero, suc, ◌+◌, ◌*◌, ◌%◌, Bool, true, false, ◌&&◌, Option, none, some, List, [], ◌∷◌, ◌++◌,
  length, take, drop, ltb, leb, ◌==◌, if◌then◌else◌,
}

-- Bytes are numbers below 256, and a text is the list of its UTF-8 bytes.
abbrev pub Bytes : Type 0
Bytes = List ℕ

abbrev between : ℕ → ℕ → ℕ → Bool
between lo hi b = leb lo b && leb b hi

-- Whether bytes are UTF-8, with the number of continuation bytes that are due and the range of the
-- next one.
unfoldable pub is_utf8_from : ℕ → ℕ → ℕ → Bytes → Bool
is_utf8_from zero lo hi [] = true
is_utf8_from (suc due) lo hi [] = false
is_utf8_from (suc due) lo hi (b ∷ bs) = between lo hi b && is_utf8_from due 128 191 bs
is_utf8_from zero lo hi (b ∷ bs) =
    if ltb b 128
    then is_utf8_from 0 0 0 bs
    else if between 194 223 b
    then is_utf8_from 1 128 191 bs
    else if b == 224
    then is_utf8_from 2 160 191 bs
    else if b == 237
    then is_utf8_from 2 128 159 bs
    else if between 225 239 b
    then is_utf8_from 2 128 191 bs
    else if b == 240
    then is_utf8_from 3 144 191 bs
    else if b == 244
    then is_utf8_from 3 128 143 bs
    else if between 241 243 b
    then is_utf8_from 3 128 191 bs
    else false

unfoldable pub is_utf8 : Bytes → Bool
unfolding is_utf8_from
is_utf8 bytes = is_utf8_from 0 0 0 bytes

unfoldable pub to_be_bytes : ℕ → Bytes
to_be_bytes n = n / 16777216 % 256 ∷ n / 65536 % 256 ∷ n / 256 % 256 ∷ n % 256 ∷ []

unfoldable pub from_be_bytes : ℕ → ℕ → ℕ → ℕ → ℕ
from_be_bytes a b c d = a * 16777216 + b * 65536 + c * 256 + d

-- What `take_frame` returns: nothing yet, a frame, or one of its errors.
pub data FrameRead : Type 0 where
  waiting : FrameRead
  frame : Bytes → FrameRead
  empty_frame : FrameRead
  over_cap : FrameRead
  not_utf8 : FrameRead

-- The part of `take_frame` after the length is read; the rest of the buffer and what is returned.
unfoldable pub take_body : ℕ → Bytes → ℕ → Bytes → Bytes × FrameRead
unfolding is_utf8
take_body max_frame_bytes buf size rest =
    if size == 0
    then (buf, empty_frame)
    else if ltb max_frame_bytes size
    then (buf, over_cap)
    else if ltb (length rest) size
    then (buf, waiting)
    else (drop size rest, if is_utf8 (take size rest) then frame (take size rest) else not_utf8)

unfoldable pub take_frame : ℕ → Bytes → Bytes × FrameRead
unfolding take_body from_be_bytes
take_frame max_frame_bytes (a ∷ b ∷ c ∷ d ∷ rest) =
    take_body max_frame_bytes (a ∷ b ∷ c ∷ d ∷ rest) (from_be_bytes a b c d) rest
take_frame max_frame_bytes buf = (buf, waiting)

-- The bytes that a frame of a JSON text is written as, or a refusal.
unfoldable pub write_frame : ℕ → Bytes → Option Bytes
unfolding to_be_bytes
write_frame max_frame_bytes json =
    if ltb max_frame_bytes (length json)
    then none
    else some (to_be_bytes (length json % 4294967296) ++ json)

-- What `read_frame_shared` returns: a frame, or an error of the frame or of a closed connection.
pub data SharedRead : Type 0 where
  got : Bytes → SharedRead
  refused : FrameRead → SharedRead
  closed : SharedRead

-- The loop over the reads that the stream gives, the end of which is a closed connection; the reads
-- that are left, the buffer and what is returned.
unfoldable pub read_frame_shared : ℕ → List Bytes → Bytes → List Bytes × Bytes × SharedRead
unfolding take_frame
read_frame_shared max_frame_bytes [] buf =
    let taken = take_frame max_frame_bytes buf in
    elim taken.1 [
      | frame text ↦ ([], taken.0, got text)
      | waiting ↦ ([], taken.0, closed)
      | empty_frame ↦ ([], taken.0, refused empty_frame)
      | over_cap ↦ ([], taken.0, refused over_cap)
      | not_utf8 ↦ ([], taken.0, refused not_utf8)
    ]
read_frame_shared max_frame_bytes (chunk ∷ chunks) buf =
    let taken = take_frame max_frame_bytes buf in
    let later = read_frame_shared max_frame_bytes chunks (taken.0 ++ chunk) in
    elim taken.1 [
      | frame text ↦ (chunk ∷ chunks, taken.0, got text)
      | waiting ↦ later
      | empty_frame ↦ (chunk ∷ chunks, taken.0, refused empty_frame)
      | over_cap ↦ (chunk ∷ chunks, taken.0, refused over_cap)
      | not_utf8 ↦ (chunk ∷ chunks, taken.0, refused not_utf8)
    ]

-- The frames that a connection's thread takes one after another until an error ends it, at most `n`.
unfoldable pub read_frames : ℕ → ℕ → List Bytes → Bytes → List Bytes
unfolding read_frame_shared
read_frames zero max_frame_bytes chunks buf = []
read_frames (suc n) max_frame_bytes chunks buf =
    let read = read_frame_shared max_frame_bytes chunks buf in
    let later = read_frames n max_frame_bytes read.0 read.1 in
    elim read.2 [ got text ↦ text ∷ later | refused error ↦ [] | closed ↦ [] ]

-- The bytes that a connection's writer sends for the texts of its queue; the first refusal ends it.
unfoldable pub write_queue : ℕ → List Bytes → Bytes
unfolding write_frame
write_queue max_frame_bytes [] = []
write_queue max_frame_bytes (json ∷ queue) =
    let later = write_queue max_frame_bytes queue in
    elim (write_frame max_frame_bytes json) [ none ↦ [] | some bytes ↦ bytes ++ later ]
