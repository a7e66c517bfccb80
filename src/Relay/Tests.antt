-- ===== src/Relay/Tests.antt =====
-- A relay with one room, and the theorems at it.
use thaum_painter.Base.{
  ℕ, ◌≤◌, ◌<◌, true, false, none, some, List, [], ◌∷◌, ◌++◌, map, take, length, is_some, ◌≡◌, ◌↔◌,
  ◌⊎◌, ◌∈◌, refl, arith, inl, inr, Nodup,
}
use thaum_painter.Base.Text.{Text, codes, text_eq, text_Eq}
use thaum_painter.Base.Map.{get}
use thaum_painter.Relay.Frames.{Bytes, frame, take_frame, write_queue, read_frames, is_utf8}
use thaum_painter.Relay.Wire.{IsBody, announced, take_frame-bounds}
use thaum_painter.Relay.Chunks.{concat, read_frames-write_queue}
use thaum_painter.Relay.Codes.{
  code_separator, parse_code, generate_code, to_ascii_uppercase, is_whitespace,
}
use thaum_painter.Relay.Invites.{parse_code-generate_code}
use thaum_painter.Relay.Rooms.{
  broadcast_target, Registry, Room, Member, RelayCaps, ok, to_host, to_member, RoutedFrame,
  or_default, is_kick, kicked, route_frame, claim_host_room, claim_join, join_room, cleanup,
}
use thaum_painter.Relay.Routing.{route_frame-delivers}
use thaum_painter.Relay.Kicks.{has_socket, route_frame-kick}
use thaum_painter.Relay.Doors.{IsWithin}
use thaum_painter.Relay.Served.{started, after, hosted, joined, RelayRun-IsWithin}
use thaum_painter.Relay.Joined.{LetIn, join_room-LetIn, join_room-cleanup}

abbrev texts : List Bytes
texts = codes "hi" ∷ codes "all" ∷ []

hi_IsBody : IsBody 8 (codes "hi")
unfolding is_utf8
hi_IsBody = record {
  not_empty = omega arith;
  within_cap = omega arith;
  within_prefix = omega arith;
  utf8 = refl;
}

all_IsBody : IsBody 8 (codes "all")
unfolding is_utf8
all_IsBody = record {
  not_empty = omega arith;
  within_cap = omega arith;
  within_prefix = omega arith;
  utf8 = refl;
}

-- The bytes, cut in the middle of a length and of a text.
abbrev cuts : List Bytes
cuts = (0 ∷ 0 ∷ []) ∷ (0 ∷ 2 ∷ 104 ∷ []) ∷ (105 ∷ 0 ∷ 0 ∷ 0 ∷ 3 ∷ 97 ∷ 108 ∷ 108 ∷ []) ∷ []

sent : concat cuts ≡ write_queue 8 texts
unfolding write_queue
sent = refl

read_frames-write_queue_example : read_frames 5 8 cuts [] ≡ texts
read_frames-write_queue_example =
    read_frames-write_queue 5 8 texts cuts (omega arith) (hi_IsBody, (all_IsBody, tt)) sent

abbrev buffered : Bytes
buffered = 0 ∷ 0 ∷ 0 ∷ 2 ∷ 104 ∷ 105 ∷ 0 ∷ []

taken : (take_frame 8 buffered).1 ≡ frame (codes "hi")
unfolding take_frame
taken = refl

take_frame-bounds_example :
    (0 < length (codes "hi"))
    × (length (codes "hi") ≤ 8)
    × (is_utf8 (codes "hi") ≡ true)
    × (announced buffered ≡ length (codes "hi"))
    × (buffered ≡ take 4 buffered ++ codes "hi" ++ (take_frame 8 buffered).0)
take_frame-bounds_example = take_frame-bounds 8 buffered (codes "hi") taken

abbrev room_bytes : List ℕ
room_bytes = 0 ∷ 40 ∷ 8 ∷ 255 ∷ 12 ∷ 30 ∷ []

abbrev token_bytes : List ℕ
token_bytes = 1 ∷ 2 ∷ 3 ∷ 4 ∷ 5 ∷ 6 ∷ 7 ∷ 8 ∷ 9 ∷ 10 ∷ []

abbrev typed : Text
typed = codes "2ba9ez-3456789abc"

spaces : (is_whitespace 32 ≡ true) × (is_whitespace 10 ≡ true)
unfolding is_whitespace
spaces = (refl, refl)

typed_code : map to_ascii_uppercase typed ≡ (generate_code room_bytes token_bytes).2
unfolding to_ascii_uppercase generate_code
typed_code = refl

parse_code-generate_code_example :
    parse_code ((32 ∷ []) ++ (typed ++ (32 ∷ 10 ∷ [])))
    ≡ some ((generate_code room_bytes token_bytes).0, (generate_code room_bytes token_bytes).1)
parse_code-generate_code_example =
    parse_code-generate_code room_bytes token_bytes (32 ∷ []) typed (32 ∷ 10 ∷ []) refl refl
      (spaces.0, tt) (spaces.0, (spaces.1, tt)) typed_code

abbrev caps : RelayCaps
caps = record {
  max_frame_bytes = 1048576;
  max_members_per_room = 8;
  max_rooms = 256;
  joins_per_window = 30;
  join_window = 60000;
}

abbrev room_id : Text
room_id = codes "ABCDEF"

abbrev token : Text
token = codes "GHJKMNPQRS"

abbrev member : Member
member = record { joined_at = 5; kick = true }

abbrev room : Room
room = record { token = token; members = (codes "ann", member) ∷ (codes "bob", member) ∷ [] }

abbrev registry : Registry
registry = record { rooms = (room_id, room) ∷ []; claim_attempts = [] }

abbrev kick_everyone : RoutedFrame
kick_everyone = record { tag = some (codes "kick"); to = some (codes "all"); line = none }

abbrev hello_bob : RoutedFrame
hello_bob = record { tag = none; to = some (codes "bob"); line = some (codes "hi") }

room_found : get room_id registry.rooms ≡ some room
unfolding get text_eq
room_found = refl

kicks : is_kick kick_everyone ≡ true
unfolding is_kick text_eq
kicks = refl

no_kick : is_kick hello_bob ≡ false
unfolding is_kick text_eq
no_kick = refl

distinct_members : Nodup (codes "ann" ∷ codes "bob" ∷ [])
distinct_members = (λ m. elim m [ inl e ↦ ground (arith, e) | inr n ↦ n ], (λ m. m, tt))

route_frame-kick_example :
    ((route_frame registry true room_id (codes "ann") (some kick_everyone)).0 ≡ true)
    × ((kicked room_id (codes "bob")
          ∈ (route_frame registry true room_id (codes "ann") (some kick_everyone)).1)
        ↔ ((has_socket (codes "bob") room.members ≡ true)
            × ((codes "all" ≡ broadcast_target) ⊎ (codes "all" ≡ codes "bob"))))
route_frame-kick_example =
    route_frame-kick registry true room_id (codes "ann") (codes "bob") kick_everyone room room_found
      distinct_members kicks

route_frame-delivers_example :
    ((to_member room_id (codes "bob") (codes "hi")
        ∈ (route_frame registry true room_id (codes "all") (some hello_bob)).1)
      ↔ ((codes "all" ≡ broadcast_target)
          × (is_some (get (codes "bob") room.members) ≡ true)
          × ((or_default hello_bob.to ≡ broadcast_target)
              ⊎ (or_default hello_bob.to ≡ codes "bob"))))
    × ((to_host room_id (codes "bob") (codes "hi")
          ∈ (route_frame registry true room_id (codes "all") (some hello_bob)).1)
        ↔ (¬ (codes "all" ≡ broadcast_target) × (codes "all" ≡ codes "bob") × (true ≡ true)))
route_frame-delivers_example =
    route_frame-delivers registry true room_id (codes "all") (codes "bob") (codes "hi") hello_bob
      room room_found no_kick refl

abbrev served : Registry
served =
    (claim_join
      (claim_host_room (record { rooms = []; claim_attempts = [] }) caps
        ((room_bytes, token_bytes) ∷ [])).0
      caps (codes "2BA9EZ") (codes "3456789ABC") (codes "ann") member).0

RelayRun-IsWithin_example : IsWithin caps served
RelayRun-IsWithin_example = RelayRun-IsWithin caps served (
    after
      (after started
        (hosted (record { rooms = []; claim_attempts = [] }) ((room_bytes, token_bytes) ∷ [])))
      (joined
        (claim_host_room (record { rooms = []; claim_attempts = [] }) caps
          ((room_bytes, token_bytes) ∷ [])).0
        (codes "2BA9EZ") (codes "3456789ABC") (codes "ann") member))

let_in_cam : (join_room registry caps room_id token (codes "cam") member).1 ≡ ok room_id token
unfolding join_room text_eq
let_in_cam = refl

join_room-LetIn_example :
    (room_id ≡ room_id)
    × (parse_code (room_id ++ code_separator ∷ token) ≡ some (room_id, token))
    × LetIn registry
        (join_room registry caps room_id token (codes "cam") member).0
        caps
        room_id
        token
        (codes "cam")
        member
join_room-LetIn_example =
    join_room-LetIn registry caps room_id token (codes "cam") room_id token member let_in_cam

bob_there : is_some (get (codes "bob") room.members) ≡ true
unfolding get text_eq
bob_there = refl

bob_named : text_eq (codes "bob") broadcast_target ≡ false
unfolding text_eq
bob_named = refl

code_parsed : parse_code (room_id ++ code_separator ∷ token) ≡ some (room_id, token)
unfolding parse_code
code_parsed = refl

join_room-cleanup_example :
    (join_room (cleanup registry room_id (codes "bob")).0 caps room_id token (codes "bob") member).1
    ≡ ok room_id token
join_room-cleanup_example =
    join_room-cleanup registry caps room_id token (codes "bob") member room room_found bob_there
      (omega arith) bob_named code_parsed
