-- ===== src/Relay/Rooms.antt =====
-- The rooms of the relay and what its connections do to them (workers/session-relay/relay_server.rs).
use thaum_painter.Base.{
  ℕ, ◌-◌, Bool, true, false, not, ◌||◌, Option, none, some, List, [], ◌∷◌, ◌++◌, map, length, take,
  filter, ltb, leb, if◌then◌else◌, is_some,
}
use thaum_painter.Base.Text.{Text, codes, text_eq, text_Eq}
use thaum_painter.Base.Map.{get, insert, remove}
use thaum_painter.Relay.Codes.{code_separator, trim_start, parse_code, generate_code}

-- The session's name for every joiner of a room.
abbrev pub broadcast_target : Text
broadcast_target = codes "all"

pub record RelayCaps : Type 0 where
  pub max_frame_bytes : ℕ
  pub max_members_per_room : ℕ
  pub max_rooms : ℕ
  pub joins_per_window : ℕ
  pub join_window : ℕ

-- A joiner; `kick` is whether its socket can be closed from here. Its queue is named by the room and
-- the user.
pub record Member : Type 0 where
  pub joined_at : ℕ
  pub kick : Bool

pub record Room : Type 0 where
  pub token : Text
  pub members : List (Text × Member)

pub record Registry : Type 0 where
  pub rooms : List (Text × Room)
  pub claim_attempts : List (Text × List ℕ)

-- What the relay sends or closes: a line in the queue of a room's host, with the joiner that it is
-- from, or in that of a joiner; a closed socket; news for a host or a joiner.
pub data Sent : Type 0 where
  to_host : (room user line : Text) → Sent
  to_member : (room user line : Text) → Sent
  kicked : (room user : Text) → Sent
  member_left : (room user : Text) → Sent
  room_closed : (room user : Text) → Sent

-- The answer to a role claim: the room and the token, or a reason.
pub data Answer : Type 0 where
  ok : (room token : Text) → Answer
  denied : (reason : Text) → Answer

unfoldable pub claim_rate_allows : Registry → Text → RelayCaps → ℕ → Registry × Bool
unfolding get insert filter
claim_rate_allows registry address caps now =
    let before : List ℕ = elim (get address registry.claim_attempts) [
      | none ↦ []
      | some ats ↦ ats
    ] in
    let attempts = filter (λ at. ltb (now - at) caps.join_window) before in
    if leb caps.joins_per_window (length attempts)
    then (
      record registry { claim_attempts = insert address attempts registry.claim_attempts },
      false,
    )
    else (
      record registry {
        claim_attempts = insert address (attempts ++ now ∷ []) registry.claim_attempts;
      },
      true,
    )

-- The loop that mints codes until the id of a room is free, over the random bytes of its turns.
unfoldable pub mint_room : Registry → List (List ℕ × List ℕ) → Registry × Answer
unfolding get insert generate_code
mint_room registry [] = (registry, denied (codes "server-full"))
mint_room registry (bytes ∷ turns) =
    let minted = generate_code bytes.0 bytes.1 in
    let later = mint_room registry turns in
    if is_some (get minted.0 registry.rooms) then later else (
      record registry {
        rooms = insert minted.0 (record { token = minted.1; members = [] }) registry.rooms;
      },
      ok minted.0 minted.1,
    )

unfoldable pub claim_host_room : Registry → RelayCaps → List (List ℕ × List ℕ) → Registry × Answer
unfolding mint_room
claim_host_room registry caps turns =
    if leb caps.max_rooms (length registry.rooms)
    then (registry, denied (codes "server-full"))
    else mint_room registry (take 64 turns)

-- The checks of `join_room` on a room that was found, and the joiner's entry.
unfoldable pub enter_room :
    Registry → RelayCaps → Text → Text → Text → Member → Room → Registry × Answer
unfolding get insert
enter_room registry caps room_id token user member room =
    if not (text_eq room.token token)
    then (registry, denied (codes "bad-code"))
    else if is_some (get user room.members)
    then (registry, denied (codes "user-id-in-use"))
    else if leb caps.max_members_per_room (length room.members)
    then (registry, denied (codes "room-full"))
    else (
      record registry {
        rooms =
            insert room_id (record room { members = insert user member room.members })
              registry.rooms;
      },
      ok room_id token,
    )

unfoldable pub join_room : Registry → RelayCaps → Text → Text → Text → Member → Registry × Answer
unfolding enter_room parse_code get
join_room registry caps room_id token user member =
    elim (parse_code (room_id ++ code_separator ∷ token)) [
      | none ↦ (registry, denied (codes "bad-code"))
      | some parts ↦
          if not (text_eq parts.0 room_id)
          then (registry, denied (codes "bad-code"))
          else elim (get room_id registry.rooms) [
            | none ↦ (registry, denied (codes "no-room"))
            | some room ↦ enter_room registry caps room_id parts.1 user member room
          ]
    ]

-- The claim of a joiner, with the check of the user's name.
unfoldable pub claim_join : Registry → RelayCaps → Text → Text → Text → Member → Registry × Answer
unfolding join_room trim_start
claim_join registry caps room_id token user member =
    if text_eq (trim_start user) [] || text_eq user broadcast_target
    then (registry, denied (codes "bad-user"))
    else join_room registry caps room_id token user member

-- A frame of JSON: the texts of its fields `type`, `to` and `line`, where they are texts.
pub record RoutedFrame : Type 0 where
  pub tag : Option Text
  pub to : Option Text
  pub line : Option Text

abbrev pub or_default : Option Text → Text
or_default none = []
or_default (some text) = text

unfoldable pub is_kick : RoutedFrame → Bool
is_kick value = elim value.tag [ none ↦ false | some tag ↦ text_eq tag (codes "kick") ]

-- Sockets that are closed, and lines that are queued, over the members of a room.
unfoldable pub kick_all : Text → List (Text × Member) → List Sent
kick_all room_id [] = []
kick_all room_id ((user, member) ∷ members) =
    let later = kick_all room_id members in
    if member.kick then kicked room_id user ∷ later else later

unfoldable pub kick : Text → Text → Room → List Sent
unfolding kick_all get
kick room_id to room =
    if text_eq to broadcast_target
    then kick_all room_id room.members
    else elim (get to room.members) [
      | none ↦ []
      | some member ↦ if member.kick then kicked room_id to ∷ [] else []
    ]

unfoldable pub from_host : Text → Text → Text → Room → List Sent
unfolding get
from_host room_id to line room =
    if text_eq to broadcast_target
    then map (λ (entry : Text × Member). to_member room_id entry.0 line) room.members
    else if is_some (get to room.members)
    then to_member room_id to line ∷ []
    else []

-- One turn of `route_loop` on a frame that was read: whether the loop goes on, and what is sent. A
-- frame that is not JSON is `none`. The room of a host that is gone is not found;
-- `host_open` is whether the host's queue still has its writer.
unfoldable pub route_frame : Registry → Bool → Text → Text → Option RoutedFrame → Bool × List Sent
unfolding is_kick kick from_host get
route_frame registry host_open room_id my_user_id none = (false, [])
route_frame registry host_open room_id my_user_id (some value) =
    if is_kick value
    then (
      true,
      elim (get room_id registry.rooms) [
        | none ↦ []
        | some room ↦ kick room_id (or_default value.to) room
      ],
    )
    else elim value.line [
      | none ↦ (false, [])
      | some line ↦ elim (get room_id registry.rooms) [
        | none ↦ (false, [])
        | some room ↦
            if text_eq my_user_id broadcast_target
            then (true, from_host room_id (or_default value.to) line room)
            else if host_open
            then (true, to_host room_id my_user_id line ∷ [])
            else (false, [])
      ]
    ]

-- The end of a connection.
unfoldable pub cleanup : Registry → Text → Text → Registry × List Sent
unfolding get insert remove
cleanup registry room_id my_user_id = elim (get room_id registry.rooms) [
  | none ↦ (registry, [])
  | some room ↦
      if text_eq my_user_id broadcast_target
      then (
        record registry { rooms = remove room_id registry.rooms },
        map (λ (entry : Text × Member). room_closed room_id entry.0) room.members,
      )
      else if is_some (get my_user_id room.members)
      then (
        record registry {
          rooms =
              insert room_id (record room { members = remove my_user_id room.members })
                registry.rooms;
        },
        member_left room_id my_user_id ∷ [],
      )
      else (registry, [])
]
