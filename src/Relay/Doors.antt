-- ===== src/Relay/Doors.antt =====
-- Who gets into a room, and the caps of the relay (workers/session-relay/relay_server.rs).
use thaum_painter.Base.{
  ℕ, ◌≤◌, ◌<◌, false, some, List, [], ◌∷◌, length, take, leb, is_some, ◌≡◌, refl, arith, inl, inr,
  Bool-cases,
}
use thaum_painter.Base.Text.{Text, text_eq, text_Eq}
use thaum_painter.Base.Map.{get, insert, get-insert, length-insert}
use thaum_painter.Relay.Codes.{generate_code}
use thaum_painter.Relay.Rooms.{
  broadcast_target, Registry, Room, Member, RelayCaps, enter_room, claim_host_room, mint_room,
}

-- A registry within the caps: not too many rooms, and in each room not too many joiners, none of them
-- named as all joiners are.
abbrev pub IsRoom : RelayCaps → Room → Type 0
IsRoom caps room =
    (length room.members ≤ caps.max_members_per_room)
    × (is_some (get broadcast_target room.members) ≡ false)

pub record IsWithin (caps : RelayCaps) (registry : Registry) : Type 0 where
  pub few_rooms : length registry.rooms ≤ caps.max_rooms
  pub each_room :
      (room_id : Text) (room : Room) → get room_id registry.rooms ≡ some room → IsRoom caps room

-- One room written, where the other rooms stay.
written :
    (caps : RelayCaps) (registry : Registry) (room_id : Text) (room : Room)
    → IsWithin caps registry
    → IsRoom caps room
    → length (insert room_id room registry.rooms) ≤ caps.max_rooms
    → IsWithin caps (record registry { rooms = insert room_id room registry.rooms })
written caps registry room_id room within good few = record {
  few_rooms = few;
  each_room = λ other state h. elim (Bool-cases (text_eq room_id other)) [
    | inl e ↦
        let same : state ≡ room =
          ground (arith, rw (get-insert room_id other room registry.rooms, e) at h) in
        rw same good
    | inr e ↦
        within.each_room other state (rw (get-insert room_id other room registry.rooms, e) at h)
  ];
}

pub rewritten :
    (caps : RelayCaps) (registry : Registry) (room_id : Text) (old room : Room)
    → IsWithin caps registry
    → get room_id registry.rooms ≡ some old
    → IsRoom caps room
    → IsWithin caps (record registry { rooms = insert room_id room registry.rooms })
rewritten caps registry room_id old room within found good =
    written caps registry room_id room within good
      (rw (length-insert room_id room registry.rooms, found) (within.few_rooms))

empty-IsRoom :
    (caps : RelayCaps) (token : Text) → IsRoom caps (record { token = token; members = [] })
unfolding get
empty-IsRoom caps token = (omega arith, refl)

mint_room-IsWithin :
    (caps : RelayCaps) (registry : Registry) (turns : List (List ℕ × List ℕ))
    → IsWithin caps registry
    → length registry.rooms < caps.max_rooms
    → IsWithin caps (mint_room registry turns).0
unfolding mint_room
mint_room-IsWithin caps registry [] within free = within
mint_room-IsWithin caps registry (bytes ∷ turns) within free =
    let minted = generate_code bytes.0 bytes.1 in
    let fresh : Room = record { token = minted.1; members = [] } in
    elim (Bool-cases (is_some (get minted.0 registry.rooms))) [
      | inl e ↦ rw (mint_room, e) (mint_room-IsWithin caps registry turns within free)
      | inr e ↦
          rw (mint_room, e)
            (written caps registry minted.0 fresh within (empty-IsRoom caps minted.1)
              (rw (length-insert minted.0 fresh registry.rooms, e) (omega (arith, free))))
    ]

pub claim_host_room-IsWithin :
    (caps : RelayCaps) (registry : Registry) (turns : List (List ℕ × List ℕ))
    → IsWithin caps registry
    → IsWithin caps (claim_host_room registry caps turns).0
unfolding claim_host_room
claim_host_room-IsWithin caps registry turns within =
    elim (Bool-cases (leb caps.max_rooms (length registry.rooms))) [
      | inl e ↦ rw (claim_host_room, e) within
      | inr e ↦
          let free : length registry.rooms < caps.max_rooms = ground (arith, e) in
          rw (claim_host_room, e) (mint_room-IsWithin caps registry (take 64 turns) within free)
    ]

pub enter_room-IsWithin :
    (caps : RelayCaps) (registry : Registry) (room_id token user : Text) (member : Member)
    (room : Room)
    → IsWithin caps registry
    → get room_id registry.rooms ≡ some room
    → text_eq user broadcast_target ≡ false
    → IsWithin caps (enter_room registry caps room_id token user member room).0
unfolding enter_room
enter_room-IsWithin caps registry room_id token user member room within found named =
    elim (Bool-cases (text_eq room.token token)) [
      | inr e ↦ rw (enter_room, e) within
      | inl e ↦ elim (Bool-cases (is_some (get user room.members))) [
        | inl k ↦ rw (enter_room, e, k) within
        | inr k ↦ elim (Bool-cases (leb caps.max_members_per_room (length room.members))) [
          | inl n ↦ rw (enter_room, e, k, n) within
          | inr n ↦
              let good = within.each_room room_id room found in
              let free : length room.members < caps.max_members_per_room = ground (arith, n) in
              let bigger : Room = record room { members = insert user member room.members } in
              rw (enter_room, e, k, n)
                (rewritten caps registry room_id room bigger within found (
                  rw (length-insert user member room.members, k) (omega (arith, free)),
                  rw (get-insert user broadcast_target member room.members, named) (good.1),
                ))
        ]
      ]
    ]
