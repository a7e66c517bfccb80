-- ===== src/Relay/Joined.antt =====
-- A joiner's claim that is answered with ok, and one after a leave
-- (workers/session-relay/relay_server.rs).
use thaum_painter.Base.{
  ◌≤◌, ◌<◌, true, false, some, ◌∷◌, ◌++◌, length, leb, is_some, ◌≡◌, refl, ◌∙◌, ap, arith, inl, inr,
  Bool-cases, Option-cases,
}
use thaum_painter.Base.Text.{Text, text_eq, text_eq_iff, text_Eq, text_eq_refl}
use thaum_painter.Base.Map.{get, insert, remove, get-insert, get-remove, length-remove_there}
use thaum_painter.Relay.Codes.{code_separator, parse_code}
use thaum_painter.Relay.Rooms.{
  broadcast_target, Registry, Room, Member, RelayCaps, ok, enter_room, join_room, cleanup,
}

-- What a claim found that was let in, and what it leaves: the room had its token and space for the
-- user, and has the user as a member now.
pub record LetIn (registry after : Registry) (caps : RelayCaps) (room_id token user : Text)
    (member : Member) : Type 0 where
  pub room : Room
  pub found : get room_id registry.rooms ≡ some room
  pub same_token : room.token ≡ token
  pub free_name : is_some (get user room.members) ≡ false
  pub has_space : length room.members < caps.max_members_per_room
  pub entered :
      get room_id after.rooms ≡ some (record room { members = insert user member room.members })

enter_room-LetIn :
    (registry : Registry) (caps : RelayCaps) (room_id token user ok_room ok_token : Text)
    (member : Member) (room : Room)
    → get room_id registry.rooms ≡ some room
    → (enter_room registry caps room_id token user member room).1 ≡ ok ok_room ok_token
    → (ok_room ≡ room_id)
      × (ok_token ≡ token)
      × LetIn registry
          (enter_room registry caps room_id token user member room).0
          caps
          room_id
          token
          user
          member
unfolding enter_room
enter_room-LetIn registry caps room_id token user ok_room ok_token member room found h =
    elim (Bool-cases (text_eq room.token token)) [
      | inr e ↦ absurd (ground (arith, rw (enter_room, e) at h))
      | inl e ↦ elim (Bool-cases (is_some (get user room.members))) [
        | inl k ↦ absurd (ground (arith, rw (enter_room, e, k) at h))
        | inr k ↦ elim (Bool-cases (leb caps.max_members_per_room (length room.members))) [
          | inl n ↦ absurd (ground (arith, rw (enter_room, e, k, n) at h))
          | inr n ↦
              let answer = rw (enter_room, e, k, n) at h in
              let bigger : Room = record room { members = insert user member room.members } in
              rw (enter_room, e, k, n)
                (
                  ground (arith, answer),
                  ground (arith, answer),
                  record {
                    room = room;
                    found = found;
                    same_token = (text_eq_iff room.token token).0 e;
                    free_name = k;
                    has_space = ground (arith, n);
                    entered =
                        get-insert room_id room_id bigger registry.rooms
                        ∙ rw (text_eq_refl room_id) refl;
                  },
                )
        ]
      ]
    ]

-- A joiner is let in only where the code it names parses to the room it names, that room is there with
-- the token, no joiner of the room has its name and the room has space; then it is a member of it.
pub join_room-LetIn :
    (registry : Registry) (caps : RelayCaps) (room_id token user ok_room ok_token : Text)
    (member : Member)
    → (join_room registry caps room_id token user member).1 ≡ ok ok_room ok_token
    → (ok_room ≡ room_id)
      × (parse_code (room_id ++ code_separator ∷ token) ≡ some (room_id, ok_token))
      × LetIn registry
          (join_room registry caps room_id token user member).0
          caps
          room_id
          ok_token
          user
          member
unfolding join_room
join_room-LetIn registry caps room_id token user ok_room ok_token member h =
    elim (Option-cases (parse_code (room_id ++ code_separator ∷ token))) [
      | inl e ↦ absurd (ground (arith, rw (join_room, e) at h))
      | inr e ↦ elim (Bool-cases (text_eq (e.0).0 room_id)) [
        | inr k ↦ absurd (ground (arith, rw (join_room, e.1, k) at h))
        | inl k ↦ elim (Option-cases (get room_id registry.rooms)) [
          | inl n ↦ absurd (ground (arith, rw (join_room, e.1, k, n) at h))
          | inr n ↦
              let entered =
                enter_room-LetIn registry caps room_id (e.0).1 user ok_room ok_token member n.0 n.1
                  (rw (join_room, e.1, k, n.1) at h) in
              let same : (e.0).0 ≡ room_id = (text_eq_iff (e.0).0 room_id).0 k in
              let parts : some e.0 ≡ some (room_id, ok_token) =
                rw (entered.1) (ap (λ t. some (t, (e.0).1)) same) in
              rw (join_room, e.1, k, n.1) (entered.0, parts, rw (entered.1) (entered.2))
        ]
      ]
    ]

cleanup_member :
    (registry : Registry) (room_id user : Text) (room : Room)
    → get room_id registry.rooms ≡ some room
    → is_some (get user room.members) ≡ true
    → text_eq user broadcast_target ≡ false
    → (cleanup registry room_id user).0 ≡ record registry {
      rooms = insert room_id (record room { members = remove user room.members }) registry.rooms;
    }
unfolding cleanup
cleanup_member registry room_id user room found there named = rw (cleanup, found, named, there) refl

let_in :
    (r : Registry) (caps : RelayCaps) (room_id token user : Text) (member : Member) (room : Room)
    → get room_id r.rooms ≡ some room
    → is_some (get user room.members) ≡ false
    → leb caps.max_members_per_room (length room.members) ≡ false
    → parse_code (room_id ++ code_separator ∷ token) ≡ some (room_id, room.token)
    → (join_room r caps room_id token user member).1 ≡ ok room_id room.token
unfolding join_room enter_room
let_in r caps room_id token user member room found free space code =
    rw
      (
        join_room,
        code,
        text_eq_refl room_id,
        found,
        enter_room,
        text_eq_refl room.token,
        free,
        space,
      )
      refl

-- A joiner whose connection has ended is let in again with the code of its room, where the room was
-- within its cap.
pub join_room-cleanup :
    (registry : Registry) (caps : RelayCaps) (room_id token user : Text) (member : Member)
    (room : Room)
    → get room_id registry.rooms ≡ some room
    → is_some (get user room.members) ≡ true
    → length room.members ≤ caps.max_members_per_room
    → text_eq user broadcast_target ≡ false
    → parse_code (room_id ++ code_separator ∷ token) ≡ some (room_id, room.token)
    → (join_room (cleanup registry room_id user).0 caps room_id token user member).1
      ≡ ok room_id room.token
join_room-cleanup registry caps room_id token user member room found there few named code =
    let left : Room = record room { members = remove user room.members } in
    let gone : is_some (get user left.members) ≡ false =
      rw (get-remove user user room.members, text_eq_refl user) refl in
    let space : leb caps.max_members_per_room (length left.members) ≡ false =
      ground (arith, length-remove_there user room.members there, few) in
    let kept : get room_id (insert room_id left registry.rooms) ≡ some left =
      get-insert room_id room_id left registry.rooms ∙ rw (text_eq_refl room_id) refl in
    let r : Registry = record registry { rooms = insert room_id left registry.rooms } in
    rw (cleanup_member registry room_id user room found there named)
      (let_in r caps room_id token user member left kept gone space code)
