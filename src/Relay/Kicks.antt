-- ===== src/Relay/Kicks.antt =====
-- Which sockets a kick closes (workers/session-relay/relay_server.rs, `route_loop`).
use thaum_painter.Base.{
  Bool, true, false, none, some, List, [], ◌∷◌, map, is_some, ◌≡◌, ◌↔◌, refl, sym, ◌∙◌, arith, ◌∈◌,
  ◌⊎◌, inl, inr, Bool-cases, Option-cases, Nodup,
}
use thaum_painter.Base.Text.{Text, text_eq, text_eq_iff, text_Eq}
use thaum_painter.Base.Map.{get}
use thaum_painter.Relay.Rooms.{
  broadcast_target, Registry, Room, Member, RoutedFrame, or_default, is_kick, route_frame, kicked,
  kick, kick_all,
}
use thaum_painter.Relay.Routing.{mem-members}

-- Whether a user is a member of a room whose socket can be closed.
unfoldable pub has_socket : Text → List (Text × Member) → Bool
unfolding get
has_socket user members = elim (get user members) [ none ↦ false | some member ↦ member.kick ]

has_socket_known :
    (user : Text) (members : List (Text × Member))
    → has_socket user members ≡ true
    → is_some (get user members) ≡ true
unfolding has_socket
has_socket_known user members h = elim (Option-cases (get user members)) [
  | inl e ↦ ground (arith, rw (has_socket, e) at h)
  | inr e ↦ rw (e.1) refl
]

has_socket_found :
    (user : Text) (members : List (Text × Member)) (member : Member)
    → get user members ≡ some member
    → has_socket user members ≡ member.kick
unfolding has_socket
has_socket_found user members member g = rw (has_socket, g) refl

mem-kick_all :
    (room_id user : Text) (members : List (Text × Member))
    → Nodup (map (λ (entry : Text × Member). entry.0) members)
    → (kicked room_id user ∈ kick_all room_id members) ↔ (has_socket user members ≡ true)
unfolding kick_all get has_socket
mem-kick_all room_id user [] distinct = ground arith
mem-kick_all room_id user ((u, m) ∷ members) distinct =
    let ih = mem-kick_all room_id user members distinct.1 in
    elim (Bool-cases (text_eq u user)) [
      | inl e ↦
          let same : u ≡ user = (text_eq_iff u user).0 e in
          let gone : ¬ (kicked room_id user ∈ kick_all room_id members) = λ k.
            distinct.0
              (rw same ((mem-members user members).0 (has_socket_known user members (ih.0 k)))) in
          elim (Bool-cases m.kick) [
            | inl k ↦ rw (kick_all, has_socket, e, k) (λ h. refl, λ h. inl (rw same refl))
            | inr k ↦ rw (kick_all, has_socket, e, k) (λ h. absurd (gone h), λ h. ground (arith, h))
          ]
      | inr e ↦ elim (Bool-cases m.kick) [
        | inl k ↦
            rw (kick_all, has_socket, e, k)
              (
                λ h. elim h [
                  | inl s ↦ ground (arith, s, e, text_eq_iff u user)
                  | inr later ↦ ih.0 later
                ],
                λ h. inr (ih.1 h),
              )
        | inr k ↦ rw (kick_all, has_socket, e, k) ih
      ]
    ]

mem-kick :
    (room_id to user : Text) (room : Room)
    → Nodup (map (λ (entry : Text × Member). entry.0) room.members)
    → (kicked room_id user ∈ kick room_id to room)
      ↔ ((has_socket user room.members ≡ true) × ((to ≡ broadcast_target) ⊎ (to ≡ user)))
unfolding kick
mem-kick room_id to user room distinct = elim (Bool-cases (text_eq to broadcast_target)) [
  | inl e ↦
      let all : to ≡ broadcast_target = (text_eq_iff to broadcast_target).0 e in
      let each = mem-kick_all room_id user room.members distinct in
      rw (kick, e) (λ h. (each.0 h, inl all), λ h. each.1 h.0)
  | inr e ↦
      let one : ¬ (to ≡ broadcast_target) =
        λ s. ground (arith, e, (text_eq_iff to broadcast_target).1 s) in
      elim (Option-cases (get to room.members)) [
        | inl g ↦
            rw (kick, e, g)
              (
                λ h. absurd h,
                λ h. elim h.1 [
                  | inl s ↦ absurd (one s)
                  | inr s ↦ ground (arith, has_socket_known user room.members h.0, rw s at g)
                ],
              )
        | inr g ↦ elim (Bool-cases (g.0).kick) [
          | inl k ↦
              rw (kick, e, g.1, k)
                (
                  λ h. elim h [
                    | inl s ↦
                        let same : user ≡ to = ground (arith, s) in
                        (rw same (has_socket_found to room.members g.0 g.1 ∙ k), inr (sym same))
                    | inr n ↦ absurd n
                  ],
                  λ h. elim h.1 [ inl s ↦ absurd (one s) | inr s ↦ inl (rw s refl) ],
                )
          | inr k ↦
              rw (kick, e, g.1, k)
                (
                  λ h. absurd h,
                  λ h. elim h.1 [
                    | inl s ↦ absurd (one s)
                    | inr s ↦
                        let h' : has_socket to room.members ≡ true = rw s h.0 in
                        ground (arith, k, has_socket_found to room.members g.0 g.1, h')
                  ],
                )
        ]
      ]
]

-- A kick frame, whoever of a room sends it, the host or any joiner, lets its sender go on and closes
-- the socket of a user exactly if that is a member whose socket is held and is named or all are. The
-- members of the room have distinct names.
pub route_frame-kick :
    (registry : Registry) (host_open : Bool) (room_id sender user : Text) (value : RoutedFrame)
    (room : Room)
    → get room_id registry.rooms ≡ some room
    → Nodup (map (λ (entry : Text × Member). entry.0) room.members)
    → is_kick value ≡ true
    → ((route_frame registry host_open room_id sender (some value)).0 ≡ true)
      × ((kicked room_id user ∈ (route_frame registry host_open room_id sender (some value)).1) ↔ (
          (has_socket user room.members ≡ true)
          × ((or_default value.to ≡ broadcast_target) ⊎ (or_default value.to ≡ user))))
unfolding route_frame
route_frame-kick registry host_open room_id sender user value room found distinct h =
    rw (route_frame, h, found) (refl, mem-kick room_id (or_default value.to) user room distinct)
