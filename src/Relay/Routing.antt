-- ===== src/Relay/Routing.antt =====
-- Where the lines of a room go (workers/session-relay/relay_server.rs, `route_loop`).
use thaum_painter.Base.{
  Bool, true, false, some, List, [], ◌∷◌, map, is_some, ◌≡◌, ◌↔◌, refl, sym, arith, ◌∈◌, ◌⊎◌, inl,
  inr, Bool-cases,
}
use thaum_painter.Base.Text.{Text, text_eq, text_eq_iff, text_Eq}
use thaum_painter.Base.Map.{get}
use thaum_painter.Relay.Rooms.{
  broadcast_target, Registry, Room, Member, to_host, to_member, RoutedFrame, or_default, is_kick,
  from_host, route_frame,
}

-- The users of a room that a line of the host is for.
abbrev Receives : Text → Text → Room → Type 0
Receives to user room =
    (is_some (get user room.members) ≡ true) × ((to ≡ broadcast_target) ⊎ (to ≡ user))

pub mem-members :
    (user : Text) (members : List (Text × Member))
    → (is_some (get user members) ≡ true)
      ↔ (user ∈ map (λ (entry : Text × Member). entry.0) members)
unfolding get
mem-members user [] = ground arith
mem-members user ((u, m) ∷ members) = ground (arith, mem-members user members, text_eq_iff u user)

mem-sent :
    (room_id user line : Text) (members : List (Text × Member))
    → (to_member room_id user line
        ∈ map (λ (entry : Text × Member). to_member room_id entry.0 line) members)
      ↔ (user ∈ map (λ (entry : Text × Member). entry.0) members)
mem-sent room_id user line [] = ground arith
mem-sent room_id user line ((u, m) ∷ members) = ground (arith, mem-sent room_id user line members)

from_host-Receives :
    (room_id to user line : Text) (room : Room)
    → (to_member room_id user line ∈ from_host room_id to line room) ↔ Receives to user room
unfolding from_host
from_host-Receives room_id to user line room = elim (Bool-cases (text_eq to broadcast_target)) [
  | inl e ↦
      let all : to ≡ broadcast_target = (text_eq_iff to broadcast_target).0 e in
      rw (from_host, e)
        (
          λ m. (
            (mem-members user room.members).1 ((mem-sent room_id user line room.members).0 m),
            inl all,
          ),
          λ h. (mem-sent room_id user line room.members).1 ((mem-members user room.members).0 h.0),
        )
  | inr e ↦ elim (Bool-cases (is_some (get to room.members))) [
    | inl k ↦
        rw (from_host, e, k)
          (
            λ m. elim m [
              | inl s ↦ let same : user ≡ to = ground (arith, s) in (rw same k, inr (sym same))
              | inr n ↦ absurd n
            ],
            λ h. elim h.1 [
              | inl all ↦ absurd (ground (arith, e, (text_eq_iff to broadcast_target).1 all))
              | inr s ↦ inl (rw s refl)
            ],
          )
    | inr k ↦
        rw (from_host, e, k)
          (
            λ m. absurd m,
            λ h. elim h.1 [
              | inl all ↦ absurd (ground (arith, e, (text_eq_iff to broadcast_target).1 all))
              | inr s ↦ absurd (ground (arith, h.0, rw s at k))
            ],
          )
  ]
]

no_host_line :
    (room_id user line : Text) (members : List (Text × Member)) (other : Text)
    → ¬ (
        to_host room_id user line
        ∈ map (λ (entry : Text × Member). to_member room_id entry.0 other) members)
no_host_line room_id user line [] other m = m
no_host_line room_id user line (entry ∷ members) other (inl e) = ground (arith, e)
no_host_line room_id user line (entry ∷ members) other (inr m) =
    no_host_line room_id user line members other m

from_host-no_host_line :
    (room_id to user line other : Text) (room : Room)
    → ¬ (to_host room_id user line ∈ from_host room_id to other room)
unfolding from_host
from_host-no_host_line room_id to user line other room m =
    elim (Bool-cases (text_eq to broadcast_target)) [
      | inl e ↦ no_host_line room_id user line room.members other (rw (from_host, e) at m)
      | inr e ↦ elim (Bool-cases (is_some (get to room.members))) [
        | inl k ↦ ground (arith, rw (from_host, e, k) at m)
        | inr k ↦ rw (from_host, e, k) at m
      ]
    ]

-- A line that is routed goes to a joiner exactly if the host sends it, and that joiner is in the room
-- and is named or all are; it goes to the host exactly as a line of the joiner that sends it, while
-- the host's queue is open.
pub route_frame-delivers :
    (registry : Registry) (host_open : Bool) (room_id sender user line : Text) (value : RoutedFrame)
    (room : Room)
    → get room_id registry.rooms ≡ some room
    → is_kick value ≡ false
    → value.line ≡ some line
    → ((to_member room_id user line
          ∈ (route_frame registry host_open room_id sender (some value)).1)
        ↔ ((sender ≡ broadcast_target)
            × (is_some (get user room.members) ≡ true)
            × ((or_default value.to ≡ broadcast_target) ⊎ (or_default value.to ≡ user))))
      × ((to_host room_id user line
            ∈ (route_frame registry host_open room_id sender (some value)).1)
          ↔ (¬ (sender ≡ broadcast_target) × (sender ≡ user) × (host_open ≡ true)))
unfolding route_frame
route_frame-delivers registry host_open room_id sender user line value room found plain text =
    elim (Bool-cases (text_eq sender broadcast_target)) [
      | inl e ↦
          let host : sender ≡ broadcast_target = (text_eq_iff sender broadcast_target).0 e in
          let lines = from_host-Receives room_id (or_default value.to) user line room in
          rw (route_frame, plain, text, found, e)
            (
              (λ m. (host, (lines.0 m).0, (lines.0 m).1), λ h. lines.1 (h.1, h.2)),
              (
                λ m.
                    absurd
                      (from_host-no_host_line room_id (or_default value.to) user line line room m),
                λ h. absurd (h.0 host),
              ),
            )
      | inr e ↦
          let joiner : ¬ (sender ≡ broadcast_target) =
            λ s. ground (arith, e, (text_eq_iff sender broadcast_target).1 s) in
          elim (Bool-cases host_open) [
            | inl o ↦
                rw (route_frame, plain, text, found, e, o)
                  (
                    (λ m. ground (arith, m), λ h. absurd (joiner h.0)),
                    (
                      λ m. elim m [ inl s ↦ (joiner, ground (arith, s), refl) | inr n ↦ absurd n ],
                      λ h. inl (rw (h.1) refl),
                    ),
                  )
            | inr o ↦
                rw (route_frame, plain, text, found, e, o)
                  (
                    (λ m. absurd m, λ h. absurd (joiner h.0)),
                    (λ m. absurd m, λ h. ground (arith, h.2)),
                  )
          ]
    ]
