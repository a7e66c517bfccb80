-- ===== src/Relay/Served.antt =====
-- Every registry that the relay's connections reach (workers/session-relay/relay_server.rs).
use thaum_painter.Base.{
  ℕ, ◌≤◌, false, none, some, List, [], ◌∷◌, ◌++◌, length, filter, ltb, leb, ◌-◌, is_some, ◌≡◌,
  arith, inl, inr, Bool-cases, Option-cases,
}
use thaum_painter.Base.Text.{Text, text_eq, text_Eq}
use thaum_painter.Base.Map.{get, remove, get-remove, length-remove}
use thaum_painter.Relay.Codes.{code_separator, trim_start, parse_code}
use thaum_painter.Relay.Rooms.{
  broadcast_target, Registry, Member, RelayCaps, join_room, claim_join, claim_host_room, cleanup,
  claim_rate_allows,
}
use thaum_painter.Relay.Doors.{IsWithin, rewritten, claim_host_room-IsWithin, enter_room-IsWithin}

join_room-IsWithin :
    (caps : RelayCaps) (registry : Registry) (room_id token user : Text) (member : Member)
    → IsWithin caps registry
    → text_eq user broadcast_target ≡ false
    → IsWithin caps (join_room registry caps room_id token user member).0
unfolding join_room
join_room-IsWithin caps registry room_id token user member within named =
    elim (Option-cases (parse_code (room_id ++ code_separator ∷ token))) [
      | inl e ↦ rw (join_room, e) within
      | inr e ↦ elim (Bool-cases (text_eq (e.0).0 room_id)) [
        | inr k ↦ rw (join_room, e.1, k) within
        | inl k ↦ elim (Option-cases (get room_id registry.rooms)) [
          | inl n ↦ rw (join_room, e.1, k, n) within
          | inr n ↦
              rw (join_room, e.1, k, n.1)
                (enter_room-IsWithin caps registry room_id (e.0).1 user member n.0 within n.1 named)
        ]
      ]
    ]

claim_join-IsWithin :
    (caps : RelayCaps) (registry : Registry) (room_id token user : Text) (member : Member)
    → IsWithin caps registry
    → IsWithin caps (claim_join registry caps room_id token user member).0
unfolding claim_join
claim_join-IsWithin caps registry room_id token user member within =
    elim (Bool-cases (text_eq (trim_start user) [])) [
      | inl e ↦ rw (claim_join, e) within
      | inr e ↦ elim (Bool-cases (text_eq user broadcast_target)) [
        | inl k ↦ rw (claim_join, e, k) within
        | inr k ↦
            rw (claim_join, e, k)
              (join_room-IsWithin caps registry room_id token user member within k)
      ]
    ]

closed_room :
    (caps : RelayCaps) (registry : Registry) (room_id : Text)
    → IsWithin caps registry
    → IsWithin caps (record registry { rooms = remove room_id registry.rooms })
closed_room caps registry room_id within = record {
  few_rooms = omega (arith, length-remove room_id registry.rooms, within.few_rooms);
  each_room = λ other state h. elim (Bool-cases (text_eq room_id other)) [
    | inl e ↦ absurd (ground (arith, rw (get-remove room_id other registry.rooms, e) at h))
    | inr e ↦ within.each_room other state (rw (get-remove room_id other registry.rooms, e) at h)
  ];
}

cleanup-IsWithin :
    (caps : RelayCaps) (registry : Registry) (room_id user : Text)
    → IsWithin caps registry
    → IsWithin caps (cleanup registry room_id user).0
unfolding cleanup
cleanup-IsWithin caps registry room_id user within =
    elim (Option-cases (get room_id registry.rooms)) [
      | inl e ↦ rw (cleanup, e) within
      | inr e ↦ elim (Bool-cases (text_eq user broadcast_target)) [
        | inl k ↦ rw (cleanup, e.1, k) (closed_room caps registry room_id within)
        | inr k ↦ elim (Bool-cases (is_some (get user (e.0).members))) [
          | inr n ↦ rw (cleanup, e.1, k, n) within
          | inl n ↦
              let good = within.each_room room_id e.0 e.1 in
              let fewer : length (remove user (e.0).members) ≤ caps.max_members_per_room =
                omega (arith, length-remove user (e.0).members, good.0) in
              rw (cleanup, e.1, k, n)
                (rewritten caps registry room_id e.0
                  (record (e.0) { members = remove user (e.0).members }) within e.1
                  (fewer, rw (get-remove user broadcast_target (e.0).members, k) (good.1)))
        ]
      ]
    ]

claim_rate_allows-IsWithin :
    (caps : RelayCaps) (registry : Registry) (address : Text) (now : ℕ)
    → IsWithin caps registry
    → IsWithin caps (claim_rate_allows registry address caps now).0
unfolding claim_rate_allows
claim_rate_allows-IsWithin caps registry address now within =
    let before : List ℕ = elim (get address registry.claim_attempts) [
      | none ↦ []
      | some ats ↦ ats
    ] in
    elim (Bool-cases (
      leb caps.joins_per_window (length (filter (λ at. ltb (now - at) caps.join_window) before)))) [
        | inl e ↦
            rw (claim_rate_allows, e)
              (record { few_rooms = within.few_rooms; each_room = within.each_room })
        | inr e ↦
            rw (claim_rate_allows, e)
              (record { few_rooms = within.few_rooms; each_room = within.each_room })
      ]

-- What connections do to the registry: a role claim is counted, a host opens a room, a joiner enters
-- one, and a connection ends. Frames that are routed leave it as it is.
pub data RelayStep (caps : RelayCaps) : Registry → Registry → Type 0 where
  counted :
      (registry : Registry) (address : Text) (now : ℕ)
      → RelayStep caps registry (claim_rate_allows registry address caps now).0
  hosted :
      (registry : Registry) (turns : List (List ℕ × List ℕ))
      → RelayStep caps registry (claim_host_room registry caps turns).0
  joined :
      (registry : Registry) (room_id token user : Text) (member : Member)
      → RelayStep caps registry (claim_join registry caps room_id token user member).0
  ended :
      (registry : Registry) (room_id user : Text)
      → RelayStep caps registry (cleanup registry room_id user).0

-- Any number of them, from a relay that has just started.
pub data RelayRun (caps : RelayCaps) : Registry → Type 0 where
  started : RelayRun caps (record { rooms = []; claim_attempts = [] })
  after : {r s : Registry} → RelayRun caps r → RelayStep caps r s → RelayRun caps s

RelayStep-IsWithin :
    (caps : RelayCaps) {r s : Registry} → RelayStep caps r s → IsWithin caps r → IsWithin caps s
RelayStep-IsWithin caps (counted r address now) within =
    claim_rate_allows-IsWithin caps r address now within
RelayStep-IsWithin caps (hosted r turns) within = claim_host_room-IsWithin caps r turns within
RelayStep-IsWithin caps (joined r room_id token user member) within =
    claim_join-IsWithin caps r room_id token user member within
RelayStep-IsWithin caps (ended r room_id user) within = cleanup-IsWithin caps r room_id user within

-- However connections come and go, the relay never has more rooms than its cap, nor a room more
-- joiners than its cap, nor a joiner named as all joiners are.
pub RelayRun-IsWithin :
    (caps : RelayCaps) (registry : Registry) → RelayRun caps registry → IsWithin caps registry
unfolding get
RelayRun-IsWithin caps _ started = record {
  few_rooms = omega arith;
  each_room = λ room_id room h. absurd (ground (arith, h));
}
RelayRun-IsWithin caps registry (after {r} run step) =
    RelayStep-IsWithin caps step (RelayRun-IsWithin caps r run)
