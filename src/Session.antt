-- ===== src/Session.antt =====
-- The host of a session: its log, its clients and their queues, and the messages that they send
-- (workers/session-host/session_host.rs).
pub mod Handled
pub mod Heard
pub mod Delivered
pub mod Followed
pub mod Served
mod Tests
use thaum_painter.Base.{
  ℕ, ◌-◌, Bool, true, false, not, ◌&&◌, ◌||◌, Option, none, some, List, [], ◌∷◌, ◌++◌, map, filter,
  length, leb, ◌==◌, if◌then◌else◌, is_some,
}
use thaum_painter.Base.Int.{ℤ}
use thaum_painter.Base.Text.{Text, text_eq, text_Eq}
use thaum_painter.Base.Map.{get, insert, remove}

-- In milliseconds.
abbrev pub duplicate_rejoin_evict_after : ℕ
duplicate_rejoin_evict_after = 5000

abbrev pub session_protocol_version : ℕ
session_protocol_version = 3

abbrev pub Cursor : Type 0
Cursor = Option (ℤ × ℤ × ℤ)

pub record SessionUser : Type 0 where
  pub user_id : Text
  pub display_name : Text
  pub presence_color : ℕ × ℕ × ℕ

-- `Entry` is the record of an action, which the host only copies.
pub data ClientMessage (Entry : Type 0) : Type 0 where
  hello : (user : SessionUser) → (protocol_version : ℕ) → ClientMessage Entry
  action : Entry → ClientMessage Entry
  presence : Cursor → ClientMessage Entry
  rename : Text → ClientMessage Entry
  bye : ClientMessage Entry
  ping : ClientMessage Entry

pub data HostMessage (Entry Snapshot : Type 0) : Type 0 where
  welcome :
      (snapshot : Snapshot)
      → (log_length : ℕ) → (roster : List SessionUser) → HostMessage Entry Snapshot
  logged : Entry → HostMessage Entry Snapshot
  moved : Text → Cursor → HostMessage Entry Snapshot
  roster_of : List SessionUser → HostMessage Entry Snapshot
  denied : (reason : Text) → HostMessage Entry Snapshot
  ended_by_host : HostMessage Entry Snapshot
  pong : HostMessage Entry Snapshot

pub data ClientRejection : Type 0 where
  protocol_version duplicate_user_id snapshot_unavailable not_joined session_ended : ClientRejection

pub record HostClient (Entry Snapshot : Type 0) : Type 0 where
  pub user : SessionUser
  pub outgoing : List (HostMessage Entry Snapshot)

-- `snapshot_source` is the document that the source would give now.
pub record SessionHost (Entry Snapshot : Type 0) : Type 0 where
  pub host_user : Option SessionUser
  pub records : List Entry
  pub clients : List (HostClient Entry Snapshot)
  pub cursors : List (Text × Cursor)
  pub last_seen : List (Text × ℕ)
  pub snapshot_source : Option Snapshot
  pub ended : Bool

module _ {Entry Snapshot : Type 0} where
  abbrev pub is_user : Text → HostClient Entry Snapshot → Bool
  is_user user_id client = text_eq client.user.user_id user_id

  abbrev pub queued :
      HostMessage Entry Snapshot → HostClient Entry Snapshot → HostClient Entry Snapshot
  queued message client = record client { outgoing = client.outgoing ++ message ∷ [] }

  unfoldable pub has_client : Text → List (HostClient Entry Snapshot) → Bool
  has_client user_id [] = false
  has_client user_id (client ∷ clients) = is_user user_id client || has_client user_id clients

  -- A message in the queue of the first client that is the user, of all clients but those that are
  -- the user, and of all clients.
  unfoldable pub queue_first :
      Text
      → HostMessage Entry Snapshot
      → List (HostClient Entry Snapshot)
      → List (HostClient Entry Snapshot)
  queue_first user_id message [] = []
  queue_first user_id message (client ∷ clients) =
      let rest = queue_first user_id message clients in
      if is_user user_id client then queued message client ∷ clients else client ∷ rest

  unfoldable pub queue_others :
      Text
      → HostMessage Entry Snapshot
      → List (HostClient Entry Snapshot)
      → List (HostClient Entry Snapshot)
  queue_others user_id message [] = []
  queue_others user_id message (client ∷ clients) =
      let rest = queue_others user_id message clients in
      if is_user user_id client then client ∷ rest else queued message client ∷ rest

  unfoldable pub queue_all :
      HostMessage Entry Snapshot
      → List (HostClient Entry Snapshot)
      → List (HostClient Entry Snapshot)
  queue_all message clients = map (queued message) clients

  unfoldable pub roster : SessionHost Entry Snapshot → List SessionUser
  roster host =
      let users : List SessionUser =
        map (λ (client : HostClient Entry Snapshot). client.user) host.clients in
      elim host.host_user [ none ↦ users | some user ↦ user ∷ users ]

  unfoldable pub broadcast_others :
      SessionHost Entry Snapshot → Text → HostMessage Entry Snapshot → SessionHost Entry Snapshot
  unfolding queue_others
  broadcast_others host sender_id message = record host {
    clients = queue_others sender_id message host.clients;
  }

  unfoldable pub queue_to :
      SessionHost Entry Snapshot → Text → HostMessage Entry Snapshot → SessionHost Entry Snapshot
  unfolding queue_first
  queue_to host user_id message = record host { clients = queue_first user_id message host.clients }

  unfoldable pub set_host_display_name :
      SessionHost Entry Snapshot → Text → SessionHost Entry Snapshot
  unfolding roster queue_all
  set_host_display_name host display_name = elim host.host_user [
    | none ↦ host
    | some user ↦
        let named : SessionHost Entry Snapshot = record host {
          host_user = some (record user { display_name = display_name });
        } in
        record named { clients = queue_all (roster_of (roster named)) named.clients }
  ]

  unfoldable pub disconnect : SessionHost Entry Snapshot → Text → SessionHost Entry Snapshot
  unfolding filter remove broadcast_others roster
  disconnect host user_id =
      let gone : SessionHost Entry Snapshot = record host {
        clients = filter (λ client. not (is_user user_id client)) host.clients;
        cursors = remove user_id host.cursors;
        last_seen = remove user_id host.last_seen;
      } in
      broadcast_others gone user_id (roster_of (roster gone))

  unfoldable pub evict_clients : SessionHost Entry Snapshot → SessionHost Entry Snapshot
  evict_clients host = record host { clients = []; cursors = []; last_seen = [] }

  unfoldable pub disconnect_all :
      SessionHost Entry Snapshot → List Text → SessionHost Entry Snapshot
  unfolding disconnect
  disconnect_all host [] = host
  disconnect_all host (user_id ∷ user_ids) = disconnect_all (disconnect host user_id) user_ids

  -- For how long a client is silent when stale clients are looked for.
  unfoldable pub idle_for : SessionHost Entry Snapshot → ℕ → Text → ℕ
  unfolding get
  idle_for host now id = now - elim (get id host.last_seen) [ none ↦ now | some seen ↦ seen ]

  unfoldable pub prune_stale_clients :
      SessionHost Entry Snapshot → ℕ → ℕ → SessionHost Entry Snapshot
  unfolding disconnect_all filter idle_for
  prune_stale_clients host timeout now =
      let ids : List Text =
        map (λ (client : HostClient Entry Snapshot). client.user.user_id) host.clients in
      disconnect_all host (filter (λ id. leb timeout (idle_for host now id)) ids)

  unfoldable pub end_session : SessionHost Entry Snapshot → SessionHost Entry Snapshot
  unfolding queue_all
  end_session host = record host { ended = true; clients = queue_all ended_by_host host.clients }

  unfoldable pub apply_local_record :
      SessionHost Entry Snapshot → Entry → SessionHost Entry Snapshot
  unfolding queue_all
  apply_local_record host entry = record host {
    records = host.records ++ entry ∷ [];
    clients = queue_all (logged entry) host.clients;
  }

  -- The queue of the first client that is the user, emptied, and what was in it.
  unfoldable pub drain_first :
      Text
      → List (HostClient Entry Snapshot)
      → List (HostClient Entry Snapshot) × List (HostMessage Entry Snapshot)
  drain_first user_id [] = ([], [])
  drain_first user_id (client ∷ clients) =
      let rest = drain_first user_id clients in
      if is_user user_id client
      then (record client { outgoing = [] } ∷ clients, client.outgoing)
      else (client ∷ rest.0, rest.1)

  unfoldable pub take_outgoing :
      SessionHost Entry Snapshot
      → Text
      → SessionHost Entry Snapshot × List (HostMessage Entry Snapshot)
  unfolding drain_first
  take_outgoing host user_id =
      let drained = drain_first user_id host.clients in
      (record host { clients = drained.0 }, drained.1)
