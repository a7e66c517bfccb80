-- ===== src/Session/Handled.antt =====
-- What the host does with a message of a client (workers/session-host/session_host.rs,
-- `handle_client_message`).
use thaum_painter.Base.{
  ℕ, ◌-◌, Bool, false, not, Option, none, some, List, [], ◌∷◌, ◌++◌, length, leb, ◌==◌,
  if◌then◌else◌,
}
use thaum_painter.Base.Text.{Text, text_eq, text_Eq}
use thaum_painter.Base.Map.{get, insert}
use thaum_painter.Session.{
  duplicate_rejoin_evict_after, session_protocol_version, SessionUser, ClientMessage, hello, action,
  presence, rename, bye, ping, welcome, logged, moved, roster_of, pong, ClientRejection,
  protocol_version, duplicate_user_id, snapshot_unavailable, not_joined, session_ended, HostClient,
  SessionHost, is_user, has_client, queue_all, queue_to, roster, broadcast_others, disconnect,
}

module _ {Entry Snapshot : Type 0} where
  -- The history, one record after another, in the queue of a client.
  unfoldable pub queue_history :
      SessionHost Entry Snapshot → Text → List Entry → SessionHost Entry Snapshot
  unfolding queue_to
  queue_history host user_id [] = host
  queue_history host user_id (entry ∷ entries) =
      queue_history (queue_to host user_id (logged entry)) user_id entries

  -- The entries of a new client.
  unfoldable pub seat : SessionHost Entry Snapshot → SessionUser → ℕ → SessionHost Entry Snapshot
  unfolding insert
  seat host user now = record host {
    clients = host.clients ++ record { user = user; outgoing = [] } ∷ [];
    cursors = insert user.user_id none host.cursors;
    last_seen = insert user.user_id now host.last_seen;
  }

  -- The end of a hello that is accepted, with the snapshot.
  unfoldable pub admit :
      SessionHost Entry Snapshot → SessionUser → Snapshot → ℕ → SessionHost Entry Snapshot
  unfolding seat queue_to roster queue_history broadcast_others
  admit host user snapshot now =
      let joined : SessionHost Entry Snapshot = seat host user now in
      let welcomed : SessionHost Entry Snapshot =
        queue_to joined user.user_id (welcome snapshot (length host.records) (roster joined)) in
      broadcast_others (queue_history welcomed user.user_id host.records) user.user_id
        (roster_of (roster joined))

  unfoldable pub is_host : SessionHost Entry Snapshot → Text → Bool
  is_host host user_id = elim host.host_user [
    | none ↦ false
    | some user ↦ text_eq user.user_id user_id
  ]

  -- For how long a client is silent.
  unfoldable pub silent_for : SessionHost Entry Snapshot → Text → ℕ → ℕ
  unfolding get
  silent_for host user_id now = elim (get user_id host.last_seen) [
    | none ↦ duplicate_rejoin_evict_after
    | some seen ↦ now - seen
  ]

  -- A hello past the check of the snapshot.
  unfoldable pub welcome_user :
      SessionHost Entry Snapshot
      → SessionUser
      → ℕ
      → SessionHost Entry Snapshot × Option ClientRejection
  unfolding admit
  welcome_user host user now = elim host.snapshot_source [
    | none ↦ (host, some snapshot_unavailable)
    | some snapshot ↦ (admit host user snapshot now, none)
  ]

  -- A hello in a session that has not ended.
  unfoldable pub handle_open_hello :
      SessionHost Entry Snapshot
      → Text
      → SessionUser
      → ℕ
      → ℕ
      → SessionHost Entry Snapshot × Option ClientRejection
  unfolding is_host has_client silent_for disconnect welcome_user
  handle_open_hello host user_id user version now =
      if not (version == session_protocol_version)
      then (host, some protocol_version)
      else if not (text_eq user.user_id user_id)
      then (host, some not_joined)
      else if is_host host user_id
      then (host, some duplicate_user_id)
      else if has_client user_id host.clients
      then (if leb duplicate_rejoin_evict_after (silent_for host user_id now)
          then welcome_user (disconnect host user_id) user now
          else (host, some duplicate_user_id))
      else welcome_user host user now

  unfoldable pub handle_hello :
      SessionHost Entry Snapshot
      → Text
      → SessionUser
      → ℕ
      → ℕ
      → SessionHost Entry Snapshot × Option ClientRejection
  unfolding handle_open_hello
  handle_hello host user_id user version now =
      if host.ended
      then (host, some session_ended)
      else handle_open_hello host user_id user version now

  -- The first client that is the user, with a new name.
  unfoldable pub rename_first :
      Text → Text → List (HostClient Entry Snapshot) → List (HostClient Entry Snapshot)
  rename_first user_id name [] = []
  rename_first user_id name (client ∷ clients) =
      let rest = rename_first user_id name clients in
      if is_user user_id client
      then record client { user = record (client.user) { display_name = name } } ∷ clients
      else client ∷ rest

  -- A message that is not a hello, once its sender was marked as seen.
  unfoldable pub handle_seen :
      SessionHost Entry Snapshot
      → Text
      → ClientMessage Entry
      → SessionHost Entry Snapshot × Option ClientRejection
  unfolding has_client broadcast_others insert rename_first roster queue_all disconnect queue_to
  handle_seen host user_id (hello user version) = (host, none)
  handle_seen host user_id (action entry) =
      if not (has_client user_id host.clients) then (host, some not_joined) else (
        broadcast_others (record host { records = host.records ++ entry ∷ [] }) user_id
            (logged entry),
        none,
      )
  handle_seen host user_id (presence cursor) =
      if not (has_client user_id host.clients) then (host, some not_joined) else (
        broadcast_others (record host { cursors = insert user_id cursor host.cursors }) user_id
            (moved user_id cursor),
        none,
      )
  handle_seen host user_id (rename name) =
      if not (has_client user_id host.clients) then (host, some not_joined) else (
        let named : SessionHost Entry Snapshot = record host {
          clients = rename_first user_id name host.clients;
        } in
            record named { clients = queue_all (roster_of (roster named)) named.clients },
        none,
      )
  handle_seen host user_id bye =
      if has_client user_id host.clients then (disconnect host user_id, none) else (host, none)
  handle_seen host user_id ping =
      if not (has_client user_id host.clients)
      then (host, some not_joined)
      else (queue_to host user_id pong, none)

  -- The host after the message, and the rejection if it is rejected.
  unfoldable pub handle_client_message :
      SessionHost Entry Snapshot
      → Text
      → ClientMessage Entry
      → ℕ
      → SessionHost Entry Snapshot × Option ClientRejection
  unfolding handle_hello handle_seen insert
  handle_client_message host user_id (hello user version) now =
      handle_hello host user_id user version now
  handle_client_message host user_id message now =
      handle_seen (record host { last_seen = insert user_id now host.last_seen }) user_id message
