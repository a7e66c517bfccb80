-- ===== src/Session/Served.antt =====
-- The runs of the host of a session (workers/session-host/session_host.rs).
use thaum_painter.Base.{
  ℕ, Bool, false, Option, none, some, List, [], ◌∷◌, map, filter, leb, ◌≡◌, refl, sym, ◌∙◌, ap,
  arith, Bool-cases, Option-cases, inl, inr,
}
use thaum_painter.Base.Text.{Text, text_eq, text_eq_iff, text_Eq}
use thaum_painter.Session.{
  SessionUser, ClientMessage, hello, logged, ended_by_host, HostClient, SessionHost, is_user,
  disconnect, disconnect_all, prune_stale_clients, end_session, apply_local_record, drain_first,
  take_outgoing, set_host_display_name, idle_for,
}
use thaum_painter.Session.Handled.{handle_client_message}
use thaum_painter.Session.Heard.{added, hears, heard, heard-queue_all}
use thaum_painter.Session.Delivered.{
  hears-none, record_of, disconnect_quiet, disconnect-records, handle_client_message-heard,
}
use thaum_painter.Session.Followed.{IsFollowing, handle_hello-Accepts}

module _ {Entry Snapshot : Type 0} where
  -- The runs of a host in which a user does not act and is not silent for too long.
  pub data RunsBeside (v : Text)
      : SessionHost Entry Snapshot → SessionHost Entry Snapshot → Type 0 where
    stopped : {host : SessionHost Entry Snapshot} → RunsBeside v host host
    sent :
        {host after : SessionHost Entry Snapshot}
        → (w : Text) → (message : ClientMessage Entry) → (now : ℕ) → text_eq w v ≡ false
        → RunsBeside v (handle_client_message host w message now).0 after
        → RunsBeside v host after
    drained :
        {host after : SessionHost Entry Snapshot}
        → (w : Text) → text_eq w v ≡ false
        → RunsBeside v (take_outgoing host w).0 after
        → RunsBeside v host after
    pruned :
        {host after : SessionHost Entry Snapshot}
        → (timeout now : ℕ) → leb timeout (idle_for host now v) ≡ false
        → RunsBeside v (prune_stale_clients host timeout now) after
        → RunsBeside v host after
    recorded :
        {host after : SessionHost Entry Snapshot}
        → (entry : Entry) → RunsBeside v (apply_local_record host entry) after
        → RunsBeside v host after
    host_renamed :
        {host after : SessionHost Entry Snapshot}
        → (name : Text) → RunsBeside v (set_host_display_name host name) after
        → RunsBeside v host after
    ended_session :
        {host after : SessionHost Entry Snapshot}
        → RunsBeside v (end_session host) after
        → RunsBeside v host after

  heard-drain_first :
      (w v : Text) (clients : List (HostClient Entry Snapshot))
      → text_eq w v ≡ false
      → heard v (drain_first w clients).0 ≡ heard v clients
  unfolding heard drain_first
  heard-drain_first w v [] h = refl
  heard-drain_first w v (c ∷ clients) h =
      let ih = heard-drain_first w v clients h in
      elim (Bool-cases (is_user w c)) [
        | inl k ↦
            let other : is_user v c ≡ false = ground (
              arith,
              h,
              k,
              text_eq_iff c.user.user_id w,
              text_eq_iff c.user.user_id v,
              text_eq_iff w v,
            ) in
            rw (drain_first, k, heard, other) refl
        | inr k ↦ elim (Bool-cases (is_user v c)) [
          | inl t ↦ rw (drain_first, k, heard, t) refl
          | inr t ↦ rw (drain_first, k, heard, t) ih
        ]
      ]

  disconnect_all_quiet :
      (test : Text → Bool) (ids : List Text) (host : SessionHost Entry Snapshot) (v : Text)
      → test v ≡ false
      → (heard v (disconnect_all host (filter test ids)).clients ≡ heard v host.clients)
        × ((disconnect_all host (filter test ids)).records ≡ host.records)
  unfolding disconnect_all filter
  disconnect_all_quiet test [] host v h = (refl, refl)
  disconnect_all_quiet test (id ∷ ids) host v h = elim (Bool-cases (test id)) [
    | inr t ↦ rw (filter, t) (disconnect_all_quiet test ids host v h)
    | inl t ↦
        let other : text_eq id v ≡ false = elim (Bool-cases (text_eq id v)) [
          | inr e ↦ e
          | inl e ↦ ground (arith, h, rw ((text_eq_iff id v).0 e) at t)
        ] in
        let ih = disconnect_all_quiet test ids (disconnect host id) v h in
        rw (filter, t) (ih.0 ∙ disconnect_quiet host id v other, ih.1 ∙ disconnect-records host id)
  ]

  IsFollowing-step :
      (host : SessionHost Entry Snapshot) (after : SessionHost Entry Snapshot) (v : Text)
      (entry : Option Entry)
      → after.records ≡ added entry host.records
      → heard v after.clients ≡ hears entry (heard v host.clients)
      → IsFollowing host v
      → IsFollowing after v
  IsFollowing-step host after v none r q h =
      q ∙ sym (hears-none (heard v host.clients)) ∙ h ∙ ap some (sym r)
  IsFollowing-step host after v (some entry) r q h = q ∙ ap (hears (some entry)) h ∙ ap some (sym r)

  IsFollowing-same :
      (host : SessionHost Entry Snapshot) (after : SessionHost Entry Snapshot) (v : Text)
      → after.records ≡ host.records
      → heard v after.clients ≡ heard v host.clients
      → IsFollowing host v
      → IsFollowing after v
  IsFollowing-same host after v r q h = q ∙ h ∙ ap some (sym r)

  prune_stale_clients_quiet :
      (host : SessionHost Entry Snapshot) (timeout now : ℕ) (v : Text)
      → leb timeout (idle_for host now v) ≡ false
      → (heard v (prune_stale_clients host timeout now).clients ≡ heard v host.clients)
        × ((prune_stale_clients host timeout now).records ≡ host.records)
  unfolding prune_stale_clients
  prune_stale_clients_quiet host timeout now v h =
      disconnect_all_quiet (λ id. leb timeout (idle_for host now id))
        (map (λ (client : HostClient Entry Snapshot). client.user.user_id) host.clients) host v h

  set_host_display_name_quiet :
      (host : SessionHost Entry Snapshot) (name v : Text)
      → (heard v (set_host_display_name host name).clients ≡ heard v host.clients)
        × ((set_host_display_name host name).records ≡ host.records)
  unfolding set_host_display_name
  set_host_display_name_quiet host name v = elim (Option-cases host.host_user) [
    | inl e ↦ rw (set_host_display_name, e) (refl, refl)
    | inr e ↦
        rw (set_host_display_name, e.1)
          (heard-queue_all v _ host.clients ∙ sym (hears-none (heard v host.clients)), refl)
  ]

  RunsBeside-IsFollowing :
      (v : Text) {host after : SessionHost Entry Snapshot}
      → RunsBeside v host after
      → IsFollowing host v
      → IsFollowing after v
  unfolding take_outgoing apply_local_record end_session
  RunsBeside-IsFollowing v stopped h = h
  RunsBeside-IsFollowing v (sent {host} w message now other run) h =
      let grows = handle_client_message-heard host w v message now other in
      RunsBeside-IsFollowing v run (
        IsFollowing-step host (handle_client_message host w message now).0 v
          (record_of host w message) grows.0 grows.1 h)
  RunsBeside-IsFollowing v (drained {host} w other run) h = RunsBeside-IsFollowing v run (
      IsFollowing-same host (take_outgoing host w).0 v refl
        (heard-drain_first w v host.clients other) h)
  RunsBeside-IsFollowing v (pruned {host} timeout now awake run) h =
      let quiet = prune_stale_clients_quiet host timeout now v awake in
      RunsBeside-IsFollowing v run
        (IsFollowing-same host (prune_stale_clients host timeout now) v quiet.1 quiet.0 h)
  RunsBeside-IsFollowing v (recorded {host} entry run) h = RunsBeside-IsFollowing v run (
      IsFollowing-step host (apply_local_record host entry) v (some entry) refl
        (heard-queue_all v (logged entry) host.clients) h)
  RunsBeside-IsFollowing v (host_renamed {host} name run) h =
      let quiet = set_host_display_name_quiet host name v in
      RunsBeside-IsFollowing v run
        (IsFollowing-same host (set_host_display_name host name) v quiet.1 quiet.0 h)
  RunsBeside-IsFollowing v (ended_session {host} run) h = RunsBeside-IsFollowing v run (
      IsFollowing-same host (end_session host) v refl
        (heard-queue_all v ended_by_host host.clients ∙ sym (hears-none (heard v host.clients))) h)

  -- After a hello that is accepted, and however others act from there, the records in the queue of
  -- the user that said hello are the whole log, in its order: as long as that user sends nothing,
  -- its queue is not drained, and it is not pruned as silent.
  pub handle_client_message-follows :
      (host after : SessionHost Entry Snapshot) (user : SessionUser) (version now : ℕ)
      → (handle_client_message host user.user_id (hello user version) now).1 ≡ none
      → RunsBeside user.user_id
          (handle_client_message host user.user_id (hello user version) now).0
          after
      → heard user.user_id after.clients ≡ some after.records
  unfolding handle_client_message
  handle_client_message-follows host after user version now accepted run =
      RunsBeside-IsFollowing user.user_id run (handle_hello-Accepts host user version now accepted)
