-- ===== src/Session/Delivered.antt =====
-- The records that reach the clients of a session (workers/session-host/session_host.rs).
use thaum_painter.Base.{
  ℕ, Bool, true, false, not, Option, none, some, List, [], ◌∷◌, filter, length, leb, ◌==◌,
  if◌then◌else◌, ◌≡◌, refl, sym, ◌∙◌, ap, Bool-cases, Option-cases, inl, inr,
}
use thaum_painter.Base.Text.{Text, text_eq, text_eq_iff}
use thaum_painter.Session.{
  duplicate_rejoin_evict_after, session_protocol_version, SessionUser, ClientMessage, hello, action,
  presence, rename, bye, ping, HostMessage, welcome, logged, moved, roster_of, pong, HostClient,
  SessionHost, is_user, ClientRejection, session_ended, has_client, queue_to, roster,
  broadcast_others, disconnect,
}
use thaum_painter.Session.Handled.{
  queue_history, seat, admit, is_host, silent_for, welcome_user, handle_open_hello, handle_hello,
  rename_first, handle_seen, handle_client_message,
}
use thaum_painter.Session.Heard.{
  added, hears, heard, heard-queue_others, heard-queue_all, heard-queue_first, heard-filter,
  heard-append, heard-rename_first,
}

module _ {Entry : Type 0} where
  pub hears-none : (o : Option (List Entry)) → o ≡ hears none o
  hears-none none = refl
  hears-none (some es) = refl

module _ {Entry Snapshot : Type 0} where
  -- What one message adds to the log, and to the queue of another client.
  abbrev Grows :
      SessionHost Entry Snapshot → SessionHost Entry Snapshot → Text → Option Entry → Type 0
  Grows host after v entry =
      (after.records ≡ added entry host.records)
      × (heard v after.clients ≡ hears entry (heard v host.clients))

  Grows-none :
      (host after : SessionHost Entry Snapshot) (v : Text)
      → after.records ≡ host.records
      → heard v after.clients ≡ heard v host.clients
      → Grows host after v none
  Grows-none host after v same quiet = (same, quiet ∙ hears-none (heard v host.clients))

  pub disconnect_quiet :
      (host : SessionHost Entry Snapshot) (w v : Text)
      → text_eq w v ≡ false
      → heard v (disconnect host w).clients ≡ heard v host.clients
  unfolding disconnect broadcast_others
  disconnect_quiet host w v h =
      let left : List (HostClient Entry Snapshot) =
        filter (λ client. not (is_user w client)) host.clients in
      heard-queue_others w v _ left h
      ∙ sym (hears-none (heard v left))
      ∙ heard-filter w v host.clients h

  pub disconnect-records :
      (host : SessionHost Entry Snapshot) (w : Text) → (disconnect host w).records ≡ host.records
  unfolding disconnect broadcast_others
  disconnect-records host w = refl

  queue_history_quiet :
      (history : List Entry) (host : SessionHost Entry Snapshot) (w v : Text)
      → text_eq w v ≡ false
      → (heard v (queue_history host w history).clients ≡ heard v host.clients)
        × ((queue_history host w history).records ≡ host.records)
  unfolding queue_history queue_to
  queue_history_quiet [] host w v h = (refl, refl)
  queue_history_quiet (entry ∷ history) host w v h =
      let next : SessionHost Entry Snapshot = queue_to host w (logged entry) in
      let ih = queue_history_quiet history next w v h in
      (ih.0 ∙ heard-queue_first w v (logged entry) host.clients h, ih.1)

  admit_quiet :
      (host : SessionHost Entry Snapshot) (user : SessionUser) (snapshot : Snapshot) (now : ℕ)
      (v : Text)
      → text_eq user.user_id v ≡ false
      → (heard v (admit host user snapshot now).clients ≡ heard v host.clients)
        × ((admit host user snapshot now).records ≡ host.records)
  unfolding admit broadcast_others queue_to seat
  admit_quiet host user snapshot now v h =
      let w = user.user_id in
      let joined : SessionHost Entry Snapshot = seat host user now in
      let message : HostMessage Entry Snapshot =
        welcome snapshot (length host.records) (roster joined) in
      let welcomed : SessionHost Entry Snapshot = queue_to joined w message in
      let told : SessionHost Entry Snapshot = queue_history welcomed w host.records in
      let history = queue_history_quiet host.records welcomed w v h in
      (
        heard-queue_others w v (roster_of (roster joined)) told.clients h
            ∙ sym (hears-none (heard v told.clients))
            ∙ history.0
            ∙ heard-queue_first w v message joined.clients h
            ∙ heard-append v user host.clients h,
        history.1,
      )

  welcome_user_quiet :
      (host : SessionHost Entry Snapshot) (user : SessionUser) (now : ℕ) (v : Text)
      → text_eq user.user_id v ≡ false
      → Grows host (welcome_user host user now).0 v none
  unfolding welcome_user
  welcome_user_quiet host user now v h = elim (Option-cases host.snapshot_source) [
    | inl e ↦ rw (welcome_user, e) (Grows-none host host v refl refl)
    | inr e ↦
        let quiet = admit_quiet host user e.0 now v h in
        rw (welcome_user, e.1) (Grows-none host (admit host user e.0 now) v quiet.1 quiet.0)
  ]

  rejoin_quiet :
      (host : SessionHost Entry Snapshot) (w v : Text) (user : SessionUser) (now : ℕ)
      → text_eq w v ≡ false
      → text_eq user.user_id v ≡ false
      → Grows host (welcome_user (disconnect host w) user now).0 v none
  unfolding disconnect broadcast_others
  rejoin_quiet host w v user now h other =
      let left : SessionHost Entry Snapshot = disconnect host w in
      let grows = welcome_user_quiet left user now v other in
      let quiet = disconnect_quiet host w v h in (grows.0, grows.1 ∙ rw quiet refl)

  handle_open_hello_quiet :
      (host : SessionHost Entry Snapshot) (w v : Text) (user : SessionUser) (version now : ℕ)
      → text_eq w v ≡ false
      → Grows host (handle_open_hello host w user version now).0 v none
  unfolding handle_open_hello
  handle_open_hello_quiet host w v user version now h =
      let still = Grows-none host host v refl refl in
      elim (Bool-cases (version == session_protocol_version)) [
        | inr b ↦ rw (handle_open_hello, b) still
        | inl b ↦ elim (Bool-cases (text_eq user.user_id w)) [
          | inr c ↦ rw (handle_open_hello, b, c) still
          | inl c ↦
              let other : text_eq user.user_id v ≡ false =
                rw ((text_eq_iff user.user_id w).0 c) h in
              elim (Bool-cases (is_host host w)) [
                | inl d ↦ rw (handle_open_hello, b, c, d) still
                | inr d ↦ elim (Bool-cases (has_client w host.clients)) [
                  | inr e ↦
                      rw (handle_open_hello, b, c, d, e) (welcome_user_quiet host user now v other)
                  | inl e ↦
                      elim (Bool-cases (leb duplicate_rejoin_evict_after (silent_for host w now))) [
                        | inl f ↦
                            rw (handle_open_hello, b, c, d, e, f)
                              (rejoin_quiet host w v user now h other)
                        | inr f ↦ rw (handle_open_hello, b, c, d, e, f) still
                      ]
                ]
              ]
        ]
      ]

  if_quiet :
      (c : Bool) (host : SessionHost Entry Snapshot) (v : Text)
      (one other : SessionHost Entry Snapshot × Option ClientRejection)
      → Grows host one.0 v none
      → Grows host other.0 v none
      → Grows host (if c then one else other).0 v none
  if_quiet true host v one other g k = g
  if_quiet false host v one other g k = k

  handle_hello_quiet :
      (host : SessionHost Entry Snapshot) (w v : Text) (user : SessionUser) (version now : ℕ)
      → text_eq w v ≡ false
      → Grows host (handle_hello host w user version now).0 v none
  unfolding handle_hello
  handle_hello_quiet host w v user version now h =
      if_quiet host.ended host v (host, some session_ended)
        (handle_open_hello host w user version now) (Grows-none host host v refl refl)
        (handle_open_hello_quiet host w v user version now h)

  -- The record that a message of a client adds to the log.
  abbrev pub record_of : SessionHost Entry Snapshot → Text → ClientMessage Entry → Option Entry
  record_of host w (action entry) = if has_client w host.clients then some entry else none
  record_of host w _ = none

  handle_seen-Grows :
      (host : SessionHost Entry Snapshot) (w v : Text) (message : ClientMessage Entry)
      → text_eq w v ≡ false
      → Grows host (handle_seen host w message).0 v (record_of host w message)
  unfolding handle_seen broadcast_others queue_to disconnect
  handle_seen-Grows host w v (hello user version) h = Grows-none host host v refl refl
  handle_seen-Grows host w v (action entry) h = elim (Bool-cases (has_client w host.clients)) [
    | inl e ↦ rw (handle_seen, e) (refl, heard-queue_others w v (logged entry) host.clients h)
    | inr e ↦ rw (handle_seen, e) (Grows-none host host v refl refl)
  ]
  handle_seen-Grows host w v (presence cursor) h = elim (Bool-cases (has_client w host.clients)) [
    | inl e ↦ rw (handle_seen, e) (refl, heard-queue_others w v (moved w cursor) host.clients h)
    | inr e ↦ rw (handle_seen, e) (Grows-none host host v refl refl)
  ]
  handle_seen-Grows host w v (rename name) h = elim (Bool-cases (has_client w host.clients)) [
    | inl e ↦
        let named : List (HostClient Entry Snapshot) = rename_first w name host.clients in
        rw (handle_seen, e)
          (
            refl,
            heard-queue_all v _ named ∙ ap (hears none) (heard-rename_first w v name host.clients),
          )
    | inr e ↦ rw (handle_seen, e) (Grows-none host host v refl refl)
  ]
  handle_seen-Grows host w v bye h = elim (Bool-cases (has_client w host.clients)) [
    | inl e ↦
        rw (handle_seen, e)
          (Grows-none host (disconnect host w) v refl (disconnect_quiet host w v h))
    | inr e ↦ rw (handle_seen, e) (Grows-none host host v refl refl)
  ]
  handle_seen-Grows host w v ping h = elim (Bool-cases (has_client w host.clients)) [
    | inl e ↦
        rw (handle_seen, e)
          (Grows-none host (queue_to host w pong) v refl
            (heard-queue_first w v pong host.clients h))
    | inr e ↦ rw (handle_seen, e) (Grows-none host host v refl refl)
  ]

  -- Whatever a client sends, the queue of every other client gains, at its end, exactly the record
  -- that the log gains at its end: the record of an action of a client that has joined, and none for
  -- anything else.
  pub handle_client_message-heard :
      (host : SessionHost Entry Snapshot) (w v : Text) (message : ClientMessage Entry) (now : ℕ)
      → text_eq w v ≡ false
      → let after = (handle_client_message host w message now).0 in
        (after.records ≡ added (record_of host w message) host.records)
        × (heard v after.clients ≡ hears (record_of host w message) (heard v host.clients))
  unfolding handle_client_message
  handle_client_message-heard host w v (hello user version) now h =
      handle_hello_quiet host w v user version now h
  handle_client_message-heard host w v (action entry) now h =
      handle_seen-Grows _ w v (action entry) h
  handle_client_message-heard host w v (presence cursor) now h =
      handle_seen-Grows _ w v (presence cursor) h
  handle_client_message-heard host w v (rename name) now h = handle_seen-Grows _ w v (rename name) h
  handle_client_message-heard host w v bye now h = handle_seen-Grows _ w v bye h
  handle_client_message-heard host w v ping now h = handle_seen-Grows _ w v ping h
