-- ===== src/Session/Followed.antt =====
-- A client that joins and follows the log (workers/session-host/session_host.rs).
use thaum_painter.Base.{
  ℕ, Bool, true, false, not, Option, none, some, List, [], ◌∷◌, ◌++◌, filter, length, leb, ◌==◌,
  if◌then◌else◌, ◌≡◌, refl, sym, ◌∙◌, ap, arith, Bool-cases, Option-cases, inl, inr,
}
use mathlib.Core.List.{append_assoc, append-nil}
use thaum_painter.Base.Text.{Text, text_eq, text_eq_refl}
use thaum_painter.Session.{
  duplicate_rejoin_evict_after, session_protocol_version, SessionUser, HostMessage, welcome, logged,
  roster_of, ClientRejection, session_ended, protocol_version, snapshot_unavailable, not_joined,
  duplicate_user_id, HostClient, SessionHost, is_user, has_client, queue_others, queue_to, roster,
  broadcast_others, disconnect,
}
use thaum_painter.Session.Handled.{
  queue_history, seat, admit, is_host, silent_for, welcome_user, handle_open_hello, handle_hello,
}
use thaum_painter.Session.Heard.{hears, entries, heard, heard-queue_first_own}

module _ {Entry Snapshot : Type 0} where
  heard-queue_others_own :
      (v : Text) (message : HostMessage Entry Snapshot) (clients : List (HostClient Entry Snapshot))
      → heard v (queue_others v message clients) ≡ heard v clients
  unfolding heard queue_others
  heard-queue_others_own v message [] = refl
  heard-queue_others_own v message (c ∷ clients) =
      let ih = heard-queue_others_own v message clients in
      elim (Bool-cases (is_user v c)) [
        | inl t ↦ rw (queue_others, t, heard, t) refl
        | inr t ↦ rw (queue_others, t, heard, t) ih
      ]

  has_client-queue_others :
      (v : Text) (message : HostMessage Entry Snapshot) (clients : List (HostClient Entry Snapshot))
      → has_client v (queue_others v message clients) ≡ has_client v clients
  unfolding has_client queue_others
  has_client-queue_others v message [] = refl
  has_client-queue_others v message (c ∷ clients) =
      let ih = has_client-queue_others v message clients in
      elim (Bool-cases (is_user v c)) [
        | inl t ↦ rw (queue_others, t, has_client, t) refl
        | inr t ↦ rw (queue_others, t, has_client, t) ih
      ]

  has_client-filter :
      (v : Text) (clients : List (HostClient Entry Snapshot))
      → has_client v (filter (λ client. not (is_user v client)) clients) ≡ false
  unfolding has_client filter
  has_client-filter v [] = refl
  has_client-filter v (c ∷ clients) =
      let ih = has_client-filter v clients in
      elim (Bool-cases (is_user v c)) [
        | inl t ↦ rw (filter, t) ih
        | inr t ↦ rw (filter, t, has_client, t) ih
      ]

  has_client-disconnect :
      (host : SessionHost Entry Snapshot) (v : Text)
      → has_client v (disconnect host v).clients ≡ false
  unfolding disconnect broadcast_others
  has_client-disconnect host v = has_client-queue_others v _ _ ∙ has_client-filter v host.clients

  heard-append_own :
      (v : Text) (user : SessionUser) (clients : List (HostClient Entry Snapshot))
      → text_eq user.user_id v ≡ true
      → has_client v clients ≡ false
      → heard v (clients ++ record { user = user; outgoing = [] } ∷ []) ≡ some []
  unfolding heard has_client entries
  heard-append_own v user [] same h = rw same refl
  heard-append_own v user (c ∷ clients) same h = elim (Bool-cases (is_user v c)) [
    | inl t ↦ ground (arith, h, t)
    | inr t ↦ rw (heard, t) (heard-append_own v user clients same (rw (has_client, t) at h))
  ]

  queue_history_own :
      (history : List Entry) (host : SessionHost Entry Snapshot) (v : Text) (es : List Entry)
      → heard v host.clients ≡ some es
      → (heard v (queue_history host v history).clients ≡ some (es ++ history))
        × ((queue_history host v history).records ≡ host.records)
  unfolding queue_history queue_to
  queue_history_own [] host v es h = (h ∙ ap some (sym (append-nil es)), refl)
  queue_history_own (entry ∷ history) host v es h =
      let next : SessionHost Entry Snapshot = queue_to host v (logged entry) in
      let told : heard v next.clients ≡ some (es ++ entry ∷ []) =
        heard-queue_first_own v (logged entry) host.clients ∙ ap (hears (some entry)) h in
      let ih = queue_history_own history next v (es ++ entry ∷ []) told in
      (ih.0 ∙ ap some (append_assoc es (entry ∷ []) history), ih.1)

  -- A client whose queue carries the whole log.
  abbrev pub IsFollowing : SessionHost Entry Snapshot → Text → Type 0
  IsFollowing host v = heard v host.clients ≡ some host.records

  admit-IsFollowing :
      (host : SessionHost Entry Snapshot) (user : SessionUser) (snapshot : Snapshot) (now : ℕ)
      → has_client user.user_id host.clients ≡ false
      → IsFollowing (admit host user snapshot now) user.user_id
  unfolding admit broadcast_others queue_to seat
  admit-IsFollowing host user snapshot now h =
      let v = user.user_id in
      let joined : SessionHost Entry Snapshot = seat host user now in
      let message : HostMessage Entry Snapshot =
        welcome snapshot (length host.records) (roster joined) in
      let welcomed : SessionHost Entry Snapshot = queue_to joined v message in
      let told : SessionHost Entry Snapshot = queue_history welcomed v host.records in
      let empty : heard v joined.clients ≡ some [] =
        heard-append_own v user host.clients (text_eq_refl v) h in
      let greeted : heard v welcomed.clients ≡ some [] =
        heard-queue_first_own v message joined.clients ∙ ap (hears none) empty in
      let history = queue_history_own host.records welcomed v [] greeted in
      heard-queue_others_own v (roster_of (roster joined)) told.clients
      ∙ history.0
      ∙ ap some (sym history.1)

  -- What holds of a host if the message was accepted.
  abbrev pub Accepts : SessionHost Entry Snapshot × Option ClientRejection → Text → Type 0
  Accepts result v = result.1 ≡ none → IsFollowing result.0 v

  Accepts-denied :
      (host : SessionHost Entry Snapshot) (reason : ClientRejection) (v : Text)
      → Accepts (host, some reason) v
  Accepts-denied host reason v accepted = ground (arith, accepted)

  if_Accepts :
      (c : Bool) (one other : SessionHost Entry Snapshot × Option ClientRejection) (v : Text)
      → (c ≡ true → Accepts one v)
      → (c ≡ false → Accepts other v)
      → Accepts (if c then one else other) v
  if_Accepts true one other v g k = g refl
  if_Accepts false one other v g k = k refl

  welcome_user-Accepts :
      (host : SessionHost Entry Snapshot) (user : SessionUser) (now : ℕ)
      → has_client user.user_id host.clients ≡ false
      → Accepts (welcome_user host user now) user.user_id
  unfolding welcome_user
  welcome_user-Accepts host user now h = elim (Option-cases host.snapshot_source) [
    | inl e ↦ rw (welcome_user, e) (Accepts-denied host snapshot_unavailable user.user_id)
    | inr e ↦ rw (welcome_user, e.1) (λ accepted. admit-IsFollowing host user e.0 now h)
  ]

  pub handle_hello-Accepts :
      (host : SessionHost Entry Snapshot) (user : SessionUser) (version now : ℕ)
      → Accepts (handle_hello host user.user_id user version now) user.user_id
  unfolding handle_hello handle_open_hello
  handle_hello-Accepts host user version now =
      let v = user.user_id in
      let no : (reason : ClientRejection) → Accepts (host, some reason) v =
        λ reason. Accepts-denied host reason v in
      if_Accepts host.ended _ _ v (λ a. no session_ended)
        (λ a.
          if_Accepts (not (version == session_protocol_version)) _ _ v (λ b. no protocol_version)
            (λ b.
              if_Accepts (not (text_eq v v)) _ _ v (λ c. no not_joined)
                (λ c.
                  if_Accepts (is_host host v) _ _ v (λ d. no duplicate_user_id)
                    (λ d.
                      if_Accepts (has_client v host.clients) _ _ v
                        (λ e.
                          if_Accepts (leb duplicate_rejoin_evict_after (silent_for host v now)) _ _
                            v
                            (λ f.
                              welcome_user-Accepts (disconnect host v) user now
                                (has_client-disconnect host v))
                            (λ f. no duplicate_user_id))
                        (λ e. welcome_user-Accepts host user now e)))))
