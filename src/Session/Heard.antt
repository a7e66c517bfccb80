-- ===== src/Session/Heard.antt =====
-- The records in the queues of the clients of a session (workers/session-host/session_host.rs).
use thaum_painter.Base.{
  false, not, Option, none, some, List, [], ◌∷◌, ◌++◌, filter, if◌then◌else◌, ◌≡◌, refl, ap, arith,
  Bool-cases, Option-cases, inl, inr,
}
use thaum_painter.Base.Text.{Text, text_eq, text_eq_iff}
use thaum_painter.Session.{
  SessionUser, HostMessage, logged, HostClient, is_user, queue_first, queue_others, queue_all,
}
use thaum_painter.Session.Handled.{rename_first}

-- Records with one more at the end, where there is one, and the same for a user that may be missing.
module _ {Entry : Type 0} where
  abbrev pub added : Option Entry → List Entry → List Entry
  added none xs = xs
  added (some x) xs = xs ++ x ∷ []

  abbrev pub hears : Option Entry → Option (List Entry) → Option (List Entry)
  hears entry none = none
  hears entry (some es) = some (added entry es)

module _ {Entry Snapshot : Type 0} where
  -- The record that a message carries, and the records that messages carry.
  abbrev pub carried : HostMessage Entry Snapshot → Option Entry
  carried (logged entry) = some entry
  carried _ = none

  unfoldable pub entries : List (HostMessage Entry Snapshot) → List Entry
  entries [] = []
  entries (message ∷ messages) =
      let rest = entries messages in
      elim (carried message) [ none ↦ rest | some entry ↦ entry ∷ rest ]

  -- The records in the queue of a user, where it is a client.
  unfoldable pub heard : Text → List (HostClient Entry Snapshot) → Option (List Entry)
  unfolding entries
  heard v [] = none
  heard v (client ∷ clients) =
      if is_user v client then some (entries client.outgoing) else heard v clients

  pub entries-queued :
      (message : HostMessage Entry Snapshot) (messages : List (HostMessage Entry Snapshot))
      → entries (messages ++ message ∷ []) ≡ added (carried message) (entries messages)
  unfolding entries
  entries-queued message [] = elim (Option-cases (carried message)) [
    | inl e ↦ rw (entries, e) refl
    | inr e ↦ rw (entries, e.1) refl
  ]
  entries-queued message (m ∷ messages) =
      let ih = entries-queued message messages in
      elim (Option-cases (carried m)) [
        | inl k ↦ rw (entries, k) ih
        | inr k ↦ elim (Option-cases (carried message)) [
          | inl e ↦ rw (entries, k.1, e) (ap (λ (es : List Entry). k.0 ∷ es) (rw e at ih))
          | inr e ↦ rw (entries, k.1, e.1) (ap (λ (es : List Entry). k.0 ∷ es) (rw (e.1) at ih))
        ]
      ]

  -- A message for all but a sender, for all, and for one user.
  pub heard-queue_others :
      (w v : Text) (message : HostMessage Entry Snapshot)
      (clients : List (HostClient Entry Snapshot))
      → text_eq w v ≡ false
      → heard v (queue_others w message clients) ≡ hears (carried message) (heard v clients)
  unfolding heard queue_others
  heard-queue_others w v message [] h = refl
  heard-queue_others w v message (c ∷ clients) h =
      let same = entries-queued message c.outgoing in
      let ih = heard-queue_others w v message clients h in
      elim (Bool-cases (is_user v c)) [
        | inl t ↦
            let other : is_user w c ≡ false = ground (
              arith,
              h,
              t,
              text_eq_iff c.user.user_id w,
              text_eq_iff c.user.user_id v,
              text_eq_iff w v,
            ) in
            rw (queue_others, other, heard, t, same) refl
        | inr t ↦ elim (Bool-cases (is_user w c)) [
          | inl k ↦ rw (queue_others, k, heard, t) ih
          | inr k ↦ rw (queue_others, k, heard, t) ih
        ]
      ]

  pub heard-queue_all :
      (v : Text) (message : HostMessage Entry Snapshot) (clients : List (HostClient Entry Snapshot))
      → heard v (queue_all message clients) ≡ hears (carried message) (heard v clients)
  unfolding heard queue_all
  heard-queue_all v message [] = refl
  heard-queue_all v message (c ∷ clients) =
      let same = entries-queued message c.outgoing in
      let ih = heard-queue_all v message clients in
      elim (Bool-cases (is_user v c)) [
        | inl t ↦ rw (heard, t, same) refl
        | inr t ↦ rw (heard, t) ih
      ]

  pub heard-queue_first :
      (w v : Text) (message : HostMessage Entry Snapshot)
      (clients : List (HostClient Entry Snapshot))
      → text_eq w v ≡ false
      → heard v (queue_first w message clients) ≡ heard v clients
  unfolding heard queue_first
  heard-queue_first w v message [] h = refl
  heard-queue_first w v message (c ∷ clients) h =
      let ih = heard-queue_first w v message clients h in
      elim (Bool-cases (is_user w c)) [
        | inl k ↦
            let other : is_user v c ≡ false = ground (
              arith,
              h,
              k,
              text_eq_iff c.user.user_id w,
              text_eq_iff c.user.user_id v,
              text_eq_iff w v,
            ) in
            rw (queue_first, k, heard, other) refl
        | inr k ↦ elim (Bool-cases (is_user v c)) [
          | inl t ↦ rw (queue_first, k, heard, t) refl
          | inr t ↦ rw (queue_first, k, heard, t) ih
        ]
      ]

  pub heard-queue_first_own :
      (v : Text) (message : HostMessage Entry Snapshot) (clients : List (HostClient Entry Snapshot))
      → heard v (queue_first v message clients) ≡ hears (carried message) (heard v clients)
  unfolding heard queue_first
  heard-queue_first_own v message [] = refl
  heard-queue_first_own v message (c ∷ clients) =
      let same = entries-queued message c.outgoing in
      let ih = heard-queue_first_own v message clients in
      elim (Bool-cases (is_user v c)) [
        | inl t ↦ rw (queue_first, t, heard, t, same) refl
        | inr t ↦ rw (queue_first, t, heard, t) ih
      ]

  -- A user that leaves, one that enters, and one that is renamed.
  pub heard-filter :
      (w v : Text) (clients : List (HostClient Entry Snapshot))
      → text_eq w v ≡ false
      → heard v (filter (λ client. not (is_user w client)) clients) ≡ heard v clients
  unfolding heard filter
  heard-filter w v [] h = refl
  heard-filter w v (c ∷ clients) h =
      let ih = heard-filter w v clients h in
      elim (Bool-cases (is_user w c)) [
        | inl k ↦
            let other : is_user v c ≡ false = ground (
              arith,
              h,
              k,
              text_eq_iff c.user.user_id w,
              text_eq_iff c.user.user_id v,
              text_eq_iff w v,
            ) in
            rw (filter, k, heard, other) ih
        | inr k ↦ elim (Bool-cases (is_user v c)) [
          | inl t ↦ rw (filter, k, heard, t) refl
          | inr t ↦ rw (filter, k, heard, t) ih
        ]
      ]

  pub heard-append :
      (v : Text) (user : SessionUser) (clients : List (HostClient Entry Snapshot))
      → text_eq user.user_id v ≡ false
      → heard v (clients ++ record { user = user; outgoing = [] } ∷ []) ≡ heard v clients
  unfolding heard
  heard-append v user [] h = rw h refl
  heard-append v user (c ∷ clients) h =
      let ih = heard-append v user clients h in
      elim (Bool-cases (is_user v c)) [ inl t ↦ rw (heard, t) refl | inr t ↦ rw (heard, t) ih ]

  pub heard-rename_first :
      (w v name : Text) (clients : List (HostClient Entry Snapshot))
      → heard v (rename_first w name clients) ≡ heard v clients
  unfolding heard rename_first
  heard-rename_first w v name [] = refl
  heard-rename_first w v name (c ∷ clients) =
      let ih = heard-rename_first w v name clients in
      elim (Bool-cases (is_user w c)) [
        | inl k ↦ rw (rename_first, k) refl
        | inr k ↦ elim (Bool-cases (is_user v c)) [
          | inl t ↦ rw (rename_first, k, heard, t) refl
          | inr t ↦ rw (rename_first, k, heard, t) ih
        ]
      ]
