-- ===== src/Session/Tests.antt =====
-- A session with a host and two clients, and the theorems at it.
use thaum_painter.Base.{ℕ, false, none, some, [], ◌∷◌, ◌≡◌, refl}
use thaum_painter.Base.Text.{codes, text_eq, text_Eq}
use thaum_painter.Session.{SessionUser, hello, action, bye, logged, SessionHost}
use thaum_painter.Session.Handled.{handle_client_message}
use thaum_painter.Session.Heard.{added, hears, heard}
use thaum_painter.Session.Delivered.{record_of, handle_client_message-heard}
use thaum_painter.Session.Served.{RunsBeside, stopped, sent, handle_client_message-follows}

abbrev ann : SessionUser
ann = record { user_id = codes "ann"; display_name = codes "Ann"; presence_color = (9, 9, 9) }

abbrev bob : SessionUser
bob = record { user_id = codes "bob"; display_name = codes "Bob"; presence_color = (7, 7, 7) }

abbrev shared : SessionHost ℕ ℕ
shared = record {
  host_user = none;
  records = 4 ∷ [];
  clients =
      record { user = ann; outgoing = logged 4 ∷ [] } ∷ record { user = bob; outgoing = [] } ∷ [];
  cursors = [];
  last_seen = (codes "ann", 100) ∷ (codes "bob", 100) ∷ [];
  snapshot_source = some 0;
  ended = false;
}

abbrev alone : SessionHost ℕ ℕ
alone = record shared { clients = record { user = bob; outgoing = [] } ∷ [] }

bob_is_not_ann : text_eq (codes "bob") (codes "ann") ≡ false
unfolding text_eq
bob_is_not_ann = refl

handle_client_message-heard_example :
    ((handle_client_message shared (codes "bob") (action 7) 200).0.records
      ≡ added (record_of shared (codes "bob") (action 7)) (4 ∷ []))
    × (heard (codes "ann") (handle_client_message shared (codes "bob") (action 7) 200).0.clients
        ≡ hears (record_of shared (codes "bob") (action 7)) (heard (codes "ann") shared.clients))
handle_client_message-heard_example =
    handle_client_message-heard shared (codes "bob") (codes "ann") (action 7) 200 bob_is_not_ann

-- Ann joins while Bob is there, Bob draws, the host draws, and Bob leaves.
abbrev joined_host : SessionHost ℕ ℕ
joined_host = (handle_client_message alone (codes "ann") (hello ann 3) 200).0

abbrev drawn : SessionHost ℕ ℕ
drawn = (handle_client_message joined_host (codes "bob") (action 7) 300).0

ann_accepted : (handle_client_message alone (codes "ann") (hello ann 3) 200).1 ≡ none
unfolding handle_client_message text_eq
ann_accepted = refl

others_act :
    RunsBeside (codes "ann") joined_host (handle_client_message drawn (codes "bob") bye 400).0
others_act =
    sent (codes "bob") (action 7) 300 bob_is_not_ann
      (sent (codes "bob") bye 400 bob_is_not_ann stopped)

handle_client_message-follows_example :
    heard (codes "ann") (handle_client_message drawn (codes "bob") bye 400).0.clients
    ≡ some (handle_client_message drawn (codes "bob") bye 400).0.records
handle_client_message-follows_example =
    handle_client_message-follows alone (handle_client_message drawn (codes "bob") bye 400).0 ann 3
      200 ann_accepted others_act

-- What Ann hears: the log from before she joined, and what Bob drew.
ann_hears :
    heard (codes "ann") (handle_client_message drawn (codes "bob") bye 400).0.clients
    ≡ some (4 ∷ 7 ∷ [])
unfolding handle_client_message heard text_eq
ann_hears = refl
