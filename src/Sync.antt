-- ===== src/Sync.antt =====
-- Sessions that share one log of records (domain/painter-session/sync/document_sync.rs).
pub mod Watched
mod Tests
use thaum_painter.Base.{ℕ, ◌+◌, List, [], ◌∷◌, ◌++◌, length, drop, if◌then◌else◌}
use thaum_painter.Base.Text.{Text, text_eq}
use thaum_painter.Cell.{Renderer}
use thaum_painter.History.{SharedDocumentActionRecord as Record, HistoryRuntime}
use thaum_painter.History.Apply.{apply_action_record, push_history_record}

pub record LoopbackActionBus (Value : Type 0) : Type 0 where
  pub records : List (Record Value)

pub record SyncedDocumentSession (R : Renderer) (Value : Type 0) : Type 0 where
  pub user_id : Text
  pub runtime : HistoryRuntime R Value
  pub action_counter : ℕ
  pub consumed_count : ℕ

module _ {Value : Type 0} where
  unfoldable pub publish : LoopbackActionBus Value → Record Value → LoopbackActionBus Value
  publish bus entry = record bus { records = bus.records ++ entry ∷ [] }

module _ {R : Renderer} {Value : Type 0} where
  abbrev pub new_session : Text → HistoryRuntime R Value → SyncedDocumentSession R Value
  new_session user_id runtime = record {
    user_id = user_id;
    runtime = runtime;
    action_counter = 0;
    consumed_count = 0;
  }

  unfoldable pub publish_action :
      SyncedDocumentSession R Value
      → LoopbackActionBus Value
      → Record Value
      → SyncedDocumentSession R Value × LoopbackActionBus Value
  unfolding publish
  publish_action session bus entry =
      (record session { runtime = apply_action_record session.runtime entry }, publish bus entry)

  unfoldable pub publish_history_record :
      SyncedDocumentSession R Value
      → LoopbackActionBus Value
      → Record Value
      → SyncedDocumentSession R Value × LoopbackActionBus Value
  unfolding publish
  publish_history_record session bus entry =
      (record session { runtime = push_history_record session.runtime entry }, publish bus entry)

  -- The loop of a sync, over the records past the cursor.
  unfoldable pub sync_records :
      SyncedDocumentSession R Value → List (Record Value) → ℕ → SyncedDocumentSession R Value × ℕ
  sync_records session [] applied = (session, applied)
  sync_records session (entry ∷ entries) applied =
      let read : SyncedDocumentSession R Value = record session {
        consumed_count = session.consumed_count + 1;
      } in
      let skipped = sync_records read entries applied in
      let done =
        sync_records (record read { runtime = apply_action_record read.runtime entry }) entries
          (applied + 1) in
      if text_eq entry.user_id session.user_id then skipped else done

  unfoldable pub sync_from_bus :
      SyncedDocumentSession R Value → LoopbackActionBus Value → SyncedDocumentSession R Value × ℕ
  unfolding sync_records
  sync_from_bus session bus = sync_records session (drop session.consumed_count bus.records) 0
