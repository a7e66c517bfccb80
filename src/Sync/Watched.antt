-- ===== src/Sync/Watched.antt =====
-- Sessions that watch the log of records of others (domain/painter-session/sync/document_sync.rs).
use thaum_painter.Base.{
  ℕ, ◌+◌, List, [], ◌∷◌, ◌++◌, length, length-append, drop, false, ◌≡◌, refl, sym, ◌∙◌, ap, arith,
}
use mathlib.Core.List.{append_assoc, append-nil}
use thaum_painter.Base.Text.{Text, text_eq}
use thaum_painter.Cell.{Renderer}
use thaum_painter.History.{SharedDocumentActionRecord as Record, HistoryRuntime}
use thaum_painter.History.Apply.{apply_action_record, replay_onto}
use thaum_painter.Sync.{
  LoopbackActionBus, SyncedDocumentSession, new_session, publish, sync_records, sync_from_bus,
}

module _ {Value : Type 0} where
  IsForeign : Text → List (Record Value) → Type 0
  IsForeign user_id [] = Unit
  IsForeign user_id (entry ∷ entries) =
      (text_eq entry.user_id user_id ≡ false) × IsForeign user_id entries

  drop-append : (xs ys : List (Record Value)) → drop (length xs) (xs ++ ys) ≡ ys
  drop-append [] ys = refl
  drop-append (x ∷ xs) ys = drop-append xs ys

  IsForeign-append :
      (user_id : Text) (xs : List (Record Value)) (entry : Record Value)
      → text_eq entry.user_id user_id ≡ false
      → IsForeign user_id xs
      → IsForeign user_id (xs ++ entry ∷ [])
  unfolding IsForeign
  IsForeign-append user_id [] entry h f = (h, tt)
  IsForeign-append user_id (x ∷ xs) entry h f = (f.0, IsForeign-append user_id xs entry h f.1)

module _ {R : Renderer} {Value : Type 0} where
  -- A session and the log while others publish and it syncs now and then, from an empty log.
  pub data Watches (user_id : Text) (start : HistoryRuntime R Value)
      : SyncedDocumentSession R Value → LoopbackActionBus Value → Type 0 where
    opened : Watches user_id start (new_session user_id start) (record { records = [] })
    published :
        {session : SyncedDocumentSession R Value} {bus : LoopbackActionBus Value}
        → (entry : Record Value) → text_eq entry.user_id user_id ≡ false
        → Watches user_id start session bus
        → Watches user_id start session (publish bus entry)
    synced :
        {session : SyncedDocumentSession R Value} {bus : LoopbackActionBus Value}
        → Watches user_id start session bus
        → Watches user_id start (sync_from_bus session bus).0 bus

  -- A session that has read the first part of the log, and what is left.
  record IsAt (user_id : Text) (start : HistoryRuntime R Value)
      (session : SyncedDocumentSession R Value) (bus : LoopbackActionBus Value)
      (done pending : List (Record Value)) : Type 0 where
    parts : bus.records ≡ done ++ pending
    owner : session.user_id ≡ user_id
    cursor : session.consumed_count ≡ length done
    replayed : session.runtime ≡ replay_onto start done
    foreign : IsForeign user_id pending

  replay_onto-append :
      (r : HistoryRuntime R Value) (xs ys : List (Record Value))
      → replay_onto r (xs ++ ys) ≡ replay_onto (replay_onto r xs) ys
  unfolding replay_onto
  replay_onto-append r [] ys = refl
  replay_onto-append r (x ∷ xs) ys = replay_onto-append (apply_action_record r x) xs ys

  -- What a loop over records of others does.
  record Replays (session after : SyncedDocumentSession R Value) (entries : List (Record Value))
      (applied count : ℕ) : Type 0 where
    replays : after.runtime ≡ replay_onto session.runtime entries
    reads : after.consumed_count ≡ session.consumed_count + length entries
    keeps : after.user_id ≡ session.user_id
    counts : count ≡ applied + length entries

  sync_records-Replays :
      (session : SyncedDocumentSession R Value) (entries : List (Record Value)) (applied : ℕ)
      → IsForeign session.user_id entries
      → Replays session
          (sync_records session entries applied).0
          entries
          applied
          (sync_records session entries applied).1
  unfolding sync_records replay_onto IsForeign
  sync_records-Replays session [] applied f = record {
    replays = refl;
    reads = omega arith;
    keeps = refl;
    counts = omega arith;
  }
  sync_records-Replays session (entry ∷ entries) applied f =
      let next : SyncedDocumentSession R Value = record session {
        consumed_count = session.consumed_count + 1;
        runtime = apply_action_record session.runtime entry;
      } in
      let ih = sync_records-Replays next entries (applied + 1) f.1 in
      rw (sync_records, f.0)
        (record {
          replays = ih.replays;
          reads = omega (arith, ih.reads);
          keeps = ih.keeps;
          counts = omega (arith, ih.counts);
        })

  IsAt-append :
      (user_id : Text) (start : HistoryRuntime R Value) (session : SyncedDocumentSession R Value)
      (bus : LoopbackActionBus Value) (done pending : List (Record Value)) (entry : Record Value)
      → text_eq entry.user_id user_id ≡ false
      → IsAt user_id start session bus done pending
      → IsAt user_id start session (publish bus entry) done (pending ++ entry ∷ [])
  unfolding publish
  IsAt-append user_id start session bus done pending entry h at_ = record {
    parts =
        ap (λ (rs : List (Record Value)). rs ++ entry ∷ []) at_.parts
        ∙ append_assoc done pending (entry ∷ []);
    owner = at_.owner;
    cursor = at_.cursor;
    replayed = at_.replayed;
    foreign = IsForeign-append user_id pending entry h at_.foreign;
  }

  IsAt-sync_from_bus :
      (user_id : Text) (start : HistoryRuntime R Value) (session : SyncedDocumentSession R Value)
      (bus : LoopbackActionBus Value) (done pending : List (Record Value))
      → IsAt user_id start session bus done pending
      → IsAt user_id start (sync_from_bus session bus).0 bus (done ++ pending) []
  unfolding sync_from_bus IsForeign
  IsAt-sync_from_bus user_id start session bus done pending at_ =
      let left : drop session.consumed_count bus.records ≡ pending =
        ap (λ (n : ℕ). drop n bus.records) at_.cursor
        ∙ ap (λ (rs : List (Record Value)). drop (length done) rs) at_.parts
        ∙ drop-append done pending in
      let all = sync_records-Replays session pending 0 (rw (at_.owner) (at_.foreign)) in
      rw left (record {
        parts = at_.parts ∙ sym (append-nil (done ++ pending));
        owner = all.keeps ∙ at_.owner;
        cursor =
            all.reads
            ∙ ap (λ (n : ℕ). n + length pending) at_.cursor
            ∙ sym (length-append done pending);
        replayed =
            all.replays
            ∙ ap (λ (r : HistoryRuntime R Value). replay_onto r pending) at_.replayed
            ∙ sym (replay_onto-append start done pending);
        foreign = tt;
      })

  Watches-IsAt :
      (user_id : Text) (start : HistoryRuntime R Value) {session : SyncedDocumentSession R Value}
      {bus : LoopbackActionBus Value}
      → Watches user_id start session bus
      → (done : List (Record Value)) × (pending : List (Record Value)) × IsAt user_id start session
          bus done pending
  unfolding replay_onto IsForeign
  Watches-IsAt user_id start opened =
      ([], [], record { parts = refl; owner = refl; cursor = refl; replayed = refl; foreign = tt })
  Watches-IsAt user_id start (published {session} {bus} entry h run) =
      let ih = Watches-IsAt user_id start run in
      (ih.0, ih.1 ++ entry ∷ [], IsAt-append user_id start session bus ih.0 ih.1 entry h ih.2)
  Watches-IsAt user_id start (synced {session} {bus} run) =
      let ih = Watches-IsAt user_id start run in
      (ih.0 ++ ih.1, [], IsAt-sync_from_bus user_id start session bus ih.0 ih.1 ih.2)

  Watches-replayed :
      (user_id : Text) (start : HistoryRuntime R Value) {session : SyncedDocumentSession R Value}
      {bus : LoopbackActionBus Value}
      → Watches user_id start session bus
      → (sync_from_bus session bus).0.runtime ≡ replay_onto start bus.records
  Watches-replayed user_id start {session} {bus} run =
      let now = Watches-IsAt user_id start run in
      let after = IsAt-sync_from_bus user_id start session bus now.0 now.1 now.2 in
      after.replayed ∙ ap (replay_onto start) (sym now.2.parts)

  -- Two sessions that open the same runtime before the log has records and that publish nothing
  -- have the same runtime after a sync, whenever each of them synced before: the one that the replay
  -- of the whole log on the opened runtime gives.
  pub sync_from_bus-replay_onto :
      (one other : Text) (start : HistoryRuntime R Value)
      (session peer : SyncedDocumentSession R Value) (bus : LoopbackActionBus Value)
      → Watches one start session bus
      → Watches other start peer bus
      → ((sync_from_bus session bus).0.runtime ≡ (sync_from_bus peer bus).0.runtime)
        × ((sync_from_bus session bus).0.runtime ≡ replay_onto start bus.records)
  sync_from_bus-replay_onto one other start session peer bus run peer_run =
      let all = Watches-replayed one start run in
      (all ∙ sym (Watches-replayed other start peer_run), all)
