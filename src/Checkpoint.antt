-- ===== src/Checkpoint.antt =====
-- lib/eventCheckpoint.ts: the legacy checkpoint of processed events, kept for recovery. The file is
-- read and written by the callers of these functions; the version field is constant and left out. A
-- sequence number is a natural number, so `Math.max(0, …)` of the seed does nothing.
pub mod Sets
use orc_state.Base.{String, List, [], ◌∷◌, ◌++◌, ℕ, max, filter_by, includes, dedup}
use orc_state.Base.Time.{Stamp}

pub record EventProcessingCheckpoint : Type 0 where
  pub last_processed_seq : ℕ
  pub processed_event_ids : List String
  pub updated_at : Stamp

unfoldable pub default_event_checkpoint : Stamp → EventProcessingCheckpoint
default_event_checkpoint now = record {
  last_processed_seq = 0;
  processed_event_ids = [];
  updated_at = now;
}

-- What `writeEventCheckpoint` writes and returns.
unfoldable pub written_checkpoint : EventProcessingCheckpoint → EventProcessingCheckpoint
written_checkpoint c = record c { processed_event_ids = dedup c.processed_event_ids }

unfoldable pub advance_event_checkpoint :
    EventProcessingCheckpoint → String → ℕ → Stamp → EventProcessingCheckpoint
advance_event_checkpoint c event_id seq now = record {
  last_processed_seq = max c.last_processed_seq seq;
  processed_event_ids = dedup (c.processed_event_ids ++ event_id ∷ []);
  updated_at = now;
}

unfoldable pub prune_event_checkpoint :
    EventProcessingCheckpoint → List String → Stamp → EventProcessingCheckpoint
prune_event_checkpoint c retained now = record {
  last_processed_seq = c.last_processed_seq;
  processed_event_ids = filter_by (λ id. includes retained id) c.processed_event_ids;
  updated_at = now;
}

unfoldable pub seed_event_checkpoint_from_events :
    List String → ℕ → Stamp → EventProcessingCheckpoint
seed_event_checkpoint_from_events ids last_processed_seq now = record {
  last_processed_seq = last_processed_seq;
  processed_event_ids = dedup ids;
  updated_at = now;
}
