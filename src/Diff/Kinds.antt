-- ===== src/Diff/Kinds.antt =====
-- The status and the source of a line delta (internal/diff/pipeline.go). A string that is none of
-- the constants is `other`; the empty string is `other []`.
use agent_action_visualizer.Prelude.{Text}

pub data Status : Type 0 where
  known empty unknown binary unsupported_encoding pending : Status
  other : Text → Status

pub data Source : Type 0 where
  structured_patch correlated_snapshot git_numstat unknown : Source
  other : Text → Source
