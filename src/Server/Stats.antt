-- ===== src/Server/Stats.antt =====
-- server.py: `ServerStats` and `_StatsTracker`. Each method holds the tracker's lock, so it is one
-- step. The two gauges go up and down and are signed; the counters only grow.
use xmlrpc_extended.Prelude.{ℕ, ◌+◌}
use xmlrpc_extended.Prelude.Int.{ℤ, pos, ◌+ℤ◌, ◌-ℤ◌}

pub record ServerStats : Type 0 where
  pub active : ℤ
  pub queued : ℤ
  pub rejected_close : ℕ
  pub rejected_fault : ℕ
  pub rejected_503 : ℕ
  pub completed : ℕ
  pub errored : ℕ

pub record StatsTracker : Type 0 where
  pub submitted : ℤ
  pub active : ℤ
  pub rejected_close : ℕ
  pub rejected_fault : ℕ
  pub rejected_503 : ℕ
  pub completed : ℕ
  pub errored : ℕ

abbrev pub new_tracker : StatsTracker
new_tracker = record {
  submitted = pos 0;
  active = pos 0;
  rejected_close = 0;
  rejected_fault = 0;
  rejected_503 = 0;
  completed = 0;
  errored = 0;
}

unfoldable pub record_submitted : StatsTracker → StatsTracker
record_submitted t = record t { submitted = t.submitted +ℤ pos 1 }

unfoldable pub record_started : StatsTracker → StatsTracker
record_started t = record t { submitted = t.submitted -ℤ pos 1; active = t.active +ℤ pos 1 }

unfoldable pub record_completed : StatsTracker → StatsTracker
record_completed t = record t { active = t.active -ℤ pos 1; completed = t.completed + 1 }

unfoldable pub record_errored : StatsTracker → StatsTracker
record_errored t = record t { active = t.active -ℤ pos 1; errored = t.errored + 1 }

unfoldable pub record_rejected_close : StatsTracker → StatsTracker
record_rejected_close t = record t { rejected_close = t.rejected_close + 1 }

unfoldable pub record_rejected_fault : StatsTracker → StatsTracker
record_rejected_fault t = record t { rejected_fault = t.rejected_fault + 1 }

unfoldable pub record_rejected_503 : StatsTracker → StatsTracker
record_rejected_503 t = record t { rejected_503 = t.rejected_503 + 1 }

unfoldable pub snapshot : StatsTracker → ServerStats
snapshot t = record {
  active = t.active;
  queued = t.submitted;
  rejected_close = t.rejected_close;
  rejected_fault = t.rejected_fault;
  rejected_503 = t.rejected_503;
  completed = t.completed;
  errored = t.errored;
}
