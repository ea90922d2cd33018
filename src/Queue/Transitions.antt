-- ===== src/Queue/Transitions.antt =====
-- The status transitions of repo/queue_write.py, one UPDATE each.
use research_orchestrator.Prelude.{
  ℕ, ◌+◌, ◌-◌, ◌*◌, String, Bool, true, false, ◌&&◌, ◌||◌, Option, none, some, List, ltb, ◌==◌,
}
use research_orchestrator.Queue.Schema.{
  Row, Status, pending, running, parked, completed, failed, status_eq, add_note,
}
use research_orchestrator.Queue.Table.{update_where}

-- started_at IS NOT NULL AND started_at < NOW() - make_interval(secs => max_age)
unfoldable pub started_before : (now max_age : ℕ) → Option ℕ → Bool
started_before now max_age none = false
started_before now max_age (some s) = ltb (s + max_age * 1000000) now

unfoldable pub is_stuck : (now max_age : ℕ) → Row → Bool
unfolding started_before
is_stuck now max_age r = status_eq r.status running && started_before now max_age r.started_at

-- GREATEST(iteration_number - 1, 0)
unfoldable pub recovered : String → Row → Row
recovered note r = record r {
  status = pending;
  started_at = none;
  iteration_number = r.iteration_number - 1;
  notes = add_note note r.notes;
}

-- `note` is the text that the statement builds from NOW() and `max_age`.
unfoldable pub recover_stuck : (now max_age : ℕ) (note : String) → List Row → List Row × ℕ
unfolding is_stuck recovered
recover_stuck now max_age note = update_where (is_stuck now max_age) (recovered note)

-- `AND status = $3`, only where `expected_status` is given
unfoldable pub has_expected : Option Status → Status → Bool
has_expected none s = true
has_expected (some e) s = status_eq s e

-- WHERE queue_id = $1, with the optional guard
unfoldable pub selects : ℕ → Option Status → Row → Bool
unfolding has_expected
selects queue_id expected r = r.queue_id == queue_id && has_expected expected r.status

unfoldable pub rolled_back : String → Row → Row
rolled_back note r = record r {
  iteration_number = r.iteration_number - 1;
  status = pending;
  notes = add_note note r.notes;
}

unfoldable pub rollback_iter :
    (queue_id : ℕ) (note : String) (expected : Option Status) → List Row → List Row × ℕ
unfolding selects rolled_back
rollback_iter queue_id note expected = update_where (selects queue_id expected) (rolled_back note)

unfoldable pub parked_row : (now : ℕ) (note : String) → Row → Row
parked_row now note r = record r {
  status = parked;
  completed_at = some now;
  active_backtest_run_id = none;
  notes = add_note note r.notes;
}

unfoldable pub park_exhausted :
    (now queue_id : ℕ) (note : String) (expected : Option Status) → List Row → List Row × ℕ
unfolding selects parked_row
park_exhausted now queue_id note expected =
    update_where (selects queue_id expected) (parked_row now note)

unfoldable pub failed_row : (now : ℕ) (note : String) → Row → Row
failed_row now note r = record r {
  status = failed;
  completed_at = some now;
  active_backtest_run_id = none;
  notes = add_note note r.notes;
}

unfoldable pub fail_queue :
    (now queue_id : ℕ) (note : String) (expected : Option Status) → List Row → List Row × ℕ
unfolding selects failed_row
fail_queue now queue_id note expected =
    update_where (selects queue_id expected) (failed_row now note)

unfoldable pub requeued : String → Row → Row
requeued note r = record r {
  status = pending;
  iteration_number = r.iteration_number - 1;
  completed_at = none;
  notes = add_note note r.notes;
}

unfoldable pub requeue_failed : (queue_id : ℕ) (note : String) → List Row → List Row × ℕ
unfolding selects requeued
requeue_failed queue_id note = update_where (selects queue_id (some failed)) (requeued note)

unfoldable pub with_active_run : ℕ → Row → Row
with_active_run run r = record r { active_backtest_run_id = some run }

unfoldable pub set_active_run : (queue_id backtest_run_id : ℕ) → List Row → List Row × ℕ
unfolding selects with_active_run
set_active_run queue_id run = update_where (selects queue_id (some running)) (with_active_run run)

unfoldable pub completed_row :
    (now : ℕ) (final_verdict : String) (walk_forward_id : Option ℕ) (note : String) → Row → Row
completed_row now final_verdict walk_forward_id note r = record r {
  status = completed;
  final_verdict = some final_verdict;
  walk_forward_id = walk_forward_id;
  completed_at = some now;
  active_backtest_run_id = none;
  notes = add_note note r.notes;
}

unfoldable pub complete_queue :
    (now queue_id : ℕ) (final_verdict : String) (walk_forward_id : Option ℕ) (note : String)
    (expected : Option Status)
    → List Row
    → List Row × ℕ
unfolding selects completed_row
complete_queue now queue_id final_verdict walk_forward_id note expected =
    update_where (selects queue_id expected) (completed_row now final_verdict walk_forward_id note)

unfoldable pub with_regime : (label analysis : Option String) → Row → Row
with_regime label analysis r = record r { regime_label = label; regime_analysis = analysis }

unfoldable pub update_regime_label :
    (queue_id : ℕ) (label analysis : Option String) → List Row → List Row
unfolding selects with_regime
update_regime_label queue_id label analysis t =
    (update_where (selects queue_id none) (with_regime label analysis) t).0

unfoldable pub back_to_pending : String → Row → Row
back_to_pending note r = record r { status = pending; notes = add_note note r.notes }

unfoldable pub reset_to_pending :
    (queue_id : ℕ) (note : String) (expected : Option Status) → List Row → List Row × ℕ
unfolding selects back_to_pending
reset_to_pending queue_id note expected =
    update_where (selects queue_id expected) (back_to_pending note)

-- status IN ('PENDING', 'RUNNING')
unfoldable pub is_cancellable : ℕ → Row → Bool
is_cancellable queue_id r =
    r.queue_id == queue_id && (status_eq r.status pending || status_eq r.status running)

unfoldable pub cancelled_row : (now : ℕ) (note : String) → Row → Row
cancelled_row now note r = record r {
  status = parked;
  completed_at = some now;
  notes = add_note note r.notes;
}

unfoldable pub cancel_queue : (now queue_id : ℕ) (note : String) → List Row → List Row × ℕ
unfolding is_cancellable cancelled_row
cancel_queue now queue_id note = update_where (is_cancellable queue_id) (cancelled_row now note)

-- `AND started_at = $4`, only where the fence is given. NULL equals nothing.
unfoldable pub passes_fence : Option ℕ → Option ℕ → Bool
passes_fence none started = true
passes_fence (some e) none = false
passes_fence (some e) (some s) = s == e

unfoldable pub is_attachable : ℕ → Option ℕ → Row → Bool
unfolding passes_fence
is_attachable queue_id fence r = r.queue_id == queue_id && passes_fence fence r.started_at

unfoldable pub attached_row : (iteration_id backtest_run_id : ℕ) → Row → Row
attached_row iteration run r = record r {
  last_iteration_id = some iteration;
  last_run_id = some run;
  active_backtest_run_id = none;
}

unfoldable pub attach_iteration :
    (queue_id iteration_id backtest_run_id : ℕ) (expected_started_at : Option ℕ)
    → List Row
    → List Row × ℕ
unfolding is_attachable attached_row
attach_iteration queue_id iteration run fence =
    update_where (is_attachable queue_id fence) (attached_row iteration run)
