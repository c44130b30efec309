-- ===== src/Runs/Ended.antt =====
-- A Run that has ended, for the methods of conversations/service.py that end Runs.
use aiagent.Prelude.{ℕ, ◌≡◌, Bool, true, some}
use aiagent.Runs.Rows.{Run, Db, find_run, is_terminal, RunStatus}
use aiagent.Runs.Answers.{Answers}

-- The Run is in the table and over.
abbrev pub HasEnded : ℕ → Db → Type 0
HasEnded id db = (run : Run) × (find_run id db ≡ some run) × (is_terminal run.status ≡ true)

abbrev completed : ℕ → ℕ → Run → Run
completed fresh now run = record run {
  assistant_message_id = some fresh;
  status = RunStatus.completed;
  completed_at = some now;
}

-- What a call that returns true leaves.
abbrev Ends : ℕ → Bool × Answers × Db → Type 0
Ends id r = r.0 ≡ true → HasEnded id r.2
