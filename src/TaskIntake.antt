-- ===== src/TaskIntake.antt =====
-- src/persistence/repositories/task_intake.py
use instructional_agent_mvp.Prelude.{String, Bool, List, [], ◌∷◌}
use instructional_agent_mvp.Schema.{contains}

abbrev pub known_task_types : List String
known_task_types = "PRODUCE_LEARNING_OBJECT" ∷ []

unfoldable pub is_known_task_type : String → Bool
is_known_task_type = contains known_task_types
