-- ===== src/Session/Working.antt =====
-- src/memory/working.ts: the scratchpad of a run.
use autonomous_agent.Common.{String, Option, none, some, List, [], ◌∷◌, ◌++◌, truthy}
use autonomous_agent.Domain.Goal.{Goal}
use autonomous_agent.Domain.Plan.{Plan}
use autonomous_agent.Domain.Tool.{Observation}
use autonomous_agent.Memory.Retrieval.{RetrievalResult}

-- `RunWorkingMemory`
pub record Working : Type 0 where
  pub goal : Goal
  pub plan : Option Plan
  pub current_task_id : Option String
  pub observations : List Observation
  pub retrievals : List RetrievalResult
  pub notes : List String

pub record WorkingSnapshot : Type 0 where
  pub run_id : String
  pub goal : Goal
  pub plan : Option Plan
  pub current_task_id : Option String
  pub observations : List Observation
  pub retrievals : List RetrievalResult
  pub notes : List String

unfoldable pub new_working : Goal → Working
new_working goal = record {
  goal = goal;
  plan = none;
  current_task_id = none;
  observations = [];
  retrievals = [];
  notes = [];
}

unfoldable pub set_plan : Plan → Working → Working
set_plan plan w = record w { plan = some plan }

unfoldable pub set_current_task_id : Option String → Working → Working
set_current_task_id task w = record w { current_task_id = task }

unfoldable pub add_observation : Observation → Working → Working
add_observation o w = record w { observations = w.observations ++ o ∷ [] }

unfoldable pub add_retrieval : RetrievalResult → Working → Working
add_retrieval r w = record w { retrievals = w.retrievals ++ r ∷ [] }

unfoldable pub add_note : String → Working → Working
add_note note w = record w { notes = w.notes ++ note ∷ [] }

-- an empty task identifier is left out
unfoldable pub snapshot : Working → WorkingSnapshot
snapshot w = record {
  run_id = w.goal.run_id;
  goal = w.goal;
  plan = w.plan;
  current_task_id = truthy w.current_task_id;
  observations = w.observations;
  retrievals = w.retrievals;
  notes = w.notes;
}
