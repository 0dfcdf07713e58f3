-- ===== src/Session/Log.antt =====
-- What can be read off the events of a run: their numbering, and the endings that they announce.
use autonomous_agent.Common.{suc, ◌≡◌, Option, none, some, List, [], ◌∷◌, length}
use autonomous_agent.Domain.Run.{RunStatus}
use autonomous_agent.Events.{
  AgentEvent, Payload, goal_completed, goal_failed, run_limit_reached, FailureCause,
}
use autonomous_agent.Session.Core.{Session}

-- the events, the newest first, are numbered from 1 on without a gap
abbrev pub IsSequenced : List AgentEvent → Type 0
IsSequenced [] = Unit
IsSequenced (e ∷ es) = (e.sequence ≡ suc (length es)) × IsSequenced es

pub record IsNumbered (r : Session) : Type 0 where
  pub counted : r.sequence ≡ length r.emitted
  pub sequenced : IsSequenced r.emitted

-- the end of the run that a payload announces
abbrev pub ending_of : Payload → Option RunStatus
ending_of (goal_completed _ _) = some RunStatus.completed
ending_of (goal_failed _ _ FailureCause.gave_up) = some RunStatus.gave_up
ending_of (goal_failed _ _ FailureCause.unrecoverable) = some RunStatus.failed
ending_of (run_limit_reached _ _ _) = some RunStatus.limit_reached
ending_of _ = none

abbrev push_ending : Option RunStatus → List RunStatus → List RunStatus
push_ending none l = l
push_ending (some status) l = status ∷ l

-- the ends that the events announce, the newest first
unfoldable pub endings : List AgentEvent → List RunStatus
endings [] = []
endings (e ∷ es) = push_ending (ending_of e.payload) (endings es)
