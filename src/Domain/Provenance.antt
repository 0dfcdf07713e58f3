-- ===== src/Domain/Provenance.antt =====
-- src/domain/provenance.ts. Branded identifiers are plain texts at run time.
pub mod Merge
use autonomous_agent.Common.{
  String, Option, none, some, List, [], ◌∷◌, ◌++◌, map, includes, if◌then◌else◌,
}

pub record Provenance : Type 0 where
  pub retrieval_ids : Option (List String)
  pub memory_record_ids : Option (List String)
  pub plan_ids : Option (List String)
  pub decision_ids : Option (List String)
  pub action_ids : Option (List String)
  pub observation_ids : Option (List String)
  pub evaluation_ids : Option (List String)
  pub lesson_ids : Option (List String)

abbrev pub empty_provenance : Provenance
empty_provenance = record {
  retrieval_ids = none;
  memory_record_ids = none;
  plan_ids = none;
  decision_ids = none;
  action_ids = none;
  observation_ids = none;
  evaluation_ids = none;
  lesson_ids = none;
}

-- the inner loop over one part's values: push each value that is not there yet
unfoldable pub add_new : List String → List String → List String
add_new merged [] = merged
add_new merged (v ∷ vs) = add_new (if includes merged v then merged else merged ++ v ∷ []) vs

-- the loop over the parts, for one key
unfoldable pub merge_values : List String → List (Option (List String)) → List String
merge_values merged [] = merged
merge_values merged (none ∷ parts) = merge_values merged parts
merge_values merged (some values ∷ parts) = merge_values (add_new merged values) parts

-- the key is set on the result only if something was merged
abbrev when_any : List String → Option (List String)
when_any [] = none
when_any (v ∷ vs) = some (v ∷ vs)

-- one key of `mergeProvenance`
unfoldable pub merge_key :
    (Provenance → Option (List String)) → List Provenance → Option (List String)
unfolding merge_values add_new
merge_key key parts = when_any (merge_values [] (map key parts))

unfoldable pub merge_provenance : List Provenance → Provenance
unfolding merge_key
merge_provenance parts = record {
  retrieval_ids = merge_key (λ p. p.retrieval_ids) parts;
  memory_record_ids = merge_key (λ p. p.memory_record_ids) parts;
  plan_ids = merge_key (λ p. p.plan_ids) parts;
  decision_ids = merge_key (λ p. p.decision_ids) parts;
  action_ids = merge_key (λ p. p.action_ids) parts;
  observation_ids = merge_key (λ p. p.observation_ids) parts;
  evaluation_ids = merge_key (λ p. p.evaluation_ids) parts;
  lesson_ids = merge_key (λ p. p.lesson_ids) parts;
}

pub record RunCorrelation : Type 0 where
  pub run_id : String
  pub goal_id : String
  pub task_id : Option String
