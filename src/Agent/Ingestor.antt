-- ===== src/Agent/Ingestor.antt =====
-- `ObservationKnowledgeIngestor` of src/agent/knowledge-ingestor.ts. `url_host` is the platform's
-- `new URL(url).hostname`, which may throw (`none`); a status is a natural number.
pub mod Laws
use autonomous_agent.Common.{
  ℕ, String, Bool, true, false, Option, none, some, List, [], ◌∷◌, ◌++◌, decimal, or_else, truthy,
  ltb, leb, text_length, text_take, ◌===◌, ◌<>◌, if◌then◌else◌,
}
use autonomous_agent.Common.Scan.{trim}
use autonomous_agent.Async.{Async, pure, ◌>>=◌}
use autonomous_agent.Domain.Value.{Value, num, str, Members}
use autonomous_agent.Domain.Parse.{as_record, field}
use autonomous_agent.Domain.Provenance.{empty_provenance}
use autonomous_agent.Domain.Tool.{ToolStatus, ok, error}
use autonomous_agent.Session.Core.{Host, Shared, next_id, clock_now}
use autonomous_agent.Agent.Contracts.{IngestionInput, IngestionOutput, KnowledgeRecord}

pub record IngestorOptions : Type 0 where
  pub max_content_chars : Option ℕ
  pub min_content_chars : Option ℕ

-- `confidence` in hundredths
pub record Extracted : Type 0 where
  pub title : String
  pub text : String
  pub url : Option String
  pub tags : List String
  pub confidence : ℕ

-- `Extracted | { skipped }`
pub data Extraction : Type 0 where
  extracted : Extracted → Extraction
  passed_over : String → Extraction

abbrev pub skip : String → IngestionOutput
skip reason = record { knowledge = []; skipped = some reason }

-- `typeof a === 'string' ? a : b`
abbrev text_first : Value → Value → Value
text_first (str s) other = str s
text_first _ other = other

abbrev title_or_url : Value → String → String
title_or_url (str title) url = if trim title === "" then url else trim title
title_or_url _ url = url

-- `[hostOf(url)].filter(Boolean)`
abbrev host_tags : Option String → List String
host_tags none = []
host_tags (some name) = if name === "" then [] else name ∷ []

module _ (url_host : String → Option String) where
  -- the case 'web.fetch', by the fields url, text, status and title
  abbrev pub fetched : Value → Value → Value → Value → Extraction
  fetched (str url) (str text) (num status) title =
      if leb 400 status
      then passed_over ("HTTP " <> decimal status <> " is not knowledge")
      else extracted (record {
        title = title_or_url title url;
        text = text;
        url = some url;
        tags = host_tags (url_host url);
        confidence = 50;
      })
  fetched _ _ _ _ = passed_over "web.fetch output lacks url/status/text"

  -- the case 'fs.read', by the fields path and content
  abbrev pub file_read : Value → Value → Extraction
  file_read (str path) (str content) = extracted (record {
    title = path;
    text = content;
    url = none;
    tags = "sandbox-file" ∷ [];
    confidence = 40;
  })
  file_read _ _ = passed_over "fs.read output lacks path/content"

  unfoldable pub extract_fields : String → Members → Extraction
  unfolding field trim
  extract_fields name output =
      if name === "web.fetch"
      then fetched (text_first (field output "finalUrl") (field output "url")) (field output "text")
          (field output "status") (field output "title")
      else if name === "fs.read"
      then file_read (field output "path") (field output "content")
      else passed_over (name <> " does not return ingestible content")

  unfoldable pub extract : String → Value → Extraction
  unfolding as_record extract_fields
  extract name output = elim (as_record output) [
    | none ↦ passed_over "output is not an object"
    | some fs ↦ extract_fields name fs
  ]

-- the content that is kept of a text
abbrev pub capped : ℕ → String → String
capped limit text = if ltb limit (text_length text) then text_take limit text <> "…" else text

-- the record of a text, by its identifier and its time
abbrev pub knowledge_of :
    IngestionInput → ℕ → Extracted → String → String → String → KnowledgeRecord
knowledge_of input limit found text record_id now = record {
  base = record {
    record_id = record_id;
    run_id = input.correlation.run_id;
    goal_id = some input.correlation.goal_id;
    task_id = some input.task.task_id;
    created_at = now;
    summary =
        found.title
        <> " ("
        <> input.observation.tool_result.tool_name
        <> ", "
        <> decimal (text_length (capped limit text))
        <> " chars"
        <> (if ltb limit (text_length text) then ", truncated" else "")
        <> ")";
    tags = "ingested" ∷ input.observation.tool_result.tool_name ∷ found.tags;
    provenance = record empty_provenance {
      action_ids = some (input.action.action_id ∷ []);
      observation_ids = some (input.observation.observation_id ∷ []);
      plan_ids = some (input.action.plan_id ∷ []);
      decision_ids = elim (truthy input.action.decision_id) [
        | none ↦ none
        | some id ↦ some (id ∷ [])
      ];
    };
    preconditions = none;
  };
  body = record {
    title = found.title;
    content = capped limit text;
    sources =
        record {
          url = truthy found.url;
          title = some found.title;
          tool_name = some input.observation.tool_result.tool_name;
          retrieved_at = input.observation.observed_at;
          action_id = some input.action.action_id;
        }
        ∷ [];
    confidence = found.confidence;
  };
}

module _ {X : Type 0} (host : Host X) (url_host : String → Option String)
    (options : IngestorOptions) where
  -- what follows the extraction
  unfoldable pub keep_text : IngestionInput → Extraction → Async (Shared X) IngestionOutput
  keep_text input (passed_over reason) = pure (skip reason)
  keep_text input (extracted found) =
      if ltb (text_length (trim found.text)) (or_else options.min_content_chars 40)
      then pure
          (skip ("content too short (" <> decimal (text_length (trim found.text)) <> " chars)"))
      else (do
        record_id ← next_id host "mem"
        now ← clock_now host
        pure (record {
          knowledge =
              knowledge_of input (or_else options.max_content_chars 2000) found (trim found.text)
                record_id now
              ∷ [];
          skipped = none;
        }))

  -- by the status of the tool's result
  unfoldable pub ingest_result : IngestionInput → ToolStatus → Async (Shared X) IngestionOutput
  ingest_result input (error _) = pure (skip "tool call did not complete")
  ingest_result input (ok output _) =
      keep_text input (extract url_host input.observation.tool_result.tool_name output)

  unfoldable pub ingest : IngestionInput → Async (Shared X) IngestionOutput
  ingest input = ingest_result input input.observation.tool_result.status
