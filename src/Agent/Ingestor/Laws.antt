-- ===== src/Agent/Ingestor/Laws.antt =====
-- What is ingested: at most one record, of bounded size, from a call that completed.
use autonomous_agent.Common.{
  ℕ, ◌+◌, ◌≤◌, ◌≡◌, refl, sym, subst, String, true, Option, none, some, List, [], ◌∷◌, All, arith,
  ◌===◌, ltb, text_length, text_take, or_else, includes, is_some, length, Bool-cases, inl, inr,
  if◌then◌else◌, eq_iff,
}
use autonomous_agent.Common.Append.{text_length-append, text_length-take_le}
use autonomous_agent.Common.Scan.{trim}
use autonomous_agent.Async.Always.{Always, Always-pure, Always-bind}
use autonomous_agent.Async.Moves.{Moves, Moves-pure, moves_rules}
use autonomous_agent.Domain.Value.{Members}
use autonomous_agent.Domain.Parse.{as_record}
use autonomous_agent.Domain.Tool.{ToolStatus, ok, error}
use autonomous_agent.Session.Core.{Host}
use autonomous_agent.Session.Answers.{next_id-Always, clock_now-Always}
use autonomous_agent.Agent.Contracts.{IngestionInput, IngestionOutput}
use autonomous_agent.Agent.Ingestor.{
  IngestorOptions, Extracted, Extraction, extracted, passed_over, extract_fields, extract, capped,
  skip, keep_text, ingest_result, ingest,
}
use autonomous_agent.Runtime.Frame.Quiet.{Quiet, Quiet-order}
use autonomous_agent.Runtime.Frame.Methods.{next_id-Quiet, clock_now-Quiet}

text_length-capped_le : (limit : ℕ) (s : String) → text_length (capped limit s) ≤ limit + 1
text_length-capped_le limit s = elim (Bool-cases (ltb limit (text_length s))) [
  | inl e ↦
      rw (capped, e)
        (omega (arith, text_length-append (text_take limit s) "…", text_length-take_le limit s))
  | inr e ↦ rw (capped, e) (ground (arith, e))
]

-- the tools whose output is ingested
abbrev pub ingestible_tools : List String
ingestible_tools = "web.fetch" ∷ "fs.read" ∷ []

-- what is ingested of an observation
pub record Ingests (options : IngestorOptions) (input : IngestionInput) (o : IngestionOutput)
    : Type 0 where
  pub skipped : length o.knowledge + (if is_some o.skipped then 1 else 0) ≡ 1
  pub bounded :
      All (λ k. text_length k.body.content ≤ or_else options.max_content_chars 2000 + 1) o.knowledge
  pub from_tool :
      All
        (λ k. includes ingestible_tools input.observation.tool_result.tool_name ≡ true)
        o.knowledge
  pub traced :
      All (λ k. k.base.provenance.action_ids ≡ some (input.action.action_id ∷ [])) o.knowledge

ingestible :
    (name wanted : String)
    → (name === wanted) ≡ true
    → includes ingestible_tools wanted ≡ true
    → includes ingestible_tools name ≡ true
ingestible name wanted e h =
    subst (λ n. includes ingestible_tools n ≡ true) (sym ((eq_iff name wanted).0 e)) h

extract_fields-tool :
    (url_host : String → Option String) (name : String) (fs : Members) (found : Extracted)
    → extract_fields url_host name fs ≡ extracted found
    → includes ingestible_tools name ≡ true
unfolding extract_fields
extract_fields-tool url_host name fs found h = elim (Bool-cases (name === "web.fetch")) [
  | inl e ↦ ingestible name "web.fetch" e refl
  | inr e ↦ elim (Bool-cases (name === "fs.read")) [
    | inl k ↦ ingestible name "fs.read" k refl
    | inr k ↦ ground (arith, e, k, h)
  ]
]

extract-tool :
    (url_host : String → Option String) (name : String) (o : Option Members) (found : Extracted)
    → (elim o as (λ _. Extraction) [
      | none ↦ passed_over "output is not an object"
      | some fs ↦ extract_fields url_host name fs
    ])
      ≡ extracted found
    → includes ingestible_tools name ≡ true
extract-tool url_host name none found h = cc
extract-tool url_host name (some fs) found h = extract_fields-tool url_host name fs found h

module _ {X : Type 0} (host : Host X) (url_host : String → Option String)
    (options : IngestorOptions) (input : IngestionInput) where
  skip-Ingests : (reason : String) → Ingests options input (skip reason)
  skip-Ingests reason = record { skipped = refl; bounded = tt; from_tool = tt; traced = tt }

  keep_text-Ingests :
      (e : Extraction)
      → ((found : Extracted)
          → e ≡ extracted found
          → includes ingestible_tools input.observation.tool_result.tool_name ≡ true)
      → Always (Ingests options input) (keep_text host url_host options input e)
  unfolding keep_text
  keep_text-Ingests (passed_over reason) tool = Always-pure _ _ (skip-Ingests reason)
  keep_text-Ingests (extracted found) tool =
      elim (Bool-cases
        (ltb (text_length (trim found.text)) (or_else options.min_content_chars 40))) [
          | inl e ↦ rw (keep_text, e) (Always-pure _ _ (skip-Ingests _))
          | inr e ↦
              rw (keep_text, e)
                (Always-bind (λ _. Unit) _ _ _ (next_id-Always host "mem")
                  λ record_id _.
                    Always-bind (λ _. Unit) _ _ _ (clock_now-Always host)
                      λ now _. Always-pure _ _ (record {
                        skipped = refl;
                        bounded = (
                          text_length-capped_le (or_else options.max_content_chars 2000)
                              (trim found.text),
                          tt,
                        );
                        from_tool = (tool found refl, tt);
                        traced = (refl, tt);
                      }))
        ]

  ingest_result-Ingests :
      (status : ToolStatus)
      → Always (Ingests options input) (ingest_result host url_host options input status)
  unfolding ingest_result extract
  ingest_result-Ingests (error e) = Always-pure _ _ (skip-Ingests _)
  ingest_result-Ingests (ok output artifacts) = keep_text-Ingests _ (λ found e.
      extract-tool url_host input.observation.tool_result.tool_name (as_record output) found e)

  -- Ingestion never throws. It gives one record or the reason why there is none, and a record only of
  -- what web.fetch or fs.read brought back; its content is at most one character longer than the limit,
  -- whatever the length of the text, and it is traced to the action.
  pub ingest-Ingests : Always (Ingests options input) (ingest host url_host options input)
  unfolding ingest
  ingest-Ingests = ingest_result-Ingests input.observation.tool_result.status

  keep_text-Quiet : (e : Extraction) → Moves Quiet (keep_text host url_host options input e)
  unfolding keep_text
  keep_text-Quiet (passed_over reason) = Moves-pure Quiet-order _
  keep_text-Quiet (extracted found) =
      search (moves_rules, Quiet-order, next_id-Quiet, clock_now-Quiet) depth 12

  ingest_result-Quiet :
      (status : ToolStatus) → Moves Quiet (ingest_result host url_host options input status)
  unfolding ingest_result
  ingest_result-Quiet (error e) = Moves-pure Quiet-order _
  ingest_result-Quiet (ok output artifacts) = keep_text-Quiet _

  pub ingest-Quiet : Moves Quiet (ingest host url_host options input)
  unfolding ingest
  ingest-Quiet = ingest_result-Quiet input.observation.tool_result.status
