-- ===== src/Agent/Planner/Cited.antt =====
-- Which memory a plan says that it was informed by.
use autonomous_agent.Common.{
  ◌≡◌, refl, sym, subst, ◌∙◌, String, Bool, true, false, ◌&&◌, ◌||◌, none, List, [], ◌∷◌, keep,
  includes, or_else, arith, Bool-cases, inl, inr, ◌===◌, eq_iff,
}
use autonomous_agent.Domain.Provenance.{Provenance, merge_provenance}
use autonomous_agent.Domain.Provenance.Merge.{includes-merge_key}
use autonomous_agent.Agent.Prompting.{PresentedMemory}
use autonomous_agent.Agent.Prompting.Laws.{shown_ids}
use autonomous_agent.Agent.Planner.{when_listed, provenance_parts, provenance_for}

includes-keep_self :
    (s cs : List String) (v : String)
    → includes (keep (includes s) cs) v ≡ includes cs v && includes s v
    → includes (keep (includes s) (v ∷ cs)) v ≡ includes (v ∷ cs) v && includes s v
includes-keep_self s cs v ih = elim (Bool-cases (includes s v)) [
  | inl h ↦ ground (arith, h, (eq_iff v v).1 refl)
  | inr h ↦ ground (arith, h, ih)
]

includes-keep :
    (s cited : List String) (v : String)
    → includes (keep (includes s) cited) v ≡ includes cited v && includes s v
includes-keep s [] v = refl
includes-keep s (c ∷ cs) v = elim (Bool-cases (c === v)) [
  | inl same ↦
      subst (λ w. includes (keep (includes s) (w ∷ cs)) v ≡ includes (w ∷ cs) v && includes s v)
        (sym ((eq_iff c v).0 same)) (includes-keep_self s cs v (includes-keep s cs v))
  | inr other ↦ ground (arith, other, includes-keep s cs v)
]

pub or-false : (b : Bool) → b || false ≡ b
or-false true = refl
or-false false = refl

pub or_else-when_listed : (l : List String) → or_else (when_listed l) [] ≡ l
or_else-when_listed [] = refl
or_else-when_listed (x ∷ l) = refl

-- A plan says that a memory record informed it exactly when the model cited the record and had been
-- shown it: a model cannot make up what it relied on.
pub provenance_for-memory :
    (memory : PresentedMemory) (cited : List String) (extra : Provenance) (v : String)
    → extra.memory_record_ids ≡ none
    → includes (or_else (provenance_for memory cited extra).memory_record_ids []) v
      ≡ includes cited v && includes (shown_ids memory) v
unfolding provenance_for merge_provenance
provenance_for-memory memory cited extra v h =
    includes-merge_key (λ p. p.memory_record_ids) (provenance_parts memory cited extra) v
    ∙ rw (h, or_else-when_listed (keep (includes (shown_ids memory)) cited))
        (or-false _ ∙ includes-keep (shown_ids memory) cited v)
