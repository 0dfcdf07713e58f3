-- ===== src/Agent/Learner/Laws.antt =====
-- What is learned from an attempt, and what a lesson can be traced to.
use autonomous_agent.Common.{
  ◌≡◌, refl, sym, ◌∙◌, ap, String, Bool, true, false, ◌&&◌, List, [], ◌∷◌, ◌++◌, map, keep, any,
  includes, or_else, last?, length, All, arith, eq_iff, subst, if◌then◌else◌,
}
use autonomous_agent.Async.Always.{Always, Always-pure, Always-settle, Always-bind, Sure}
use autonomous_agent.Async.Moves.{Moves, Moves-pure, moves_rules}
use autonomous_agent.Domain.Provenance.{Provenance, merge_provenance}
use autonomous_agent.Domain.Provenance.Merge.{includes-merge_key}
use autonomous_agent.Domain.Outcome.{
  OutcomeVerdict, is_success, verdict_as_outcome, success, partial, failure, inconclusive,
}
use autonomous_agent.Session.Core.{Host}
use autonomous_agent.Session.Answers.{next_id-Always, clock_now-Always}
use autonomous_agent.Agent.Contracts.{
  LearningInput, LearningOutput, TaskAttempt, ExperienceRecord, LessonRecord,
}
use autonomous_agent.Agent.Learner.{
  attempt_parts, attempt_provenance, approach_differs, has_failed, lesson_parts, experience_part,
  experience_of, lesson_of, contrast_lesson, lessons_from, learn,
}
use autonomous_agent.Runtime.Frame.Quiet.{Quiet, Quiet-order}
use autonomous_agent.Runtime.Frame.Methods.{next_id-Quiet, clock_now-Quiet}

module _ {A B : Type 0} where
  All-any :
      (P : A → B → Bool) (bs : List B) (b : B) (xs : List A)
      → All (λ a. any (P a) bs ≡ true) xs
      → All (λ a. any (P a) (b ∷ bs) ≡ true) xs
  All-any P bs b [] h = tt
  All-any P bs b (x ∷ xs) (e, h) = (ground (arith, e), All-any P bs b xs h)

  -- each element finds its own image
  any-own_image :
      (P : A → B → Bool) (f : A → B) (xs : List A) (rest : List B)
      → ((a : A) → P a (f a) ≡ true)
      → All (λ a. any (P a) (map f xs ++ rest) ≡ true) xs
  any-own_image P f [] rest own = tt
  any-own_image P f (x ∷ xs) rest own =
      (ground (arith, own x), All-any P (map f xs ++ rest) (f x) xs (any-own_image P f xs rest own))

module _ {A : Type 0} where
  All-rewrite :
      (p q : A → Bool) (xs : List A)
      → ((a : A) → p a ≡ q a)
      → All (λ a. q a ≡ true) xs
      → All (λ a. p a ≡ true) xs
  All-rewrite p q [] same h = tt
  All-rewrite p q (x ∷ xs) same (e, h) = (same x ∙ e, All-rewrite p q xs same h)

-- a provenance names an action
abbrev pub names_action : String → Provenance → Bool
names_action id p = includes (or_else p.action_ids []) id

abbrev pub names_memory : String → Provenance → Bool
names_memory id p = includes (or_else p.memory_record_ids []) id

names_own_action : (a : TaskAttempt) → names_action a.action.action_id (attempt_provenance a) ≡ true
unfolding attempt_provenance merge_provenance
names_own_action a =
    includes-merge_key (λ p. p.action_ids) (attempt_parts a) a.action.action_id
    ∙ ground (arith, (eq_iff a.action.action_id a.action.action_id).1 refl)

-- what a lesson is traced to
pub record IsTraced (input : LearningInput) (experience : ExperienceRecord) (l : LessonRecord)
    : Type 0 where
  pub to_experience : names_memory experience.base.record_id l.base.provenance ≡ true
  pub to_failures :
      All
        (λ a. names_action a.action.action_id l.base.provenance ≡ true)
        (keep has_failed input.previous_attempts)

lesson_of-IsTraced :
    (input : LearningInput) (experience : ExperienceRecord) (record_id lesson_id now : String)
    → IsTraced input experience (
        lesson_of input
          (keep has_failed input.previous_attempts)
          experience
          record_id
          lesson_id
          now)
unfolding merge_provenance
lesson_of-IsTraced input experience record_id lesson_id now = record {
  to_experience =
      includes-merge_key (λ p. p.memory_record_ids) parts experience.base.record_id
      ∙ ground (arith, (eq_iff experience.base.record_id experience.base.record_id).1 refl);
  to_failures =
      All-rewrite (λ a. names_action a.action.action_id (merge_provenance parts))
        (λ a. any (names_action a.action.action_id) parts) failed
        (λ a. includes-merge_key (λ p. p.action_ids) parts a.action.action_id)
        (All-any (λ (a : TaskAttempt). names_action a.action.action_id)
          (map attempt_provenance failed ++ attempt_provenance input.attempt ∷ [])
          (experience_part experience) failed
          (any-own_image (λ (a : TaskAttempt). names_action a.action.action_id) attempt_provenance
            failed (attempt_provenance input.attempt ∷ []) names_own_action));
}
  where
    failed : List TaskAttempt
    failed = keep has_failed input.previous_attempts

    parts : List Provenance
    parts = lesson_parts input (keep has_failed input.previous_attempts) experience

abbrev is_nonempty : {A : Type 0} → List A → Bool
is_nonempty [] = false
is_nonempty (x ∷ xs) = true

any-keep : {A : Type 0} (p : A → Bool) (xs : List A) → is_nonempty (keep p xs) ≡ any p xs
any-keep p [] = refl
any-keep p (x ∷ xs) = ground (arith, any-keep p xs)

-- what is learned from an attempt
pub record Learns (input : LearningInput) (o : LearningOutput) : Type 0 where
  pub outcome : o.experience.body.outcome ≡ input.attempt.evaluation.verdict
  pub traced : names_action input.attempt.action.action_id o.experience.base.provenance ≡ true
  pub counted : length o.lessons ≡ (
      if is_success input.attempt.evaluation.verdict && any has_failed input.previous_attempts
      then 1
      else 0)
  pub lessons_traced : All (IsTraced input o.experience) o.lessons

-- the lessons, by whether the attempt succeeded
record Lessons (input : LearningInput) (experience : ExperienceRecord) (won : Bool)
    (ls : List LessonRecord) : Type 0 where
  pub counted :
      length ls ≡ (if won && is_nonempty (keep has_failed input.previous_attempts) then 1 else 0)
  pub traced : All (IsTraced input experience) ls

module _ {X : Type 0} (host : Host X) (input : LearningInput) (experience : ExperienceRecord) where
  lessons_from-Lessons :
      (won : Bool) (failed : List TaskAttempt)
      → failed ≡ keep has_failed input.previous_attempts
      → Always (Lessons input experience won) (lessons_from host input won failed experience)
  unfolding lessons_from contrast_lesson
  lessons_from-Lessons true [] e = Always-pure _ _ (record { counted = rw (← e) refl; traced = tt })
  lessons_from-Lessons true (f ∷ failed) e =
      Always-bind (IsTraced input experience) _ _ _
        (Always-bind (λ _. Unit) _ _ _ (next_id-Always host "mem")
          λ record_id _.
            Always-bind (λ _. Unit) _ _ _ (next_id-Always host "lesson")
              λ lesson_id _.
                Always-bind (λ _. Unit) _ _ _ (clock_now-Always host)
                  λ now _. Always-pure _ _ (
                    subst
                      (λ fs.
                        IsTraced input experience
                          (lesson_of input fs experience record_id lesson_id now))
                      (sym e) (lesson_of-IsTraced input experience record_id lesson_id now)))
        (λ lesson traced.
          Always-pure _ _ (record { counted = rw (← e) refl; traced = (traced, tt) }))
  lessons_from-Lessons false failed e = Always-pure _ _ (record { counted = refl; traced = tt })

same_outcome : (v : OutcomeVerdict) → verdict_as_outcome v ≡ v
unfolding verdict_as_outcome
same_outcome success = refl
same_outcome partial = refl
same_outcome failure = refl
same_outcome inconclusive = refl

module _ {X : Type 0} (host : Host X) where
  -- If the inputs of the last two attempts can be written as JSON, learning never throws. The
  -- experience has the verdict of the attempt and is traced to its action; there is a lesson exactly
  -- when the attempt succeeded after a failed one, and only one; and it is traced to the experience and
  -- to the action of each failed attempt.
  pub learn-Learns :
      (input : LearningInput)
      → Sure (λ _. Unit) (approach_differs (last? input.previous_attempts) input.attempt)
      → Always (Learns input) (learn host input)
  unfolding learn
  learn-Learns input written =
      Always-bind (λ _. Unit) _ _ _ (clock_now-Always host)
        λ now _.
          Always-bind (λ _. Unit) _ _ _ (next_id-Always host "mem")
            λ record_id _.
              Always-bind (λ _. Unit) _ _ _ (Always-settle _ _ written)
                λ changed _.
                  Always-bind
                    (Lessons input (experience_of input record_id now changed)
                      (is_success input.attempt.evaluation.verdict))
                    _ _ _
                    (lessons_from-Lessons host input (experience_of input record_id now changed)
                      (is_success input.attempt.evaluation.verdict) _ refl)
                    λ lessons h. Always-pure _ _ (record {
                      outcome = same_outcome input.attempt.evaluation.verdict;
                      traced = names_own_action input.attempt;
                      counted =
                          h.counted
                          ∙ ap
                              (λ (b : Bool).
                                if is_success input.attempt.evaluation.verdict && b then 1 else 0)
                              (any-keep has_failed input.previous_attempts);
                      lessons_traced = h.traced;
                    })

  lessons_from-Quiet :
      (input : LearningInput) (won : Bool) (failed : List TaskAttempt) (e : ExperienceRecord)
      → Moves Quiet (lessons_from host input won failed e)
  unfolding lessons_from contrast_lesson
  lessons_from-Quiet input true [] e = Moves-pure Quiet-order _
  lessons_from-Quiet input true (f ∷ failed) e =
      search (moves_rules, Quiet-order, next_id-Quiet, clock_now-Quiet) depth 12
  lessons_from-Quiet input false failed e = Moves-pure Quiet-order _

  -- Learning neither ends the run nor touches its limits, its iterations and its counters of memory.
  pub learn-Quiet : (input : LearningInput) → Moves Quiet (learn host input)
  unfolding learn
  learn-Quiet input =
      search (moves_rules, Quiet-order, next_id-Quiet, clock_now-Quiet, lessons_from-Quiet) depth 12
