-- ===== src/Domain/Outcome.antt =====
-- src/domain/outcome.ts and src/evaluation/verdict.ts
use autonomous_agent.Common.{
  ℕ, Bool, true, false, ◌≡◌, ◌↔◌, ◌≤◌, ◌<◌, leb, ◌==◌, if◌then◌else◌, arith,
}

pub data OutcomeVerdict : Type 0 where
  success partial failure inconclusive : OutcomeVerdict

pub data DecisionOutcome : Type 0 where
  pending : DecisionOutcome
  evaluated : OutcomeVerdict → DecisionOutcome

abbrev pub is_success : OutcomeVerdict → Bool
is_success success = true
is_success _ = false

-- the source's switch returns each verdict unchanged
unfoldable pub verdict_as_outcome : OutcomeVerdict → OutcomeVerdict
verdict_as_outcome success = success
verdict_as_outcome partial = partial
verdict_as_outcome failure = failure
verdict_as_outcome inconclusive = inconclusive

unfoldable pub verdict_from_decisive : ℕ → ℕ → OutcomeVerdict
verdict_from_decisive passed total =
    if leb total 0
    then inconclusive
    else if passed == total
    then success
    else if passed == 0
    then failure
    else partial

-- the four answers, each exactly when: nothing to check, everything passed, nothing passed, or a mix
pub verdict_from_decisive_iff :
    (passed total : ℕ)
    → passed ≤ total
    → ((verdict_from_decisive passed total ≡ success) ↔ ((0 < total) × (passed ≡ total)))
      × ((verdict_from_decisive passed total ≡ inconclusive) ↔ (total ≡ 0))
      × ((verdict_from_decisive passed total ≡ failure) ↔ ((0 < total) × (passed ≡ 0)))
      × ((verdict_from_decisive passed total ≡ partial) ↔ ((0 < passed) × (passed < total)))
unfolding verdict_from_decisive
verdict_from_decisive_iff passed total h = (ground arith, ground arith, ground arith, ground arith)
