-- ===== src/Memory/Applicability/Laws.antt =====
-- What `assessPreconditions` reports.
use autonomous_agent.Common.{
  ◌≡◌, ◌<◌, length, or_else, ◌↔◌, refl, ap, String, true, Option, none, some, List, [], ◌∷◌, map,
  any, All, arith, truthy,
}
use autonomous_agent.Async.Returns.{Returns, Returns-pure, Returns-any, Returns-bind}
use autonomous_agent.Memory.Records.{
  Precondition, file_exists, tool_available, environment_provider,
}
use autonomous_agent.Memory.Retrieval.{
  holds, violated, unknown, PreconditionCheck, ApplicabilityReport,
}
use autonomous_agent.Memory.Applicability.{
  ApplicabilityProbe, is_violated, check_one, check_each, report_status, assess_preconditions,
  tool_check, provider_check,
}

abbrev IsAbout : Precondition → PreconditionCheck → Type 0
IsAbout p c = c.precondition ≡ p

tool_check-IsAbout :
    (p : Precondition) (n : String) (o : Option (List String)) → IsAbout p (tool_check p n o)
tool_check-IsAbout p n none = refl
tool_check-IsAbout p n (some names) = refl

provider_check-IsAbout :
    (p : Precondition) (n : String) (o : Option String) → IsAbout p (provider_check p n o)
provider_check-IsAbout p n none = refl
provider_check-IsAbout p n (some actual) = refl

module _ {S : Type 0} (probe : ApplicabilityProbe S) where
  check_one-IsAbout : (p : Precondition) → Returns (IsAbout p) (check_one probe p)
  unfolding check_one
  check_one-IsAbout (file_exists path) =
      Returns-bind _ _ _ _ (Returns-any _) (λ exists _. Returns-pure _ _ refl)
  check_one-IsAbout (tool_available name) =
      Returns-pure _ _ (tool_check-IsAbout _ name probe.tool_names)
  check_one-IsAbout (environment_provider wanted) =
      Returns-pure _ _ (provider_check-IsAbout _ wanted (truthy probe.environment_provider))

  abbrev AreAbout : List Precondition → List PreconditionCheck → Type 0
  AreAbout ps checks = map (λ c. c.precondition) checks ≡ ps

  check_each-AreAbout : (ps : List Precondition) → Returns (AreAbout ps) (check_each probe ps)
  unfolding check_each
  check_each-AreAbout [] = Returns-pure _ _ refl
  check_each-AreAbout (p ∷ ps) = Returns-bind (IsAbout p) _ _ _ (check_one-IsAbout p) λ check h.
      Returns-bind (AreAbout ps) _ _ _ (check_each-AreAbout ps)
        λ checks hs. Returns-pure _ _ (rw h (ap (λ l. p ∷ l) hs))

-- a report on the preconditions `ps`
pub record Assessed (ps : List Precondition) (r : ApplicabilityReport) : Type 0 where
  pub covers : map (λ c. c.precondition) r.checks ≡ ps
  pub violated_iff : (r.status ≡ violated) ↔ (any (λ c. is_violated c.status) r.checks ≡ true)
  pub holds_iff : (r.status ≡ holds) ↔ ((0 < length ps) × All (λ c. c.status ≡ holds) r.checks)

holds-All_iff :
    (checks : List PreconditionCheck)
    → (report_status checks ≡ holds) ↔ All (λ c. c.status ≡ holds) checks
holds-All_iff [] = (λ _. tt, λ _. refl)
holds-All_iff (c ∷ cs) = ground (arith, holds-All_iff cs)

violated_any_iff :
    (checks : List PreconditionCheck)
    → (report_status checks ≡ violated) ↔ (any (λ c. is_violated c.status) checks ≡ true)
violated_any_iff checks = ground arith

nothing_to_check : Assessed [] (record { status = unknown; checks = [] })
nothing_to_check = record {
  covers = refl;
  violated_iff = (λ h. cc, λ h. cc);
  holds_iff = (λ h. cc, λ h. absurd (nothing_below_zero h.0));
}
  where
    nothing_below_zero : 0 < 0 → ⊥
    nothing_below_zero h = omega (arith, h)

module _ {S : Type 0} (probe : ApplicabilityProbe S) where
  -- A report has one check for each precondition, in their order. It says violated exactly when a check
  -- does, and holds exactly when there is a precondition and every check holds; otherwise, and if there
  -- is no precondition, it is unknown.
  pub assess_preconditions-Assessed :
      (o : Option (List Precondition))
      → Returns (Assessed (or_else o [])) (assess_preconditions probe o)
  unfolding assess_preconditions
  assess_preconditions-Assessed none = Returns-pure _ _ nothing_to_check
  assess_preconditions-Assessed (some []) = Returns-pure _ _ nothing_to_check
  assess_preconditions-Assessed (some (p ∷ ps)) =
      Returns-bind (AreAbout probe (p ∷ ps)) _ _ _ (check_each-AreAbout probe (p ∷ ps)) λ checks h.
        Returns-pure _ _ (record {
          covers = h;
          violated_iff = violated_any_iff checks;
          holds_iff =
              (λ e. (omega arith, (holds-All_iff checks).0 e), λ e. (holds-All_iff checks).1 e.1);
        })
