-- ===== src/Storage/OutcomeMapping/Labels.antt =====
-- How the label of a probe that ran stands to its verdict.
use probeboard_api.Common.{
  ◌≡◌, refl, sym, ◌∙◌, ◌⊎◌, inl, inr, true, false, some, arith, Bool-cases, Option-cases,
}
use probeboard_api.Web.{Url}
use probeboard_api.Probing.FailureClasses.{FailureClass, blocked_by_policy, unknown_error}
use probeboard_api.Probing.Probe.{EndpointProbeConfig, ProbeDeps, Verdict, Platform, Probed, ran}
use probeboard_api.Probing.Probe.Loop.{probe}
use probeboard_api.Probing.Probe.Outcome.{probe-IsJudged}
use probeboard_api.Storage.OutcomeMapping.{up, down, unknown, class_label, outcome_label}

-- The classes that are no evidence against the endpoint.
abbrev pub IsUnproven : FailureClass → Type 0
IsUnproven c = (c ≡ blocked_by_policy) ⊎ (c ≡ unknown_error)

class_label-cases :
    (c : FailureClass)
    → ((class_label (some c) ≡ unknown) × IsUnproven c)
      ⊎ ((class_label (some c) ≡ down) × ¬ IsUnproven c)
class_label-cases c = ground arith

abbrev pub Labelled : Verdict → Type 0
Labelled v =
    ((outcome_label v ≡ up) × (v.success ≡ true))
    ⊎ ((c : FailureClass) × (v.failure_class ≡ some c)
        × (((outcome_label v ≡ unknown) × IsUnproven c)
            ⊎ ((outcome_label v ≡ down) × ¬ IsUnproven c)))

-- A probe that ran is stored as up where it succeeded, and otherwise under the class it names: as
-- unknown where the policy refused it or the error is not classified, as down for any other class.
pub probe-outcome_label :
    (env : Platform) (config : EndpointProbeConfig) (deps : ProbeDeps) (origin : Url) (p : Probed)
    → env.urls.parse config.url ≡ some origin
    → probe env config deps ≡ ran p
    → Labelled p.outcome.verdict
unfolding outcome_label
probe-outcome_label env config deps origin p e h =
    let judged = probe-IsJudged env config deps origin p e h in
    elim (Bool-cases p.outcome.verdict.success) [
      | inl good ↦ inl (rw good refl, good)
      | inr bad ↦ elim (Option-cases p.outcome.verdict.failure_class) [
        | inl bare ↦ let good : false ≡ true = sym bad ∙ judged.failed.1 bare in cc
        | inr (c, named) ↦ inr (c, named, rw (bad, named) (class_label-cases c))
      ]
    ]
