-- ===== src/Ir/Validate/Scenario.antt =====
-- internal/ir/validate.go: Scenario.Validate, the data pools, the profile and the target config.
use flowbench.Base.{
  pos, String, List, [], ◌∷◌, ◌++◌, Option, none, some, Bool, true, false, ◌||◌, not, ltb_ℤ,
  is_empty,
}
use flowbench.DataPool.{PoolDistribution, PoolExhaustion}
use flowbench.Ir.{Mode, Flow, flow_of, Profile, TargetConfig}
use flowbench.Ir.Problem.{
  Problem, problem_if, for_each, all_of, bad_name, bad_target_name, duplicate_pool, duplicate_flow,
  no_flows, no_base_url, negative_ceiling, negative_profile, empty_threshold, no_source,
  relative_base_url, unknown_mode, unknown_disallowed_mode, unknown_format, unknown_distribution,
  unknown_exhaustion,
}
use flowbench.Ir.Specs.{Formats, Url, named, misnamed, unnamed_or_bad, is_given}
use flowbench.Ir.Seen.{has_name}
use flowbench.Ir.Validate.Flows.{flow_problems}

pub data PoolFormat : Type 0 where
  unset csv json : PoolFormat
  other : String → PoolFormat

pub record PoolConfig : Type 0 where
  pub name : String
  pub source : String
  pub format : PoolFormat
  pub distribution : PoolDistribution
  pub on_exhausted : PoolExhaustion

pub record Scenario : Type 0 where
  pub name : String
  pub flows : List Flow
  pub profile : Profile
  pub target : String
  pub data_pools : List PoolConfig

-- validMode
abbrev pub valid_mode : Mode → Bool
valid_mode (Mode.other s) = false
valid_mode _ = true

abbrev format_problems : PoolFormat → List Problem
format_problems (other s) = unknown_format s ∷ []
format_problems _ = []

abbrev distribution_problems : PoolDistribution → List Problem
distribution_problems (PoolDistribution.other s) = unknown_distribution s ∷ []
distribution_problems _ = []

abbrev exhaustion_problems : PoolExhaustion → List Problem
exhaustion_problems (PoolExhaustion.other s) = unknown_exhaustion s ∷ []
exhaustion_problems _ = []

unfoldable pub pool_problems : PoolConfig → List Problem
pool_problems p = all_of (
    problem_if (unnamed_or_bad p.name) (bad_name p.name)
    ∷ problem_if (not (named p.source)) no_source
    ∷ format_problems p.format
    ∷ distribution_problems p.distribution
    ∷ exhaustion_problems p.on_exhausted
    ∷ [])

abbrev pub pool_names : List PoolConfig → List String
pool_names [] = []
pool_names (p ∷ ps) = p.name ∷ pool_names ps

-- The loop over the pools, with the names it has seen.
unfoldable pub pools_problems : List PoolConfig → List String → List Problem
unfolding pool_problems
pools_problems [] before = []
pools_problems (p ∷ ps) before =
    problem_if (has_name p.name before) (duplicate_pool p.name)
    ++ pool_problems p
    ++ pools_problems ps (p.name ∷ before)

module _ (env : Formats) where
  unfoldable pub profile_problems : Profile → List Problem
  profile_problems p = all_of (
      problem_if (not (valid_mode p.mode)) (unknown_mode p.mode)
      ∷ problem_if (ltb_ℤ p.vus (pos 0) || ltb_ℤ p.iterations (pos 0) || ltb_ℤ p.hold (pos 0))
          negative_profile
      ∷ for_each (λ t. problem_if (is_empty (env.trim_space t)) empty_threshold) p.thresholds
      ∷ [])

  -- The loop over the flows, with the names it has seen.
  unfoldable pub flows_problems : List Flow → List String → List String → List Problem
  flows_problems [] pools before = []
  flows_problems (flow_of f ss ∷ fs) pools before =
      problem_if (has_name f.name before) (duplicate_flow f.name)
      ++ flow_problems env (flow_of f ss) pools false
      ++ flows_problems fs pools (f.name ∷ before)

  -- Scenario.Validate
  unfoldable pub scenario_problems : Scenario → List Problem
  unfolding pools_problems flows_problems profile_problems
  scenario_problems s = all_of (
      problem_if (unnamed_or_bad s.name) (bad_name s.name)
      ∷ problem_if (misnamed s.target) (bad_target_name s.target)
      ∷ pools_problems s.data_pools []
      ∷ problem_if (not (is_given s.flows)) no_flows
      ∷ flows_problems s.flows (pool_names s.data_pools) []
      ∷ profile_problems s.profile
      ∷ [])

  abbrev pub is_absolute : Option Url → Bool
  is_absolute none = false
  is_absolute (some u) = not (is_empty u.scheme || is_empty u.host)

  -- TargetConfig.Validate
  unfoldable pub target_problems : TargetConfig → List Problem
  target_problems t = all_of (
      problem_if (unnamed_or_bad t.name) (bad_name t.name)
      ∷ problem_if (not (is_given t.base_urls)) no_base_url
      ∷ for_each (λ raw. problem_if (not (is_absolute (env.parse_url raw))) (relative_base_url raw))
          t.base_urls
      ∷ problem_if (ltb_ℤ t.max_vus (pos 0) || ltb_ℤ t.max_rps (pos 0)) negative_ceiling
      ∷ for_each (λ m. problem_if (not (valid_mode m)) (unknown_disallowed_mode m))
          t.disallowed_modes
      ∷ [])
