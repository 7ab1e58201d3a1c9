-- ===== src/Policy/Types.antt =====
-- The vocabulary of the policy (model/measurement.rs, policy/condition.rs, policy/evaluate/types.rs),
-- and what the policy takes from other crates.
use ffhn.Base.{
  ℕ, ◌^◌, ◌<◌, ◌≤◌, Bool, false, ◌&&◌, Option, none, Ordering, Eq, List, same, discrete_eq, nat_eq,
  list_eq, option_eq,
}
use ffhn.Base.Int.{ℤ, abs_ℕ}
use ffhn.Base.Errors.{Text, Result, CoreResult}
use native.Mathlib.Decide.{ℕ_discrete}
use Prim.Native.String.{String}

pub data DeclaredType : Type 0 where
  text integer decimal money semver datetime : DeclaredType

unfoldable pub DeclaredType-discrete : Discrete DeclaredType
DeclaredType-discrete = hlevel

instance abbrev pub declared_type_eq : Eq DeclaredType
declared_type_eq = discrete_eq DeclaredType-discrete

pub data NumericLocale : Type 0 where
  invariant en_us de_de : NumericLocale

pub NumericLocale-discrete : Discrete NumericLocale
NumericLocale-discrete = hlevel

instance abbrev pub numeric_locale_eq : Eq NumericLocale
numeric_locale_eq = discrete_eq NumericLocale-discrete

pub record TypeParams : Type 0 where
  pub currency : Option Text
  pub locale : Option NumericLocale
  pub format : Option Text
  pub assumed_offset : Option Text

unfoldable pub TypeParams-discrete : Discrete TypeParams
TypeParams-discrete = hlevel (ℕ_discrete)

-- The derived `PartialEq` of the parameters.
abbrev pub same_params : TypeParams → TypeParams → Bool
same_params a b =
    same a.currency b.currency
    && same a.locale b.locale
    && same a.format b.format
    && same a.assumed_offset b.assumed_offset

pub data AcquisitionKind : Type 0 where
  json_pointer html_plain_text html_rendered_text html_attribute : AcquisitionKind

unfoldable pub AcquisitionKind-discrete : Discrete AcquisitionKind
AcquisitionKind-discrete = hlevel

-- The diagnostics of the crate HTMLCut are kept as their texts.
pub record Observation : Type 0 where
  pub raw_selected : Text
  pub comparison_projection : Text
  pub acquisition_kind : AcquisitionKind
  pub parser_id : Text
  pub parser_grammar_version : ℕ
  pub declared_type : DeclaredType
  pub type_params : TypeParams
  pub canonical_value : Text
  pub parse_diagnostics : List Text
  pub htmlcut_semantics_version : Option ℕ
  pub plan_digest_sha256 : Option Text
  pub htmlcut_candidate_count : Option ℕ
  pub htmlcut_diagnostics : List Text

unfoldable pub Observation-discrete : Discrete Observation
unfolding DeclaredType-discrete AcquisitionKind-discrete TypeParams-discrete
Observation-discrete =
    hlevel (ℕ_discrete, DeclaredType-discrete, AcquisitionKind-discrete, TypeParams-discrete)

-- The derived `PartialEq` of observations.
instance abbrev pub observation_eq : Eq Observation
observation_eq = discrete_eq Observation-discrete

pub data ConditionReference : Type 0 where
  last_accepted_observation fixed_initial_baseline last_condition_transition : ConditionReference

pub data ThresholdDirection : Type 0 where
  rising falling : ThresholdDirection

pub data ConditionPredicate : Type 0 where
  changed : ConditionReference → ConditionPredicate
  delta_abs : ConditionReference → Text → ConditionPredicate
  delta_pct : ConditionReference → Text → ConditionPredicate
  crosses : Text → ThresholdDirection → ConditionPredicate
  lt : Text → ConditionPredicate
  gt : Text → ConditionPredicate
  band : Text → Text → ThresholdDirection → ConditionPredicate

pub record Condition : Type 0 where
  pub condition_id : Text
  pub predicate : ConditionPredicate

pub data ConditionOutcome : Type 0 where
  satisfied not_satisfied unavailable arithmetic_overflow zero_reference : ConditionOutcome

unfoldable pub ConditionOutcome-discrete : Discrete ConditionOutcome
ConditionOutcome-discrete = hlevel

instance abbrev pub condition_outcome_eq : Eq ConditionOutcome
condition_outcome_eq = discrete_eq ConditionOutcome-discrete

pub record ConditionContext : Type 0 where
  pub last_accepted_observation : Option Observation
  pub fixed_initial_baseline : Option Observation
  pub last_condition_transition : Option Observation
  pub active : Bool

-- `ConditionContext::empty`.
abbrev pub empty_context : ConditionContext
empty_context = record {
  last_accepted_observation = none;
  fixed_initial_baseline = none;
  last_condition_transition = none;
  active = false;
}

pub data ConditionReferenceEvidence : Type 0 where
  resolved : ConditionReference → Text → ConditionReferenceEvidence
  unavailable : ConditionReference → ConditionReferenceEvidence

pub record ConditionEvaluation : Type 0 where
  pub condition_id : Text
  pub outcome : ConditionOutcome
  pub trigger : Bool
  pub active_before : Bool
  pub active_after : Bool
  pub reference_evidence : Option ConditionReferenceEvidence

-- What the policy calls outside this component: `rust_decimal`, `semver`, `time`, the integer parser
-- of the standard library, and the typed parser of the observations (`parse_canonical_value` and
-- `Observation::validate` of model/observation).
pub record ValueLib : Type 1 where
  pub Decimal : Type 0
  pub mantissa : Decimal → ℤ
  pub scale : Decimal → ℕ
  pub decimal_cmp : Decimal → Decimal → Ordering
  pub decimal_zero : Decimal
  pub Version : Type 0
  pub version_cmp : Version → Version → Ordering
  pub version_text : Version → Text
  pub Instant : Type 0
  pub instant_cmp : Instant → Instant → Ordering
  pub parse_integer : Text → Option ℤ
  pub parse_decimal : Text → Option Decimal
  pub parse_version : Text → Option Version
  pub parse_instant : Text → Option Instant
  pub trim : Text → Text
  pub parse_canonical_value : DeclaredType → TypeParams → Text → Result String Text
  pub validate_observation : Observation → CoreResult (Unit {0})

-- The documented range of `Decimal`: a mantissa of 96 bits and at most 28 decimals.
pub record DecimalRange (lib : ValueLib) : Type 0 where
  pub mantissa_range : (d : lib.Decimal) → abs_ℕ (lib.mantissa d) < 2 ^ 96
  pub scale_range : (d : lib.Decimal) → lib.scale d ≤ 28
