-- ===== src/Composite/Selections.antt =====
-- What a composite report selects: one record for each selection model of `archive/composite_*.py`.
use lotus_archive.Prelude.{ℕ, String, Bool, Option, List}
use lotus_archive.Calendar.{Date}
use lotus_archive.Composite.Pins.{
  ReturnView, CompositeWindowPin, EligibilityMonthPin, AmendmentMonthPin, HistoricalMonthlyPin,
  PooledSourcePin, CompositeDefinitionPin, CompositeMembershipPin,
}

-- composite_identity.py
pub record CompositeSelection : Type 0 where
  pub tenant_id : String
  pub composite_id : String
  pub calculation_id : String
  pub period_start : Date
  pub period_end : Date
  pub reporting_currency : String
  pub return_view : ReturnView
  pub methodology : String
  pub engine_version : String
  pub calculation_fingerprint : String
  pub response_digest : String
  pub windows : List CompositeWindowPin

-- composite_linked.py. `null_sequence` tells the request that has an explicit null
-- `restatement_sequence` from the one that has no such field.
pub record CompositeLinkedRequest : Type 0 where
  pub composite_id : String
  pub calculation_id : String
  pub period_start : Date
  pub period_end : Date
  pub return_view : ReturnView
  pub reporting_currency : String
  pub materialization_ids : List String
  pub null_sequence : Bool

pub record CompositeLinkedSelection : Type 0 where
  pub tenant_id : String
  pub source_request : CompositeLinkedRequest
  pub windows : List CompositeWindowPin
  pub engine_version : String
  pub calculation_fingerprint : String
  pub response_digest : String

-- composite_eligibility.py, composite_amendment.py and composite_historical.py share this shape
pub record MonthlySelection (Pin : Type 0) : Type 0 where
  pub tenant_id : String
  pub composite_id : String
  pub definition_version : String
  pub reporting_currency : String
  pub period_start : Date
  pub period_end : Date
  pub months : List Pin

abbrev pub EligibilitySelection : Type 0
EligibilitySelection = MonthlySelection EligibilityMonthPin

abbrev pub AmendmentEligibilitySelection : Type 0
AmendmentEligibilitySelection = MonthlySelection AmendmentMonthPin

abbrev pub HistoricalEligibilitySelection : Type 0
HistoricalEligibilitySelection = MonthlySelection HistoricalMonthlyPin

-- composite_pooled.py
pub data DayCountBasis : Type 0 where
  bus_252 act_365 act_act : DayCountBasis

pub data FallbackPolicy : Type 0 where
  require_xirr allow_modified_dietz : FallbackPolicy

pub record PooledAnalysisSelection : Type 0 where
  pub tenant_id : String
  pub composite_id : String
  pub calculation_id : String
  pub period_start : Date
  pub period_end : Date
  pub reporting_currency : String
  pub return_view : ReturnView
  pub fee_basis : String
  pub policy_binding_id : String
  pub policy_content_hash : String
  pub day_count_basis : DayCountBasis
  pub fallback_policy : FallbackPolicy
  pub engine_version : String
  pub source_manifest_id : String
  pub input_manifest_digest : String
  pub source_bundle_digest : String
  pub response_digest : String
  pub expected_portfolio_ids : List String
  pub source_pins : List PooledSourcePin
  pub correction_of_calculation_id : Option String
  pub predecessor_response_digest : Option String

-- composite_source_context.py
pub record CompositeSourceContextSelection : Type 0 where
  pub definition : CompositeDefinitionPin
  pub since_inception : Bool
  pub memberships : List CompositeMembershipPin

pub record CompositeDefinitionCustody : Type 0 where
  pub pin : CompositeDefinitionPin
  pub source_response_digest : String

-- composite_products.py
pub data ReturnPin : Type 0 where
  calendar_return : (product_key : String) (year : ℕ) → CompositeSelection → ReturnPin
  trailing_return : (product_key : String) (months : ℕ) → CompositeSelection → ReturnPin

pub record CompositeSourceProduct : Type 0 where
  pub pin : ReturnPin
  pub source_response_digest : String
