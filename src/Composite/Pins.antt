-- ===== src/Composite/Pins.antt =====
-- The pins below a composite selection. A field that can hold one literal only is left out; a
-- digest, an identifier, a UUID and a currency code are texts. `method_binding` is a dict whose order
-- the program never looks at: it stands here in the order of its keys.
use lotus_archive.Prelude.{ℕ, String, List}
use lotus_archive.Calendar.{Date}

pub data ReturnView : Type 0 where
  gross net_actual net_model_fee : ReturnView

-- composite_identity.py
pub record CompositeWindowPin : Type 0 where
  pub materialization_id : String
  pub period_start : Date
  pub period_end : Date
  pub restatement_sequence : ℕ
  pub definition_content_hash : String
  pub membership_content_hash : String
  pub attestation_content_hash : String
  pub source_cut_id : String
  pub method_binding : List (String × String)
  pub retained_receipt_fingerprint : String

-- composite_eligibility.py
pub record EvaluatedEligibilityPin : Type 0 where
  pub month : String
  pub evaluation_revision : String
  pub proposal_content_hash : String
  pub proposal_response_digest : String
  pub parent_membership_revision : String
  pub parent_membership_content_hash : String
  pub source_cut_id : String

pub record PublishedEligibilityPin : Type 0 where
  pub month : String
  pub evaluation_revision : String
  pub proposal_content_hash : String
  pub approval_content_hash : String
  pub receipt_content_hash : String
  pub receipt_response_digest : String
  pub membership_revision : String
  pub membership_content_hash : String
  pub membership_response_digest : String
  pub attestation_version : String
  pub universe_content_hash : String
  pub universe_response_digest : String
  pub parent_membership_revision : String
  pub parent_membership_content_hash : String
  pub parent_response_digest : String
  pub publication_sequence : ℕ
  pub publication_response_digest : String
  pub source_cut_id : String

pub data EligibilityMonthPin : Type 0 where
  published : PublishedEligibilityPin → EligibilityMonthPin
  evaluated : EvaluatedEligibilityPin → EligibilityMonthPin

-- composite_amendment.py
pub data MonthlyProductVersion : Type 0 where
  v1 v2 : MonthlyProductVersion

pub record MonthlyReceiptPin : Type 0 where
  pub product_version : MonthlyProductVersion
  pub evaluation_revision : String
  pub approval_content_hash : String
  pub receipt_content_hash : String
  pub receipt_response_digest : String

pub record AmendmentEvaluatedPin : Type 0 where
  pub pin : EvaluatedEligibilityPin
  pub lineage_receipts : List MonthlyReceiptPin

pub record AmendmentPublishedPin : Type 0 where
  pub pin : PublishedEligibilityPin
  pub lineage_receipts : List MonthlyReceiptPin
  pub parent_publication_response_digest : String

pub data AmendmentMonthPin : Type 0 where
  published : AmendmentPublishedPin → AmendmentMonthPin
  evaluated : AmendmentEvaluatedPin → AmendmentMonthPin

-- composite_historical.py
pub data HistoricalProductVersion : Type 0 where
  v3 v4 : HistoricalProductVersion

pub record HistoricalReceiptPin : Type 0 where
  pub product_version : HistoricalProductVersion
  pub evaluation_revision : String
  pub approval_content_hash : String
  pub receipt_content_hash : String
  pub receipt_response_digest : String

pub record HistoricalEvaluatedCorrectionPin : Type 0 where
  pub pin : EvaluatedEligibilityPin
  pub lineage_receipts : List HistoricalReceiptPin

pub record HistoricalPublishedCorrectionPin : Type 0 where
  pub pin : PublishedEligibilityPin
  pub lineage_receipts : List HistoricalReceiptPin
  pub parent_publication_response_digest : String

pub data HistoricalMonthlyPin : Type 0 where
  evaluated_root : EvaluatedEligibilityPin → HistoricalMonthlyPin
  published_root : PublishedEligibilityPin → HistoricalMonthlyPin
  evaluated_correction : HistoricalEvaluatedCorrectionPin → HistoricalMonthlyPin
  published_correction : HistoricalPublishedCorrectionPin → HistoricalMonthlyPin

-- composite_pooled.py
pub record PooledSourcePin : Type 0 where
  pub pin_id : String
  pub owner : String
  pub product_name : String
  pub product_version : String
  pub revision : String
  pub source_cut_id : String
  pub payload_digest : String
  pub compatibility_group : String
  pub coverage_from : Date
  pub coverage_to : Date
  pub page_ids : List String
  pub expected_page_count : ℕ

-- composite_source_context.py
pub record CompositeDefinitionPin : Type 0 where
  pub definition_version : String
  pub content_hash : String
  pub response_digest : String

pub record CompositeMembershipPin : Type 0 where
  pub membership_revision : String
  pub content_hash : String
  pub response_digest : String
