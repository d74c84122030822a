-- ===== src/Composite/Identity.antt =====
-- `CompositeCustodyIdentity` of `archive/composite_products.py`: eight contract versions.
use lotus_archive.Prelude.{String, List, Eq, string_discrete}
use native.Mathlib.Decide.{ℕ_discrete}
use lotus_archive.Composite.Selections.{
  CompositeSelection, CompositeLinkedSelection, EligibilitySelection, AmendmentEligibilitySelection,
  HistoricalEligibilitySelection, PooledAnalysisSelection, CompositeSourceContextSelection,
  CompositeDefinitionCustody, CompositeSourceProduct,
}

pub record Digests : Type 0 where
  pub series_digest : String
  pub source_revision_digest : String
  pub factual_content_digest : String

pub data CompositeCustodyIdentity : Type 0 where
  v1 : CompositeSelection → Digests → CompositeCustodyIdentity
  v2 : CompositeSelection → Digests → List CompositeSourceProduct → CompositeCustodyIdentity
  v3 : CompositeLinkedSelection → Digests → CompositeCustodyIdentity
  v4 : EligibilitySelection → Digests → CompositeCustodyIdentity
  v5 : PooledAnalysisSelection → Digests → CompositeCustodyIdentity
  v6 : AmendmentEligibilitySelection → Digests → CompositeCustodyIdentity
  v7 : HistoricalEligibilitySelection → Digests → CompositeCustodyIdentity
  v8 :
      CompositeSelection
      → Digests
      → CompositeSourceContextSelection
      → CompositeDefinitionCustody
      → List CompositeSourceProduct
      → CompositeCustodyIdentity

unfoldable pub CompositeCustodyIdentity-discrete : Discrete CompositeCustodyIdentity
CompositeCustodyIdentity-discrete = hlevel (ℕ_discrete, string_discrete)

instance abbrev pub composite_eq : Eq CompositeCustodyIdentity
composite_eq = record { dec = CompositeCustodyIdentity-discrete }
