-- ===== src/Models/Tests.antt =====
-- The validators at concrete data.
use lotus_archive.Prelude.{◌≡◌, refl, string_discrete}
use native.Mathlib.Decide.{ℕ_discrete}
use lotus_archive.Prelude.Texts.{has_char}
use lotus_archive.Calendar.{before}
use lotus_archive.Errors.{ok}
use lotus_archive.Models.Input.{GeneratedReportType-discrete}
use lotus_archive.Models.Validation.{
  validated, checked, report_scope_agrees, dates_are_ordered, bounded_publication, declared_digest,
}
use lotus_archive.Models.Valid.{IsWellFormed, validated-IsWellFormed}
use lotus_archive.Models.Revalidation.{LeavesNormal, validated_documents_stay}
use lotus_archive.Samples.{input}

validated_run : validated (λ s. s) (λ s. s) (input "req_1") ≡ ok (input "req_1")
unfolding validated checked report_scope_agrees dates_are_ordered bounded_publication
    declared_digest has_char string_discrete GeneratedReportType-discrete before ℕ_discrete
validated_run = refl

validated-IsWellFormed_example : IsWellFormed (input "req_1")
validated-IsWellFormed_example =
    validated-IsWellFormed (λ s. s) (λ s. s) (input "req_1") (input "req_1") validated_run

identity-LeavesNormal : LeavesNormal (λ s. s) (λ s. s)
identity-LeavesNormal = record { digest = λ h hex. refl; published = refl; development = refl }

validated_documents_stay_example : validated (λ s. s) (λ s. s) (input "req_1") ≡ ok (input "req_1")
validated_documents_stay_example =
    validated_documents_stay (λ s. s) (λ s. s) identity-LeavesNormal (input "req_1") (input "req_1")
      validated_run
