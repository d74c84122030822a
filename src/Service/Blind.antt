-- ===== src/Service/Blind.antt =====
-- The batch preflight as its callers see it: a function of what is theirs to see.
use lotus_archive.Prelude.{
  String, ◌≡◌, refl, sym, ap, ◌∙◌, Option, List, [], ◌∷◌, length, contains, ltb, arith, ◌==◌,
  string_eq, nat_eq, if◌then◌else◌, Bool-cases, inl, inr,
}
use lotus_archive.Prelude.Dict
use lotus_archive.Prelude.Dict.{Dict}
use lotus_archive.Errors.{Result, ok, err, metadata_validation, authorization_failed}
use lotus_archive.Exec.{pure, raise, lift, gets, ◌>>=◌, bind-ok}
use lotus_archive.Environment.{Environment}
use lotus_archive.Models.{ArchiveDocumentMetadata}
use lotus_archive.Audit.{CallerContext, AccessEventType}
use lotus_archive.Authorization.Policy.{ArchivePermission, allowed_callers_for, caller_not_allowed}
use lotus_archive.Authorization.Scope.{require_caller_scope}
use lotus_archive.Preflight.{max_preflight_document_ids, preflight_item, result_state_for_items}
use lotus_archive.Preflight.Disclosure.{visible, preflight_item-visible}
use lotus_archive.Service.World.{World, record_event, new_id, utc_now, append_event}
use lotus_archive.Service.Access.{authorize}
use lotus_archive.Service.Reads.{
  BatchLookup, Evaluated, evaluate_items, items_of, record_preflight_audit, answer_preflight,
  preflight_document_access, PreflightResult,
}

module _ (env : Environment) (b : BatchLookup) where
  evaluate_items-visible :
      (ids : List String) (docs docs' : Dict ArchiveDocumentMetadata) (u : List String)
      (caller : CallerContext)
      → ((i : String)
          → visible env.casefold caller (Dict.lookup i docs)
            ≡ visible env.casefold caller (Dict.lookup i docs'))
      → items_of env b (evaluate_items env b ids docs u caller)
        ≡ items_of env b (evaluate_items env b ids docs' u caller)
  unfolding evaluate_items
  evaluate_items-visible [] docs docs' u caller same = refl
  evaluate_items-visible (i ∷ ids) docs docs' u caller same =
      let first =
        preflight_item-visible env.casefold caller i (Dict.lookup i docs) (contains u i)
        ∙ ap (λ o. (preflight_item env.casefold i o (contains u i) caller).0) (same i)
        ∙ sym (preflight_item-visible env.casefold caller i (Dict.lookup i docs') (contains u i)) in
      let rest = evaluate_items-visible ids docs docs' u caller same in cc

  record_event-returns :
      (t : AccessEventType) (caller : CallerContext) (trace : String) (d : _) (reason : String)
      (i operation : Option String) (w : World env)
      → (record_event env t caller trace d reason i operation w).0 ≡ ok tt
  unfolding record_event ◌>>=◌ new_id utc_now append_event
  record_event-returns t caller trace d reason i operation w = refl

  record_preflight_audit-returns :
      (evaluated : List Evaluated) (caller : CallerContext) (trace : String) (w : World env)
      → (record_preflight_audit env b evaluated caller trace w).0 ≡ ok tt
  unfolding record_preflight_audit pure
  record_preflight_audit-returns [] caller trace w = refl
  record_preflight_audit-returns ((item, reason) ∷ evaluated) caller trace w =
      ap (λ r. r.0) (bind-ok _ _ (record_event-returns _ caller trace _ _ _ _ w))
      ∙ record_preflight_audit-returns evaluated caller trace _

  answer_preflight-found :
      (ids : List String) (caller : CallerContext) (trace : String)
      (docs : Dict ArchiveDocumentMetadata) (u : List String) (w : World env)
      → (answer_preflight env b ids caller trace (ok (docs, u)) w).0 ≡ (
          let items = items_of env b (evaluate_items env b ids docs u caller) in
          ok (items, result_state_for_items items))
  unfolding answer_preflight pure
  answer_preflight-found ids caller trace docs u w =
      ap (λ r. r.0) (bind-ok _ _ (record_preflight_audit-returns _ caller trace w))

  -- the answer of a look-up that reached the repository
  abbrev found_answer :
      List String
      → CallerContext
      → Dict ArchiveDocumentMetadata
      → List String
      → Result (PreflightResult env b)
  found_answer ids caller docs u =
      let items = items_of env b (evaluate_items env b ids docs u caller) in
      ok (items, result_state_for_items items)

  abbrev guarded :
      List String → CallerContext → Result (PreflightResult env b) → Result (PreflightResult env b)
  guarded ids caller answer =
      if length ids == 0
      then err (metadata_validation "access preflight requires at least one document id")
      else if ltb max_preflight_document_ids (length ids)
      then err (metadata_validation "access preflight accepts at most 100 document ids per request")
      else if contains
          (allowed_callers_for env.authorization_policy
            ArchivePermission.read_batch_access_preflight)
          caller.caller_service
      then elim (require_caller_scope caller) [ err e ↦ err e | ok _ ↦ answer ]
      else err
          (authorization_failed (caller_not_allowed ArchivePermission.read_batch_access_preflight))

  preflight-answers :
      (ids : List String) (caller : CallerContext) (trace : String) (w : World env)
      (docs : Dict ArchiveDocumentMetadata) (u : List String)
      → b ids w.repository ≡ ok (docs, u)
      → (preflight_document_access env b ids caller trace w).0
        ≡ guarded ids caller (found_answer ids caller docs u)
  unfolding preflight_document_access authorize ◌>>=◌ pure raise lift gets record_event new_id
      utc_now append_event
  preflight-answers ids caller trace w docs u h =
      elim (Bool-cases (
        contains
          (allowed_callers_for env.authorization_policy
            ArchivePermission.read_batch_access_preflight)
          caller.caller_service)) [
            | inl is_allowed ↦ ground (arith, answer_preflight-found ids caller trace docs u w)
            | inr is_not ↦ ground arith
          ]

  -- Two archives whose documents of the caller's tenant and region are the same give the caller the
  -- same preflight answer, success or refusal: whether and what documents of other tenants and regions
  -- are stored does not show. The look-up answers for both, and leaves out the same identifiers.
  pub preflight_reveals_nothing :
      (ids : List String) (caller : CallerContext) (trace trace' : String) (w w' : World env)
      (docs docs' : Dict ArchiveDocumentMetadata) (u : List String)
      → b ids w.repository ≡ ok (docs, u)
      → b ids w'.repository ≡ ok (docs', u)
      → ((i : String)
          → visible env.casefold caller (Dict.lookup i docs)
            ≡ visible env.casefold caller (Dict.lookup i docs'))
      → (preflight_document_access env b ids caller trace w).0
        ≡ (preflight_document_access env b ids caller trace' w').0
  preflight_reveals_nothing ids caller trace trace' w w' docs docs' u h h' same =
      preflight-answers ids caller trace w docs u h
      ∙ ap (λ items. guarded ids caller (ok (items, result_state_for_items items)))
          (evaluate_items-visible ids docs docs' u caller same)
      ∙ sym (preflight-answers ids caller trace' w' docs' u h')
