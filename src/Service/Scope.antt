-- ===== src/Service/Scope.antt =====
-- What the access checks guarantee to the methods behind them.
use lotus_archive.Prelude.{
  String, ◌≡◌, ◌≢◌, refl, true, Option, none, some, contains, arith, ◌==◌, string_eq, option_eq,
}
use lotus_archive.Errors.{Result, ok, err}
use lotus_archive.Exec.Ensures.{
  Ensures, Ensures-pure, Ensures-raise, Ensures-gets, Ensures-if, Ensures-bind, Ensures-then_raise,
}
use lotus_archive.Environment.{Environment}
use lotus_archive.Models.{
  ArchiveDocumentInput, ArchiveDocumentMetadata, PurgeStatus, purge_status_eq,
}
use lotus_archive.Audit.{CallerContext}
use lotus_archive.Repository.State.{get_by_document_id}
use lotus_archive.Authorization.Policy.{ArchivePermission, allowed_callers_for}
use lotus_archive.Authorization.Scope.{
  ArchiveAccessDecision, ArchiveAccessState, state_eq, same_scope, document_tenant_scope_decision,
  document_scope_decision,
}
use lotus_archive.Service.World.{World}
use lotus_archive.Service.Access.{
  authorize, audited_caller_scope, enforce_decision, authorize_document_scope,
  authorize_document_tenant_scope, found, get_existing_metadata, get_authorized_document_metadata,
  get_tenant_authorized_document_metadata,
}

module _ (casefold : String → String) (caller : CallerContext) where
  pub tenant_allowed :
      (d : ArchiveDocumentInput)
      → (document_tenant_scope_decision casefold d caller).state ≡ ArchiveAccessState.allowed
      → same_scope casefold d caller ≡ true
  unfolding document_tenant_scope_decision
  tenant_allowed d h = ground arith

  pub document_allowed :
      (m : ArchiveDocumentMetadata)
      → (document_scope_decision casefold m caller).state ≡ ArchiveAccessState.allowed
      → (same_scope casefold m.input caller ≡ true) × (m.purge_status ≢ PurgeStatus.purged)
  unfolding document_scope_decision document_tenant_scope_decision
  document_allowed m h = ground arith

module _ (env : Environment) (caller : CallerContext) where
  -- The policy allows the caller, the document is stored, and it is of the caller's tenant and region.
  pub record IsAuthorized (p : ArchivePermission) (i : String) (m : ArchiveDocumentMetadata)
      (w : World env) : Type 0 where
    pub permitted :
        contains (allowed_callers_for env.authorization_policy p) caller.caller_service ≡ true
    pub stored : get_by_document_id i w.repository ≡ some m
    pub in_scope : same_scope env.casefold m.input caller ≡ true

module _ (env : Environment) {P : World env → Type 0} where
  found-Ensures :
      (i : String) (o : Option ArchiveDocumentMetadata)
      → Ensures
          (λ w. P w × (get_by_document_id i w.repository ≡ o))
          (found env o)
          (λ m w. P w × (get_by_document_id i w.repository ≡ some m))
  unfolding found
  found-Ensures i none = Ensures-raise _
  found-Ensures i (some m) = Ensures-pure m (λ s h. h)

  pub get_existing_metadata-Ensures :
      (i : String)
      → Ensures P
          (get_existing_metadata env i)
          (λ m w. P w × (get_by_document_id i w.repository ≡ some m))
  unfolding get_existing_metadata
  get_existing_metadata-Ensures i =
      Ensures-bind (λ o w. P w × (get_by_document_id i w.repository ≡ o)) _ _
        (Ensures-gets _ (λ s h. (h, refl))) (found-Ensures i)

module _ (env : Environment) (caller : CallerContext) (trace : String) where
  module _ {P : World env → Type 0} where
    pub authorize-Ensures :
        (p : ArchivePermission) (i : Option String)
        → Ensures P (authorize env p caller trace i) (λ _ w.
          P w
          × (contains (allowed_callers_for env.authorization_policy p) caller.caller_service
              ≡ true))
    unfolding authorize
    authorize-Ensures p i =
        Ensures-if _ _ _ (λ yes. Ensures-pure tt (λ s h. (h, yes))) (λ _. Ensures-then_raise _ _)

    pub audited_caller_scope-Ensures :
        (r : Result (Unit {0})) (i : Option String)
        → Ensures P (audited_caller_scope env r caller trace i) (λ _. P)
    unfolding audited_caller_scope
    audited_caller_scope-Ensures (ok _) i = Ensures-pure tt (λ s h. h)
    audited_caller_scope-Ensures (err e) i = Ensures-then_raise _ _

    enforce_decision-Ensures :
        (d : ArchiveAccessDecision) (i : Option String)
        → Ensures P
            (enforce_decision env d caller trace i)
            (λ _ w. P w × (d.state ≡ ArchiveAccessState.allowed))
    unfolding enforce_decision
    enforce_decision-Ensures d i =
        Ensures-if _ _ _
          (λ (yes : (d.state == ArchiveAccessState.allowed) ≡ true).
            Ensures-pure tt (λ s h. (h, ground arith)))
          (λ _. Ensures-then_raise _ _)

  authorize_document_scope-Ensures :
      {P : World env → Type 0} (m : ArchiveDocumentMetadata)
      → Ensures P (authorize_document_scope env m caller trace) (λ _ w.
        P w × ((document_scope_decision env.casefold m caller).state ≡ ArchiveAccessState.allowed))
  unfolding authorize_document_scope
  authorize_document_scope-Ensures {P} m =
      Ensures-bind (λ _. P) _ _ (audited_caller_scope-Ensures _ _)
        (λ _. enforce_decision-Ensures _ _)

  pub authorize_document_tenant_scope-Ensures :
      {P : World env → Type 0} (d : ArchiveDocumentInput) (i : Option String)
      → Ensures P (authorize_document_tenant_scope env d i caller trace) (λ _ w.
        P w
        × ((document_tenant_scope_decision env.casefold d caller).state
            ≡ ArchiveAccessState.allowed))
  unfolding authorize_document_tenant_scope
  authorize_document_tenant_scope-Ensures {P} d i =
      Ensures-bind (λ _. P) _ _ (audited_caller_scope-Ensures _ _)
        (λ _. enforce_decision-Ensures _ _)

  abbrev Permits : ArchivePermission → Type 0
  Permits p = contains (allowed_callers_for env.authorization_policy p) caller.caller_service ≡ true

  pub tenant_access-Ensures :
      {P : World env → Type 0} (i : String) (p : ArchivePermission)
      → Ensures P
          (get_tenant_authorized_document_metadata env i p caller trace)
          (λ m w. P w × IsAuthorized env caller p i m w)
  unfolding get_tenant_authorized_document_metadata
  tenant_access-Ensures {P} i p =
      Ensures-bind (λ _ w. P w × Permits p) _ _ (authorize-Ensures p (some i))
        λ _.
          Ensures-bind (λ m w. (P w × Permits p) × (get_by_document_id i w.repository ≡ some m)) _ _
            (get_existing_metadata-Ensures env i)
            λ m.
              Ensures-bind _ _ _
                (authorize_document_tenant_scope-Ensures m.input (some m.document_id))
                λ _. Ensures-pure m λ w h. (
                  h.0.0.0,
                  record {
                    permitted = h.0.0.1;
                    stored = h.0.1;
                    in_scope = tenant_allowed env.casefold caller m.input h.1;
                  },
                )

  pub document_access-Ensures :
      {P : World env → Type 0} (i : String) (p : ArchivePermission)
      → Ensures P
          (get_authorized_document_metadata env i p caller trace)
          (λ m w. P w × IsAuthorized env caller p i m w × (m.purge_status ≢ PurgeStatus.purged))
  unfolding get_authorized_document_metadata
  document_access-Ensures {P} i p =
      Ensures-bind (λ _ w. P w × Permits p) _ _ (authorize-Ensures p (some i))
        λ _.
          Ensures-bind (λ m w. (P w × Permits p) × (get_by_document_id i w.repository ≡ some m)) _ _
            (get_existing_metadata-Ensures env i)
            λ m. Ensures-bind _ _ _ (authorize_document_scope-Ensures m) λ _. Ensures-pure m λ w h.
              (
                h.0.0.0,
                record {
                  permitted = h.0.0.1;
                  stored = h.0.1;
                  in_scope = (document_allowed env.casefold caller m h.1).0;
                },
                (document_allowed env.casefold caller m h.1).1,
              )
