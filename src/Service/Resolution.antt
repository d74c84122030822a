-- ===== src/Service/Resolution.antt =====
-- The rounds of following superseding documents, and where they lead.
use lotus_archive.Prelude.{
  ℕ, zero, suc, ◌≤◌, ◌<◌, String, ◌≡◌, ◌≢◌, refl, sym, ap, ◌∙◌, true, false, Option, none, some,
  List, [], ◌∷◌, length, contains, arith, ◌==◌, string_eq, if◌then◌else◌,
}
use lotus_archive.Prelude.Dict
use lotus_archive.Prelude.Dict.{Dict}
use lotus_archive.Errors.{Error, Result, ok, err, out_of_fuel, authorization_failed}
use lotus_archive.Exec.{raise, ◌>>=◌, ◌>>◌}
use lotus_archive.Exec.Ensures.{
  Ensures, Ensures-pure, Ensures-raise, Ensures-gets, Ensures-if, Ensures-bind, Ensures-then,
}
use lotus_archive.Exec.Avoids.{
  Avoids, Avoids-pure, Avoids-raise, Avoids-gets, Avoids-if, Avoids-bind, Avoids-given,
  Avoids-weaken,
}
use lotus_archive.Environment.{Environment}
use lotus_archive.Models.{ArchiveDocumentInput, ArchiveDocumentMetadata}
use lotus_archive.Audit.{CallerContext}
use lotus_archive.Authorization.Policy.{ArchivePermission}
use lotus_archive.Authorization.Scope.{
  ArchiveAccessDecision, ArchiveAccessState, state_eq, reason_value, require_caller_scope,
  same_scope,
}
use lotus_archive.Repository.State.{Repository, get_by_document_id}
use lotus_archive.Service.World.{World, Archive, record_event, new_id, utc_now, append_event}
use lotus_archive.Service.Access.{
  audited_caller_scope, enforce_decision, authorize_document_tenant_scope, found, record_denied,
  get_existing_metadata,
}
use lotus_archive.Service.Scope.{
  get_existing_metadata-Ensures, audited_caller_scope-Ensures,
  authorize_document_tenant_scope-Ensures, tenant_allowed, document_access-Ensures,
}
use lotus_archive.Service.Lifecycle.{
  follow, resolve_current_document, get_current_document_metadata,
}

module _ {V : Type 0} where
  -- how many entries have a key that was not visited
  unvisited : List String → Dict V → ℕ
  unvisited visited [] = 0
  unvisited visited ((k, v) ∷ d) =
      let rest = unvisited visited d in if contains visited k then rest else suc rest

  unvisited-le-length : (visited : List String) (d : Dict V) → unvisited visited d ≤ length d
  unfolding unvisited
  unvisited-le-length visited [] = omega arith
  unvisited-le-length visited ((k, v) ∷ d) = ground (arith, unvisited-le-length visited d)

  unvisited-shrinks :
      (i : String) (visited : List String) (d : Dict V)
      → unvisited (i ∷ visited) d ≤ unvisited visited d
  unfolding unvisited
  unvisited-shrinks i visited [] = omega arith
  unvisited-shrinks i visited ((k, v) ∷ d) = ground (arith, unvisited-shrinks i visited d)

  -- visiting another key leaves fewer
  unvisited-lt :
      (i : String) (visited : List String) (d : Dict V) (v : V)
      → Dict.lookup i d ≡ some v
      → contains visited i ≡ false
      → unvisited (i ∷ visited) d < unvisited visited d
  unfolding unvisited Dict.lookup
  unvisited-lt i visited [] v h new = cc
  unvisited-lt i visited ((k, u) ∷ d) v h new =
      ground (arith, unvisited-shrinks i visited d, unvisited-lt i visited d v)

-- A document, its successor, and so on to one that has none. Every successor is stored, and in the
-- tenant and region of the caller.
pub data Follows (casefold : String → String) (caller : CallerContext) (r : Repository)
    : ArchiveDocumentMetadata → ArchiveDocumentMetadata → Type 0 where
  ended :
      {m : ArchiveDocumentMetadata}
      → m.superseded_by_document_id ≡ none
      → Follows casefold caller r m m
  superseded :
      {m next current : ArchiveDocumentMetadata} {i : String}
      → m.superseded_by_document_id ≡ some i
      → get_by_document_id i r ≡ some next
      → same_scope casefold next.input caller ≡ true
      → Follows casefold caller r next current
      → Follows casefold caller r m current

ok-ne-err : {e : Error} → ◌≡◌ {A = Result (Unit {0})} (ok tt) (err e) → ⊥
ok-ne-err h = cc

refusal-ne : (reason : String) → authorization_failed reason ≢ out_of_fuel
refusal-ne reason e = cc

scope-avoids : (caller : CallerContext) → require_caller_scope caller ≢ err out_of_fuel
unfolding require_caller_scope
scope-avoids caller h = ground arith

module _ (env : Environment) (caller : CallerContext) (trace : String) (r : Repository) where
  abbrev At : World env → Type 0
  At w = w.repository ≡ r

  get_existing_metadata-Avoids : (i : String) → Avoids out_of_fuel At (get_existing_metadata env i)
  unfolding get_existing_metadata found
  get_existing_metadata-Avoids i =
      Avoids-bind {Q = λ _ _. Unit {0}} _ _ (Avoids-gets _) (record { holds = λ s p a e. tt })
        found-Avoids
    where
      found-Avoids :
          (o : Option ArchiveDocumentMetadata) → Avoids out_of_fuel (λ _. Unit {0}) (found env o)
      found-Avoids none = Avoids-raise _ (λ e. cc)
      found-Avoids (some m) = Avoids-pure m

  denied-Avoids :
      {P : World env → Type 0} (m : Archive env (Unit {0})) (e : Error)
      → ((w : World env) → (m w).0 ≡ ok tt)
      → e ≢ out_of_fuel
      → Avoids {A = Unit {0}} out_of_fuel P (m >> raise e)
  denied-Avoids m e returns ne =
      Avoids-bind {Q = λ _ _. Unit {0}} _ _
        (record { at = λ s p h. ok-ne-err (sym (returns s) ∙ h) })
        (record { holds = λ s p a h. tt }) (λ _. Avoids-raise e ne)

  audited_caller_scope-Avoids :
      (scope : Result (Unit {0})) (i : Option String)
      → scope ≢ err out_of_fuel
      → Avoids out_of_fuel At (audited_caller_scope env scope caller trace i)
  unfolding audited_caller_scope record_event ◌>>=◌ new_id utc_now append_event
  audited_caller_scope-Avoids (ok _) i ne = Avoids-pure tt
  audited_caller_scope-Avoids (err e) i ne =
      denied-Avoids _ e (λ w. refl) (λ same. ne (ap err same))

  enforce_decision-Avoids :
      (decision : ArchiveAccessDecision) (i : Option String)
      → Avoids out_of_fuel At (enforce_decision env decision caller trace i)
  unfolding enforce_decision record_event ◌>>=◌ new_id utc_now append_event
  enforce_decision-Avoids decision i =
      Avoids-if (decision.state == ArchiveAccessState.allowed) _ _ (λ _. Avoids-pure tt)
        (λ _.
          denied-Avoids (record_denied env caller trace (reason_value decision.reason_code) i)
            (authorization_failed (reason_value decision.reason_code)) (λ w. refl) (refusal-ne _))

  authorize_document_tenant_scope-Avoids :
      (d : ArchiveDocumentInput) (i : Option String)
      → Avoids out_of_fuel At (authorize_document_tenant_scope env d i caller trace)
  unfolding authorize_document_tenant_scope
  authorize_document_tenant_scope-Avoids d i =
      Avoids-bind {Q = λ _. At} _ _ (audited_caller_scope-Avoids _ i (scope-avoids caller))
        (audited_caller_scope-Ensures env caller trace (require_caller_scope caller) i)
        (λ _. enforce_decision-Avoids _ i)

  -- what a round knows of the next document
  abbrev IsSuccessor : String → ArchiveDocumentMetadata → World env → Type 0
  IsSuccessor i next w = At w × (get_by_document_id i w.repository ≡ some next)

  looked_up-Ensures : (i : String) → Ensures At (get_existing_metadata env i) (IsSuccessor i)
  looked_up-Ensures i = get_existing_metadata-Ensures env {P = At} i

  follow-Avoids :
      (fuel : ℕ) (visited : List String) (current : ArchiveDocumentMetadata)
      (successor : Option String)
      → unvisited visited r.by_document_id < fuel
      → Avoids out_of_fuel At (follow env fuel visited caller trace current successor)
  unfolding follow
  follow-Avoids fuel visited current none bound = Avoids-pure current
  follow-Avoids zero visited current (some i) bound = record { at = λ s p. absurd (omega arith) }
  follow-Avoids (suc fuel) visited current (some i) bound =
      Avoids-if (contains visited i) _ _ (λ _. Avoids-raise _ (λ e. cc))
        λ (new : contains visited i ≡ false).
          Avoids-bind _ _ (get_existing_metadata-Avoids i) (looked_up-Ensures i) λ next.
            Avoids-given (get_by_document_id i r ≡ some next)
              (λ w h. ap (get_by_document_id i) (sym h.0) ∙ h.1)
              λ stored.
                Avoids-bind {Q = λ _. At} _ _
                  (Avoids-weaken (λ w h. h.0) (authorize_document_tenant_scope-Avoids next.input _))
                  (Ensures-then
                    (authorize_document_tenant_scope-Ensures env caller trace
                      {P = IsSuccessor i next} next.input _)
                    (λ _ w h. h.0.0))
                  λ _.
                    follow-Avoids fuel (i ∷ visited) next next.superseded_by_document_id (
                      omega (arith, bound, unvisited-lt i visited r.by_document_id next stored new))

  follow-Follows :
      (fuel : ℕ) (visited : List String) (current : ArchiveDocumentMetadata)
      (successor : Option String)
      → current.superseded_by_document_id ≡ successor
      → Ensures At
          (follow env fuel visited caller trace current successor)
          (λ latest _. Follows env.casefold caller r current latest)
  unfolding follow
  follow-Follows fuel visited current none last = Ensures-pure current (λ w h. ended last)
  follow-Follows zero visited current (some i) next_one = Ensures-raise _
  follow-Follows (suc fuel) visited current (some i) next_one =
      Ensures-if (contains visited i) _ _ (λ _. Ensures-raise _)
        λ _. Ensures-bind _ _ _ (looked_up-Ensures i) λ next.
          Ensures-bind _ _ _
            (authorize_document_tenant_scope-Ensures env caller trace {P = IsSuccessor i next}
              next.input _)
            λ _. record {
              holds = λ w h latest e.
                  superseded next_one (ap (get_by_document_id i) (sym h.0.0) ∙ h.0.1)
                    (tenant_allowed env.casefold caller next.input h.1)
                    ((follow-Follows fuel (i ∷ visited) next next.superseded_by_document_id
                        refl).holds
                      w h.0.0 latest e);
            }

  resolve-Follows :
      (m : ArchiveDocumentMetadata)
      → Ensures At
          (resolve_current_document env m caller trace)
          (λ latest _. Follows env.casefold caller r m latest)
  unfolding resolve_current_document
  resolve-Follows m =
      Ensures-bind (λ _. At) _ _ (Ensures-gets _ (λ w h. h))
        (λ rounds. follow-Follows rounds (m.document_id ∷ []) m m.superseded_by_document_id refl)

  resolve-Avoids :
      (m : ArchiveDocumentMetadata)
      → Avoids out_of_fuel At (resolve_current_document env m caller trace)
  unfolding resolve_current_document
  resolve-Avoids m =
      Avoids-bind {Q = λ rounds w. At w × (suc (length w.repository.by_document_id) ≡ rounds)} _ _
        (Avoids-gets _) (Ensures-gets _ (λ w h. (h, refl)))
        λ rounds.
          Avoids-given (suc (length r.by_document_id) ≡ rounds)
            (λ w h. ap (λ q. suc (length q.by_document_id)) (sym h.0) ∙ h.1)
            λ enough.
              Avoids-weaken (λ w h. h.0)
                (follow-Avoids rounds (m.document_id ∷ []) m m.superseded_by_document_id (
                  omega (arith, enough, unvisited-le-length (m.document_id ∷ []) r.by_document_id)))

  current-Follows :
      (i : String)
      → Ensures At (get_current_document_metadata env i caller trace) (λ current _.
        (m : ArchiveDocumentMetadata) × (get_by_document_id i r ≡ some m)
        × Follows env.casefold caller r m current)
  unfolding get_current_document_metadata
  current-Follows i =
      Ensures-bind (λ m w. At w × (get_by_document_id i r ≡ some m)) _ _
        (Ensures-then
          (document_access-Ensures env caller trace {P = At} i ArchivePermission.read_metadata)
          (λ m w h. (h.0, ap (get_by_document_id i) (sym h.0) ∙ h.1.stored)))
        λ m.
          Ensures-bind
            (λ current _.
              (get_by_document_id i r ≡ some m) × Follows env.casefold caller r m current)
            _ _
            (record { holds = λ w h current e. (h.1, (resolve-Follows m).holds w h.0 current e) })
            λ current.
              Ensures-bind
                (λ _ _. (get_by_document_id i r ≡ some m) × Follows env.casefold caller r m current)
                _ _ (record { holds = λ w h a e. h }) λ _. Ensures-pure _ (λ w h. (m, h.0, h.1))

-- Following successors always ends within the rounds that the archive has documents for: with the last
-- document, or with an error that the code raises, whatever the documents point to.
pub resolution_ends :
    (env : Environment) (m : ArchiveDocumentMetadata) (caller : CallerContext) (trace : String)
    (w : World env)
    → (resolve_current_document env m caller trace w).0 ≢ err out_of_fuel
resolution_ends env m caller trace w = (resolve-Avoids env caller trace w.repository m).at w refl

-- The current version that is answered for a document is reached from the stored document of that identifier by
-- following successors, each of which is stored and in the caller's tenant and region, and has none itself.
pub current_versions_have_no_successor :
    (env : Environment) (i : String) (caller : CallerContext) (trace : String) (w : World env)
    (current : ArchiveDocumentMetadata)
    → (get_current_document_metadata env i caller trace w).0 ≡ ok current
    → ((m : ArchiveDocumentMetadata) × (get_by_document_id i w.repository ≡ some m)
        × Follows env.casefold caller w.repository m current)
      × (current.superseded_by_document_id ≡ none)
current_versions_have_no_successor env i caller trace w current h =
    let chain = (current-Follows env caller trace w.repository i).holds w refl current h in
    (chain, last chain.2)
  where
    last :
        {casefold : String → String} {r : Repository} {m c : ArchiveDocumentMetadata}
        → Follows casefold caller r m c
        → c.superseded_by_document_id ≡ none
    last (ended e) = e
    last (superseded _ _ _ rest) = last rest
