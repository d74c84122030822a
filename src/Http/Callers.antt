-- ===== src/Http/Callers.antt =====
-- What is read of a caller.
use lotus_archive.Prelude.{
  String, ◌≡◌, refl, subst, true, false, Option, none, some, List, [], ◌∷◌, arith, string_eq,
  contains, ap, ◌==◌, ◌&&◌, Bool-cases, ◌⊎◌, inl, inr, ◌≢◌,
}
use lotus_archive.Prelude.Dict
use lotus_archive.Prelude.Dict.{Dict}
use lotus_archive.Errors.{ok, err, caller_context_missing}
use lotus_archive.Audit.{CallerContext}
use lotus_archive.Http.Caller.{
  is_blank, missing_headers, required_headers, normalized_onto, context_of,
  caller_context_from_headers,
}

-- the header is there and not empty
abbrev pub IsNamed : Dict String → String → String → Type 0
IsNamed normalized header value = (Dict.lookup header normalized ≡ some value) × (value ≢ "")

-- The caller is named by the three required headers, and its scope is what the other two say.
pub record IsHeaderCaller (normalized : Dict String) (caller : CallerContext) : Type 0 where
  pub service : IsNamed normalized "x-caller-service" caller.caller_service
  pub actor_type : IsNamed normalized "x-actor-type" caller.actor_type
  pub actor : IsNamed normalized "x-actor-id" caller.actor_id
  pub tenant : caller.tenant_id ≡ Dict.lookup "x-tenant-id" normalized
  pub region : caller.region ≡ Dict.lookup "x-region" normalized

-- The list names the three required headers that are missing or empty, and no other.
abbrev pub NamesBlanks : Dict String → List String → Type 0
NamesBlanks normalized headers =
    (name : String)
    → contains headers name ≡ (
        contains ("x-caller-service" ∷ "x-actor-type" ∷ "x-actor-id" ∷ []) name
        && is_blank (Dict.lookup name normalized))

same_text : (a b : String) → (a == b) ≡ true → a ≡ b
same_text a b h = ground arith

contains-this :
    (normalized : Dict String) (h : String) (headers : List String) (name : String)
    → name ≡ h
    → contains (missing_headers normalized headers) name
      ≡ (contains headers name && is_blank (Dict.lookup name normalized))
    → contains (missing_headers normalized (h ∷ headers)) name
      ≡ (contains (h ∷ headers) name && is_blank (Dict.lookup name normalized))
unfolding missing_headers
contains-this normalized h headers name e rest =
    elim (Bool-cases (is_blank (Dict.lookup h normalized))) [
      | inl blank ↦ ground (arith, ap (λ n. is_blank (Dict.lookup n normalized)) e)
      | inr there ↦ ground (arith, ap (λ n. is_blank (Dict.lookup n normalized)) e)
    ]

contains-missing :
    (normalized : Dict String) (headers : List String) (name : String)
    → contains (missing_headers normalized headers) name
      ≡ (contains headers name && is_blank (Dict.lookup name normalized))
unfolding missing_headers
contains-missing normalized [] name = refl
contains-missing normalized (h ∷ headers) name = elim (Bool-cases (name == h)) [
  | inl this ↦
      contains-this normalized h headers name (same_text name h this)
        (contains-missing normalized headers name)
  | inr other ↦ ground (arith, contains-missing normalized headers name)
]

-- a header that is not blank has a value
named : (o : Option String) → is_blank o ≡ false → (v : String) × (o ≡ some v) × (v ≢ "")
unfolding is_blank
named none h = cc
named (some v) h = (v, refl, λ e. ground arith)

cons-ne-nil : (h : String) (headers : List String) → (h ∷ headers) ≢ []
cons-ne-nil h headers e = cc

no_header-missing :
    (normalized : Dict String) (header : String) (headers : List String)
    → missing_headers normalized (header ∷ headers) ≡ []
    → ((v : String) × IsNamed normalized header v) × (missing_headers normalized headers ≡ [])
unfolding missing_headers
no_header-missing normalized header headers h =
    elim (Bool-cases (is_blank (Dict.lookup header normalized))) [
      | inl blank ↦ absurd (cons-ne-nil _ _ (rw blank at h))
      | inr there ↦
          let (v, e, ne) = named (Dict.lookup header normalized) there in
          ((v, (e, ne)), rw there at h)
    ]

-- either every required header is there, or the answer names those that are not
context_of_lem :
    (missing : List String) (normalized : Dict String) (correlation_id : String)
    → missing_headers normalized required_headers ≡ missing
    → ((caller : CallerContext) × (context_of missing normalized correlation_id ≡ ok caller)
        × IsHeaderCaller normalized caller)
      ⊎ ((header : String) × (others : List String) × (context_of missing normalized correlation_id
            ≡ err (caller_context_missing (header ∷ others)))
          × NamesBlanks normalized (header ∷ others))
unfolding context_of
context_of_lem (header ∷ others) normalized correlation_id e = inr (
  header,
  others,
  refl,
  subst (NamesBlanks normalized) e (contains-missing normalized required_headers),
)
context_of_lem [] normalized correlation_id e =
    let ((service, s), e₁) =
      no_header-missing normalized "x-caller-service" ("x-actor-type" ∷ "x-actor-id" ∷ []) e in
    let ((actor_type, t), e₂) =
      no_header-missing normalized "x-actor-type" ("x-actor-id" ∷ []) e₁ in
    let ((actor, a), e₃) = no_header-missing normalized "x-actor-id" [] e₂ in
    inl (
      record {
        caller_service = service;
        actor_type = actor_type;
        actor_id = actor;
        correlation_id = correlation_id;
        tenant_id = Dict.lookup "x-tenant-id" normalized;
        region = Dict.lookup "x-region" normalized;
      },
      rw (s.0, t.0, a.0) refl,
      record { service = s; actor_type = t; actor = a; tenant = refl; region = refl },
    )

-- From any headers the reading ends in one of two ways: with a caller whose service, type and identifier stand
-- in the normalised headers and are not empty, and whose tenant and region are what those say; or with the refusal
-- that names, of "x-caller-service", "x-actor-type" and "x-actor-id", at least one, all that are missing or empty,
-- and no other header.
pub callers_are_read_or_refused :
    (lower strip : String → String) (headers : List (String × String)) (correlation_id : String)
    → ((caller : CallerContext) × (caller_context_from_headers lower strip headers correlation_id
          ≡ ok caller)
        × IsHeaderCaller (normalized_onto lower strip [] headers) caller)
      ⊎ ((header : String) × (others : List String) × (caller_context_from_headers lower strip
              headers correlation_id
            ≡ err (caller_context_missing (header ∷ others)))
          × NamesBlanks (normalized_onto lower strip [] headers) (header ∷ others))
unfolding caller_context_from_headers
callers_are_read_or_refused lower strip headers correlation_id =
    let normalized = normalized_onto lower strip [] headers in
    context_of_lem (missing_headers normalized required_headers) normalized correlation_id refl
