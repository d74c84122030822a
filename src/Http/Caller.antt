-- ===== src/Http/Caller.antt =====
-- `caller_context_from_headers` of `security/caller_context.py`.
use lotus_archive.Prelude.{
  String, Bool, true, Option, none, some, List, [], ◌∷◌, ◌==◌, string_eq, if◌then◌else◌,
}
use lotus_archive.Prelude.Dict
use lotus_archive.Prelude.Dict.{Dict}
use lotus_archive.Errors.{Result, ok, err, caller_context_missing, key_error, or_raise, ◌>>=◌}
use lotus_archive.Audit.{CallerContext}

-- `not normalized.get(header)`
unfoldable pub is_blank : Option String → Bool
is_blank none = true
is_blank (some value) = value == ""

unfoldable pub missing_headers : Dict String → List String → List String
unfolding is_blank
missing_headers normalized [] = []
missing_headers normalized (header ∷ headers) =
    let rest = missing_headers normalized headers in
    if is_blank (Dict.lookup header normalized) then header ∷ rest else rest

abbrev pub required_headers : List String
required_headers = "x-caller-service" ∷ "x-actor-type" ∷ "x-actor-id" ∷ []

unfoldable pub context_of :
    (missing : List String) → Dict String → (correlation_id : String) → Result CallerContext
context_of (header ∷ missing) normalized correlation_id =
    err (caller_context_missing (header ∷ missing))
context_of [] normalized correlation_id =
    or_raise (Dict.lookup "x-caller-service" normalized) key_error >>= λ service.
    or_raise (Dict.lookup "x-actor-type" normalized) key_error >>= λ actor_type.
    or_raise (Dict.lookup "x-actor-id" normalized) key_error >>= λ actor_id. ok (record {
      caller_service = service;
      actor_type = actor_type;
      actor_id = actor_id;
      correlation_id = correlation_id;
      tenant_id = Dict.lookup "x-tenant-id" normalized;
      region = Dict.lookup "x-region" normalized;
    })

module _ (lower strip : String → String) where
  -- the dict comprehension: of two headers with one lower-case name, the later one stays
  unfoldable pub normalized_onto : Dict String → List (String × String) → Dict String
  normalized_onto done [] = done
  normalized_onto done ((key, value) ∷ headers) =
      normalized_onto (Dict.insert (lower key) (strip value) done) headers

  unfoldable pub caller_context_from_headers :
      (headers : List (String × String)) → (correlation_id : String) → Result CallerContext
  unfolding normalized_onto context_of missing_headers
  caller_context_from_headers headers correlation_id =
      let normalized = normalized_onto [] headers in
      context_of (missing_headers normalized required_headers) normalized correlation_id
