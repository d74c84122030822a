-- ===== src/Http/Tests.antt =====
-- The theorems on responses and on callers at concrete data.
use lotus_archive.Prelude.{String, ◌≡◌, refl, some, none, List, [], ◌∷◌, ◌⊎◌, true, false}
use lotus_archive.Errors.{ok, err, caller_context_missing}
use lotus_archive.Audit.{CallerContext}
use lotus_archive.Http.Caller.{normalized_onto, caller_context_from_headers}
use lotus_archive.Http.Trace.{is_w3c_trace_id, traceparent_header, resolve_trace_id}
use lotus_archive.Http.Trace.Travel.{trace_ids_travel}
use lotus_archive.Http.Callers.{IsHeaderCaller, NamesBlanks, callers_are_read_or_refused}

abbrev headers : List (String × String)
headers = ("x-caller-service", "lotus-report") ∷ ("x-actor-id", "u1") ∷ []

callers_are_read_or_refused_example :
    ((caller : CallerContext) × (caller_context_from_headers (λ s. s) (λ s. s) headers "c1"
        ≡ ok caller)
      × IsHeaderCaller (normalized_onto (λ s. s) (λ s. s) [] headers) caller)
    ⊎ ((header : String) × (others : List String) × (caller_context_from_headers
            (λ s. s)
            (λ s. s)
            headers
            "c1"
          ≡ err (caller_context_missing (header ∷ others)))
        × NamesBlanks (normalized_onto (λ s. s) (λ s. s) [] headers) (header ∷ others))
callers_are_read_or_refused_example = callers_are_read_or_refused (λ s. s) (λ s. s) headers "c1"

abbrev trace : String
trace = "0af7651916cd43dd8448eb211c80319c"

trace_ids_travel_example :
    ((is_w3c_trace_id trace ≡ true)
      × (resolve_trace_id (λ name. traceparent_header trace) ≡ some trace))
    ⊎ ((is_w3c_trace_id trace ≡ false) × (traceparent_header trace ≡ none))
trace_ids_travel_example = trace_ids_travel trace (λ name. traceparent_header trace) refl
