-- ===== src/Http/Trace.antt =====
-- The trace identifier of a request: `middleware/correlation.py`. `get` looks up a header, whatever the case
-- of its name.
pub mod Travel
use Prim.Native.String.{count}
use lotus_archive.Prelude.{
  ℕ, String, ◌<>◌, Bool, true, false, ◌&&◌, Option, none, some, List, [], ◌∷◌, ◌==◌, string_eq,
  nat_eq, if◌then◌else◌,
}
use lotus_archive.Prelude.Texts.{all_hex, split_on}

-- `_is_w3c_trace_id`: the pattern `^[0-9a-f]{32}$`
unfoldable pub is_w3c_trace_id : String → Bool
is_w3c_trace_id s = count s == 32 && all_hex s

-- `_traceparent_header`
unfoldable pub traceparent_header : String → Option String
traceparent_header trace_id =
    if is_w3c_trace_id trace_id
    then some ("00" <> ("-" <> (trace_id <> ("-" <> "0000000000000001-01"))))
    else none

-- `parts[1]`, where there are four parts or more
unfoldable pub traced_part : List String → Option String
traced_part (_ ∷ trace_id ∷ _ ∷ _ ∷ _) = if is_w3c_trace_id trace_id then some trace_id else none
traced_part _ = none

-- `a or b`
unfoldable pub or_else : Option String → Option String → Option String
or_else none b = b
or_else (some a) b = if a == "" then b else some a

-- the trace identifier of the `traceparent` header, if that is there and well-formed
unfoldable pub from_traceparent : Option String → Option String
unfolding traced_part
from_traceparent none = none
from_traceparent (some header) = if header == "" then none else traced_part (split_on b'-' header)

unfoldable pub first_of : Option String → Option String → Option String
first_of none fallback = fallback
first_of (some trace_id) fallback = some trace_id

-- `_resolve_trace_id`
unfoldable pub resolve_trace_id : (get : String → Option String) → Option String
unfolding from_traceparent or_else first_of
resolve_trace_id get =
    first_of (from_traceparent (get "traceparent")) (or_else (get "X-Trace-Id") (get "X-Trace-ID"))
