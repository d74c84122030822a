-- ===== src/Http/Trace/Travel.antt =====
-- A trace identifier between the service that sends it and the one that reads it.
use Prim.Native.Char.{Char}
use Prim.Native.String.append
use lotus_archive.Prelude.{
  String, ◌<>◌, ◌≡◌, ◌≢◌, refl, sym, ap, ◌∙◌, ◌⊎◌, inl, inr, Bool-cases, true, false, Option, none,
  some, [], ◌∷◌, arith, ◌==◌, string_eq, nat_eq,
}
use native.Mathlib.Decide.{ℕ_discrete}
use lotus_archive.Prelude.Texts.{all_hex, split_on, prepend}
use lotus_archive.Http.Trace.{
  is_w3c_trace_id, traceparent_header, traced_part, from_traceparent, resolve_trace_id, first_of,
  or_else,
}

-- the dash is written as its character and the empty text
dash : (rest : String) → ("-" <> rest) ≡ String.◌∷◌ "-" rest
dash rest = append.cons "-" String.[] rest ∙ ap (String.◌∷◌ "-") (append.nil rest)

split_on-dash : (rest : String) → split_on b'-' ("-" <> rest) ≡ "" ∷ split_on b'-' rest
unfolding split_on ℕ_discrete
split_on-dash rest = ap (split_on b'-') (dash rest)

-- a text of hexadecimal digits ends where a dash follows it
split_on-hex :
    (s rest : String)
    → all_hex s ≡ true
    → split_on b'-' (s <> ("-" <> rest)) ≡ s ∷ split_on b'-' rest
unfolding split_on all_hex prepend
split_on-hex String.[] rest h = ap (split_on b'-') (append.nil ("-" <> rest)) ∙ split_on-dash rest
split_on-hex (String.◌∷◌ c s) rest h =
    rw (append.cons c s ("-" <> rest)) (ground (arith, split_on-hex s rest))

abbrev header_text : String → String
header_text t = "00" <> ("-" <> (t <> ("-" <> "0000000000000001-01")))

header_parts :
    (t : String)
    → all_hex t ≡ true
    → split_on b'-' (header_text t) ≡ "00" ∷ t ∷ "0000000000000001" ∷ "01" ∷ []
unfolding split_on all_hex prepend ℕ_discrete
header_parts t h =
    split_on-hex "00" (t <> ("-" <> "0000000000000001-01")) refl
    ∙ ap (◌∷◌ "00") (split_on-hex t "0000000000000001-01" h)

not-empty : (c : Char) (s : String) → String.◌∷◌ c s ≢ ""
not-empty c s e = cc

started : (t : String) → header_text t ≢ ""
started t e =
    not-empty _ _ (sym (append.cons "0" "0" ("-" <> (t <> ("-" <> "0000000000000001-01")))) ∙ e)

filled : (t : String) → (header_text t == "") ≡ false
filled t = ground (arith, started t)

module _ (t : String) (valid : is_w3c_trace_id t ≡ true) where
  hexadecimal : all_hex t ≡ true
  unfolding is_w3c_trace_id
  hexadecimal = ground arith

  from_header_text : from_traceparent (some (header_text t)) ≡ some t
  unfolding from_traceparent traced_part
  from_header_text = rw (filled t, header_parts t hexadecimal, valid) refl

-- A well-formed trace identifier that is written to a `traceparent` header is the one that is read of a request with
-- that header, whatever its other headers are; any other identifier is written to no such header.
pub trace_ids_travel :
    (t : String) (get : String → Option String)
    → get "traceparent" ≡ traceparent_header t
    → ((is_w3c_trace_id t ≡ true) × (resolve_trace_id get ≡ some t))
      ⊎ ((is_w3c_trace_id t ≡ false) × (get "traceparent" ≡ none))
unfolding traceparent_header resolve_trace_id first_of
trace_ids_travel t get sent = elim (Bool-cases (is_w3c_trace_id t)) [
  | inl valid ↦
      let written : get "traceparent" ≡ some (header_text t) = rw valid at sent in
      inl (
        valid,
        ap (λ o. first_of o (or_else (get "X-Trace-Id") (get "X-Trace-ID")))
            (ap from_traceparent written ∙ from_header_text t valid),
      )
  | inr other ↦ inr (other, rw other at sent)
]
