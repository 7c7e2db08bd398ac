-- ===== src/Sqs/Endpoint/Authority.antt =====
-- What ParseEndpointOverride of sqs/SqsPlugin/SqsConfig.cpp gives for an endpoint.
use graftcode_extensions.Base.{
  ℕ, ◌≡◌, ◌≢◌, sym, ap, ◌∙◌, true, false, Bool, some, [], ◌∷◌, arith, Bytes, is_empty, pop_while,
  back, pop_while-Popped, ok, Bool-cases, inl, inr,
}
use graftcode_extensions.Sqs.Endpoint.{
  ParsedEndpoint, no_override, is_slash, trim, split_scheme, with_authority,
  parse_endpoint_override,
}

with_authority-eq-ok :
    (https : Bool) (a : Bytes) {e : ParsedEndpoint}
    → with_authority https a ≡ ok e
    → (a ≡ e.authority) × (a ≢ [])
unfolding with_authority
with_authority-eq-ok https [] h = absurd (cc)
with_authority-eq-ok https (c ∷ a) h = (ground arith, λ x. cc)

blank-parse : (s : Bytes) → is_empty (trim s) ≡ true → parse_endpoint_override s ≡ ok no_override
unfolding parse_endpoint_override
blank-parse s y = simp y

given-parse :
    (s : Bytes)
    → is_empty (trim s) ≡ false
    → parse_endpoint_override s
      ≡ with_authority (split_scheme (trim s)).0 (pop_while is_slash (split_scheme (trim s)).1)
unfolding parse_endpoint_override
given-parse s n = simp n

-- An endpoint that overrides the default has a host: its authority is neither empty nor ends in a
-- slash.
pub parse_endpoint_override-authority :
    (s : Bytes) {e : ParsedEndpoint}
    → parse_endpoint_override s ≡ ok e
    → e.overridden ≡ true
    → (e.authority ≢ []) × ((c : ℕ) → back e.authority ≡ some c → is_slash c ≡ false)
parse_endpoint_override-authority s {e} h o = elim (Bool-cases (is_empty (trim s))) [
  | inl y ↦
      let none_given : ok no_override ≡ ok e = sym (blank-parse s y) ∙ h in absurd (ground arith)
  | inr n ↦
      let host = pop_while is_slash (split_scheme (trim s)).1 in
      let (same, full) =
        with_authority-eq-ok (split_scheme (trim s)).0 host {e = e} (sym (given-parse s n) ∙ h) in
      (
        λ x. full (same ∙ x),
        λ c b. (pop_while-Popped is_slash (split_scheme (trim s)).1).stops c (ap back same ∙ b),
      )
]
