-- ===== src/RabbitMq/Relaxed.antt =====
-- normalizeRelaxedJson of rabbitmq/RabbitmqPlugin/RabbitMqServer.cpp, which
-- servicebus/ServiceBusPlugin/ServiceBusServer.cpp repeats: `=` for `:` outside of strings.
use graftcode_extensions.Base.{
  ℕ, ◌≡◌, Bool, false, not, ◌&&◌, List, [], ◌∷◌, ◌++◌, map, Bytes, All, ◌==◌, if◌then◌else◌,
}

abbrev pub next_in_string : Bool → ℕ → ℕ → Bool
next_in_string in_string prev c =
    if c == b'"' && not (prev == b'\\') then not in_string else in_string

abbrev pub relaxed_byte : Bool → ℕ → ℕ
relaxed_byte in_string c = if not in_string && c == b'=' then b':' else c

-- The loop from a state of `inString` and `prev`; `prev` is what was written.
unfoldable pub normalize_from : Bool → ℕ → Bytes → Bytes
normalize_from in_string prev [] = []
normalize_from in_string prev (c ∷ source) =
    let inside = next_in_string in_string prev c in
    let written = relaxed_byte inside c in written ∷ normalize_from inside written source

unfoldable pub normalize_relaxed_json : Bytes → Bytes
unfolding normalize_from
normalize_relaxed_json source = normalize_from false 0 source

-- A part of a text without a quote or a backslash.
abbrev pub IsPlain : Bytes → Type 0
IsPlain part = All (λ c. ((c == b'"') ≡ false) × ((c == b'\\') ≡ false)) part

-- Parts outside of strings, each but the last followed by a string.
abbrev pub render : List (Bytes × Bytes) → Bytes → Bytes
render [] last = last
render ((outside, inside) ∷ parts) last = outside ++ b'"' ∷ (inside ++ b'"' ∷ render parts last)

abbrev pub colons : Bytes → Bytes
colons part = map (relaxed_byte false) part

abbrev pub relaxed_parts : List (Bytes × Bytes) → List (Bytes × Bytes)
relaxed_parts [] = []
relaxed_parts ((outside, inside) ∷ parts) = (colons outside, inside) ∷ relaxed_parts parts

abbrev pub ArePlain : List (Bytes × Bytes) → Type 0
ArePlain parts = All (λ p. IsPlain p.0 × IsPlain p.1) parts
