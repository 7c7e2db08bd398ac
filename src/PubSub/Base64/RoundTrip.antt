-- ===== src/PubSub/Base64/RoundTrip.antt =====
-- What Base64Encode of pubsub/PubSubPlugin/PubSubUtil.cpp writes Base64Decode reads back.
use mathlib.Core.Path.{ap₂}
use graftcode_extensions.Base.{
  ℕ, ◌+◌, ◌*◌, ◌/◌, ◌%◌, ◌^◌, ◌<◌, ◌≡◌, refl, sym, ap, ◌∙◌, true, false, some, [], ◌∷◌, ◌++◌, arith,
  Bytes, All, All-append, ◌>>=◌, ◌⊎◌, inl, inr, back, pop_while, pop_while-append, Result, ok,
}
use graftcode_extensions.Sqs.Codec.{Span, span, null_span, span_bytes}
use graftcode_extensions.PubSub.Base64.{
  table_digit, digit_at, encode_bytes, base64_encode, base64_value, keeps, filter_base64, push_byte,
  decode_loop, is_padding, base64_decode,
}

base64_value-table_digit : (n : ℕ) → n < 64 → base64_value (table_digit n) ≡ some n
unfolding base64_value table_digit
base64_value-table_digit n h = ground arith

keeps-table_digit : (n : ℕ) → n < 64 → keeps (table_digit n) ≡ some true
unfolding keeps
keeps-table_digit n h = ground (arith, base64_value-table_digit n h)

plain-table_digit : (n : ℕ) → n < 64 → is_padding (table_digit n) ≡ false
unfolding table_digit
plain-table_digit n h = ground arith

abbrev word : ℕ → ℕ → ℕ
word acc n = acc * 2 ^ 6 % 2 ^ 32 + n

-- One digit of the last loop, by the bits that are left before it.
module _ (acc n : ℕ) (s : Bytes) (h : n < 64) where
  decode_loop_zero : decode_loop acc 0 (table_digit n ∷ s) ≡ decode_loop (word acc n) 6 s
  unfolding decode_loop push_byte
  decode_loop_zero = rw (decode_loop, base64_value-table_digit n h) refl

  decode_loop_six :
      decode_loop acc 6 (table_digit n ∷ s)
      ≡ push_byte true (word acc n / 2 ^ 4 % 2 ^ 8) (decode_loop (word acc n) 4 s)
  unfolding decode_loop
  decode_loop_six = rw (decode_loop, base64_value-table_digit n h) refl

  decode_loop_four :
      decode_loop acc 4 (table_digit n ∷ s)
      ≡ push_byte true (word acc n / 2 ^ 2 % 2 ^ 8) (decode_loop (word acc n) 2 s)
  unfolding decode_loop
  decode_loop_four = rw (decode_loop, base64_value-table_digit n h) refl

  decode_loop_two :
      decode_loop acc 2 (table_digit n ∷ s)
      ≡ push_byte true (word acc n / 2 ^ 0 % 2 ^ 8) (decode_loop (word acc n) 0 s)
  unfolding decode_loop
  decode_loop_two = rw (decode_loop, base64_value-table_digit n h) refl

first_byte :
    (acc a b c : ℕ)
    → a < 256
    → b < 256
    → c < 256
    → let v = a * 2 ^ 16 + b * 2 ^ 8 + c in
      word (word acc (v / 2 ^ 18 % 64)) (v / 2 ^ 12 % 64) / 2 ^ 4 % 2 ^ 8 ≡ a
first_byte acc a b c ha hb hc = omega arith

second_byte :
    (acc a b c : ℕ)
    → a < 256
    → b < 256
    → c < 256
    → let v = a * 2 ^ 16 + b * 2 ^ 8 + c in
      word (word acc (v / 2 ^ 12 % 64)) (v / 2 ^ 6 % 64) / 2 ^ 2 % 2 ^ 8 ≡ b
second_byte acc a b c ha hb hc = omega arith

third_byte :
    (acc a b c : ℕ)
    → a < 256
    → b < 256
    → c < 256
    → let v = a * 2 ^ 16 + b * 2 ^ 8 + c in
      word (word acc (v / 2 ^ 6 % 64)) (v / 2 ^ 0 % 64) / 2 ^ 0 % 2 ^ 8 ≡ c
third_byte acc a b c ha hb hc = omega arith

-- The digits without the padding.
abbrev pub digits : Bytes → Bytes
digits (a ∷ b ∷ c ∷ rest) =
    let v = a * 2 ^ 16 + b * 2 ^ 8 + c in
    digit_at v 18 ∷ digit_at v 12 ∷ digit_at v 6 ∷ digit_at v 0 ∷ digits rest
digits (a ∷ b ∷ []) =
    let v = a * 2 ^ 16 + b * 2 ^ 8 + 0 in digit_at v 18 ∷ digit_at v 12 ∷ digit_at v 6 ∷ []
digits (a ∷ []) = let v = a * 2 ^ 16 + 0 * 2 ^ 8 + 0 in digit_at v 18 ∷ digit_at v 12 ∷ []
digits [] = []

decode_loop_end : (acc bits : ℕ) → decode_loop acc bits [] ≡ ok []
unfolding decode_loop
decode_loop_end acc bits = refl

push_byte-ok :
    {x c : ℕ} {r : Result Bytes} {s : Bytes} → x ≡ c → r ≡ ok s → push_byte true x r ≡ ok (c ∷ s)
unfolding push_byte
push_byte-ok {x} {c} {r} {s} e f = ap₂ (push_byte true) e f

decode_loop-digits :
    (acc : ℕ) (s : Bytes) → All (λ c. c < 256) s → decode_loop acc 0 (digits s) ≡ ok s
decode_loop-digits acc [] h = decode_loop_end acc 0
decode_loop-digits acc (a ∷ []) h =
    let v = a * 2 ^ 16 + 0 * 2 ^ 8 + 0 in
    let w = word acc (v / 2 ^ 18 % 64) in
    decode_loop_zero acc (v / 2 ^ 18 % 64) _ (omega arith)
    ∙ decode_loop_six w (v / 2 ^ 12 % 64) [] (omega arith)
    ∙ push_byte-ok (first_byte acc a 0 0 h.0 (omega arith) (omega arith)) (decode_loop_end _ 4)
decode_loop-digits acc (a ∷ b ∷ []) h =
    let v = a * 2 ^ 16 + b * 2 ^ 8 + 0 in
    let w = word acc (v / 2 ^ 18 % 64) in
    let w' = word w (v / 2 ^ 12 % 64) in
    decode_loop_zero acc (v / 2 ^ 18 % 64) _ (omega arith)
    ∙ decode_loop_six w (v / 2 ^ 12 % 64) _ (omega arith)
    ∙ push_byte-ok (first_byte acc a b 0 h.0 h.1.0 (omega arith)) (
        decode_loop_four w' (v / 2 ^ 6 % 64) [] (omega arith)
        ∙ push_byte-ok (second_byte w a b 0 h.0 h.1.0 (omega arith)) (decode_loop_end _ 2))
decode_loop-digits acc (a ∷ b ∷ c ∷ rest) h =
    let v = a * 2 ^ 16 + b * 2 ^ 8 + c in
    let w = word acc (v / 2 ^ 18 % 64) in
    let w' = word w (v / 2 ^ 12 % 64) in
    let w'' = word w' (v / 2 ^ 6 % 64) in
    decode_loop_zero acc (v / 2 ^ 18 % 64) _ (omega arith)
    ∙ decode_loop_six w (v / 2 ^ 12 % 64) _ (omega arith)
    ∙ push_byte-ok (first_byte acc a b c h.0 h.1.0 h.1.1.0) (
        decode_loop_four w' (v / 2 ^ 6 % 64) _ (omega arith)
        ∙ push_byte-ok (second_byte w a b c h.0 h.1.0 h.1.1.0) (
            decode_loop_two w'' (v / 2 ^ 0 % 64) (digits rest) (omega arith)
            ∙ push_byte-ok (third_byte w' a b c h.0 h.1.0 h.1.1.0)
                (decode_loop-digits (word w'' (v / 2 ^ 0 % 64)) rest h.1.1.1)))

-- The padding behind the digits.
abbrev pub padding : Bytes → Bytes
padding (a ∷ b ∷ c ∷ rest) = padding rest
padding (a ∷ b ∷ []) = b'=' ∷ []
padding (a ∷ []) = b'=' ∷ b'=' ∷ []
padding [] = []

pub encode_bytes-splits : (s : Bytes) → encode_bytes s ≡ digits s ++ padding s
unfolding encode_bytes
encode_bytes-splits [] = refl
encode_bytes-splits (a ∷ []) = ground arith
encode_bytes-splits (a ∷ b ∷ []) = ground arith
encode_bytes-splits (a ∷ b ∷ c ∷ rest) = ground (arith, encode_bytes-splits rest)

pub All-padding : (s : Bytes) → All (λ c. is_padding c ≡ true) (padding s)
All-padding [] = tt
All-padding (a ∷ []) = (refl, (refl, tt))
All-padding (a ∷ b ∷ []) = (refl, tt)
All-padding (a ∷ b ∷ c ∷ rest) = All-padding rest

filter_base64-kept : (s : Bytes) → All (λ c. keeps c ≡ some true) s → filter_base64 s ≡ ok s
unfolding filter_base64
filter_base64-kept [] h = refl
filter_base64-kept (c ∷ s) h = ground (arith, filter_base64-kept s h.1)

kept-digits : (s : Bytes) → All (λ c. keeps c ≡ some true) (digits s)
kept-digits [] = tt
kept-digits (a ∷ []) = (keeps-table_digit _ (omega arith), (keeps-table_digit _ (omega arith), tt))
kept-digits (a ∷ b ∷ []) = (
  keeps-table_digit _ (omega arith),
  (keeps-table_digit _ (omega arith), (keeps-table_digit _ (omega arith), tt)),
)
kept-digits (a ∷ b ∷ c ∷ rest) = (
  keeps-table_digit _ (omega arith),
  (
    keeps-table_digit _ (omega arith),
    (keeps-table_digit _ (omega arith), (keeps-table_digit _ (omega arith), kept-digits rest)),
  ),
)

keeps_padding : keeps b'=' ≡ some true
unfolding keeps
keeps_padding = refl

kept-padding : (s : Bytes) → All (λ c. keeps c ≡ some true) (padding s)
kept-padding [] = tt
kept-padding (a ∷ []) = (keeps_padding, (keeps_padding, tt))
kept-padding (a ∷ b ∷ []) = (keeps_padding, tt)
kept-padding (a ∷ b ∷ c ∷ rest) = kept-padding rest

back-skip : (x : ℕ) (s : Bytes) {c : ℕ} → back s ≡ some c → back (x ∷ s) ≡ some c
unfolding back
back-skip x [] h = absurd (cc)
back-skip x (d ∷ s) h = h

record Ends (s : Bytes) : Type 0 where
  last : ℕ
  at_back : back s ≡ some last
  plain : is_padding last ≡ false

last_digit : (n : ℕ) → n < 64 → Ends (table_digit n ∷ [])
unfolding back
last_digit n h = record { last = table_digit n; at_back = refl; plain = plain-table_digit n h }

Ends-skip : (x : ℕ) (s : Bytes) → Ends s → Ends (x ∷ s)
Ends-skip x s e = record { last = e.last; at_back = back-skip x s e.at_back; plain = e.plain }

digits-Ends : (s : Bytes) → (s ≡ []) ⊎ Ends (digits s)
digits-Ends [] = inl refl
digits-Ends (a ∷ []) = inr (Ends-skip _ _ (last_digit _ (omega arith)))
digits-Ends (a ∷ b ∷ []) = inr (Ends-skip _ _ (Ends-skip _ _ (last_digit _ (omega arith))))
digits-Ends (a ∷ b ∷ c ∷ []) =
    inr (Ends-skip _ _ (Ends-skip _ _ (Ends-skip _ _ (last_digit _ (omega arith)))))
digits-Ends (a ∷ b ∷ c ∷ d ∷ rest) = elim (digits-Ends (d ∷ rest)) [
  | inl e ↦ absurd (cc)
  | inr e ↦ inr (Ends-skip _ _ (Ends-skip _ _ (Ends-skip _ _ (Ends-skip _ _ e))))
]

stripped :
    (s : Bytes)
    → (s ≡ []) ⊎ Ends (digits s)
    → pop_while is_padding (digits s ++ padding s) ≡ digits s
unfolding pop_while
stripped s (inl e) = rw e refl
stripped s (inr e) =
    pop_while-append is_padding (digits s) (padding s) e.last e.at_back e.plain (All-padding s)

decode-encode_bytes : (s : Bytes) → All (λ c. c < 256) s → base64_decode (encode_bytes s) ≡ ok s
unfolding base64_decode
decode-encode_bytes s h =
    ap (λ t. filter_base64 t >>= λ f. decode_loop 0 0 (pop_while is_padding f))
      (encode_bytes-splits s)
    ∙ ap (λ (r : Result Bytes). r >>= λ f. decode_loop 0 0 (pop_while is_padding f))
        (filter_base64-kept (digits s ++ padding s)
          (All-append _ (digits s) (padding s) (kept-digits s) (kept-padding s)))
    ∙ ap (decode_loop 0 0) (stripped s (digits-Ends s))
    ∙ decode_loop-digits 0 s h

ok_eq : {s t : Bytes} → ok s ≡ ok t → s ≡ t
ok_eq e = cc

null-base64_encode : (n : ℕ) {text : Bytes} → base64_encode (null_span n) ≡ ok text → text ≡ []
unfolding base64_encode
null-base64_encode n e = ground arith

-- What Base64Encode writes for bytes, however many there are, Base64Decode reads back.
pub base64_decode-encode :
    (s : Span) {text : Bytes}
    → All (λ c. c < 256) (span_bytes s)
    → base64_encode s ≡ ok text
    → base64_decode text ≡ ok (span_bytes s)
unfolding base64_encode
base64_decode-encode (span bytes) h e =
    ap base64_decode (sym (ok_eq e)) ∙ decode-encode_bytes bytes h
base64_decode-encode (null_span n) h e =
    ap base64_decode (null-base64_encode n e) ∙ decode-encode_bytes [] tt
