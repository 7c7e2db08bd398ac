-- ===== src/Tests/Fixtures.antt =====
-- Concrete stand-ins for what is not in the repository: a small JSON library whose values are texts
-- and objects, and a Base64.
use graftcode_extensions.Base.{
  ℕ, suc, ◌+◌, ◌%◌, ◌≤◌, ◌<◌, ◌≡◌, refl, some, List, [], ◌∷◌, map, arith, Bytes, codes, length, All,
  ap, ltb, ◌==◌, Bool-cases, inl, inr, Result, ok, throw,
}
use graftcode_extensions.Json.{View, JsonLibrary, string, object, children}
use graftcode_extensions.Sqs.Codec.{Base64, span}
use graftcode_extensions.Sqs.Codec.Alphabet.{IsLetter, upper, lower, digit, plus, slash}
use graftcode_extensions.Sqs.Codec.RoundTrip.{IsRfc4648}
use graftcode_extensions.PubSub.Base64.{table_digit, encode_bytes, base64_encode, base64_decode}
use graftcode_extensions.PubSub.Base64.RoundTrip.{
  digits, padding, encode_bytes-splits, All-padding, base64_decode-encode,
}

-- A text, or an object as the chain of its members.
pub data Doc : Type 0 where
  text : Bytes → Doc
  blank : Doc
  member : Bytes → Doc → Doc → Doc

unfoldable pub doc_members : Doc → List (Bytes × Doc)
doc_members (text s) = []
doc_members blank = []
doc_members (member key value rest) = (key, value) ∷ doc_members rest

unfoldable pub doc_view : Doc → View Doc
unfolding doc_members
doc_view (text s) = string s
doc_view blank = object []
doc_view (member key value rest) = object ((key, value) ∷ doc_members rest)

unfoldable pub doc_size : Doc → ℕ
doc_size (text s) = 0
doc_size blank = 0
doc_size (member key value rest) = suc (doc_size value + doc_size rest)

members_smaller :
    (d : Doc) (n : ℕ)
    → doc_size d ≤ n
    → All (λ c. doc_size c < suc n) (map (λ m. m.1) (doc_members d))
unfolding doc_members doc_size
members_smaller (text s) n h = tt
members_smaller blank n h = tt
members_smaller (member key value rest) n h = (omega arith, members_smaller rest n (omega arith))

pub doc_smaller : (d : Doc) → All (λ c. doc_size c < doc_size d) (children (doc_view d))
unfolding doc_view doc_size
doc_smaller (text s) = tt
doc_smaller blank = tt
doc_smaller (member key value rest) =
    (omega arith, members_smaller rest (doc_size value + doc_size rest) (omega arith))

-- Every text parses to one value.
abbrev pub doc_library : Doc → JsonLibrary
doc_library d = record {
  Json = Doc;
  view = doc_view;
  parse = λ source. some d;
  parse_error = λ source. codes "parse error";
  size = doc_size;
  children_smaller = doc_smaller;
}

-- The Base64 of the Pub/Sub plugin, which is that of RFC 4648, in the place of the SDK's.
abbrev pub decode_or_empty : Result Bytes → Bytes
decode_or_empty (ok bytes) = bytes
decode_or_empty (throw e) = []

unfoldable pub rfc_decode : Bytes → Bytes
rfc_decode s = decode_or_empty (base64_decode s)

abbrev pub rfc : Base64
rfc = record { encode = encode_bytes; decode = rfc_decode }

digit_letter : (n : ℕ) → n < 64 → IsLetter (table_digit n)
unfolding table_digit
digit_letter n h = elim (Bool-cases (ltb n 26)) [
  | inl y ↦ upper (ground arith) (ground arith)
  | inr a ↦ elim (Bool-cases (ltb n 52)) [
    | inl y ↦ lower (ground arith) (ground arith)
    | inr b ↦ elim (Bool-cases (ltb n 62)) [
      | inl y ↦ digit (ground arith) (ground arith)
      | inr c ↦ elim (Bool-cases (n == 62)) [
        | inl y ↦ plus (ground arith)
        | inr d ↦ slash (ground arith)
      ]
    ]
  ]
]

digit_letters : (s : Bytes) → All IsLetter (digits s)
digit_letters [] = tt
digit_letters (a ∷ []) = (digit_letter _ (omega arith), (digit_letter _ (omega arith), tt))
digit_letters (a ∷ b ∷ []) = (
  digit_letter _ (omega arith),
  (digit_letter _ (omega arith), (digit_letter _ (omega arith), tt)),
)
digit_letters (a ∷ b ∷ c ∷ rest) = (
  digit_letter _ (omega arith),
  (
    digit_letter _ (omega arith),
    (digit_letter _ (omega arith), (digit_letter _ (omega arith), digit_letters rest)),
  ),
)

encoded_groups : (s : Bytes) → length (encode_bytes s) % 4 ≡ 0
unfolding encode_bytes
encoded_groups [] = omega arith
encoded_groups (a ∷ []) = omega arith
encoded_groups (a ∷ b ∷ []) = omega arith
encoded_groups (a ∷ b ∷ c ∷ rest) = omega (arith, encoded_groups rest)

encoded_inverse : (s : Bytes) → All (λ c. c < 256) s → rfc_decode (encode_bytes s) ≡ s
unfolding rfc_decode
encoded_inverse s h =
    ap decode_or_empty
      (base64_decode-encode (span s) {text = encode_bytes s} h (unfold base64_encode in refl))

pub rfc-IsRfc4648 : IsRfc4648 rfc
unfolding encode_bytes
rfc-IsRfc4648 = record {
  well_formed = λ s h. record {
    letters = digits s;
    padding = padding s;
    splits = encode_bytes-splits s;
    all_letters = digit_letters s;
    all_padding = All-padding s;
    groups = encoded_groups s;
  };
  inverse = encoded_inverse;
  empty = refl;
}
