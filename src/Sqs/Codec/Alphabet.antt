-- ===== src/Sqs/Codec/Alphabet.antt =====
-- Which texts IsValidBase64 of sqs/SqsPlugin/SqsUtil.cpp accepts.
use graftcode_extensions.Base.{
  ℕ, ◌%◌, ◌≤◌, ◌≡◌, refl, ap, ◌∙◌, ◌↔◌, Bool, true, false, [], ◌∷◌, ◌++◌, arith, Bytes, length, All,
  Bool-cases, inl, inr, ◌==◌,
}
use graftcode_extensions.Sqs.Codec.{is_alphabet, base64_loop, is_valid_base64, within}

-- The 64 characters of table 1 of RFC 4648.
pub data IsLetter (c : ℕ) : Type 0 where
  upper : b'A' ≤ c → c ≤ b'Z' → IsLetter c
  lower : b'a' ≤ c → c ≤ b'z' → IsLetter c
  digit : b'0' ≤ c → c ≤ b'9' → IsLetter c
  plus : c ≡ b'+' → IsLetter c
  slash : c ≡ b'/' → IsLetter c

alphabet-IsLetter : (c : ℕ) → is_alphabet c ≡ true → IsLetter c
unfolding is_alphabet
alphabet-IsLetter c h = elim (Bool-cases (within b'A' b'Z' c)) [
  | inl y ↦ upper (ground arith) (ground arith)
  | inr n ↦ elim (Bool-cases (within b'a' b'z' c)) [
    | inl y ↦ lower (ground arith) (ground arith)
    | inr m ↦ elim (Bool-cases (within b'0' b'9' c)) [
      | inl y ↦ digit (ground arith) (ground arith)
      | inr k ↦ elim (Bool-cases (c == b'+')) [
        | inl y ↦ plus (ground arith)
        | inr l ↦ slash (ground arith)
      ]
    ]
  ]
]

IsLetter-alphabet : (c : ℕ) → IsLetter c → is_alphabet c ≡ true
unfolding is_alphabet
IsLetter-alphabet c (upper a b) = ground arith
IsLetter-alphabet c (lower a b) = ground arith
IsLetter-alphabet c (digit a b) = ground arith
IsLetter-alphabet c (plus e) = ground arith
IsLetter-alphabet c (slash e) = ground arith

-- Letters of the alphabet, then padding, in groups of four.
pub record IsBase64 (value : Bytes) : Type 0 where
  pub letters : Bytes
  pub padding : Bytes
  pub splits : value ≡ letters ++ padding
  pub all_letters : All IsLetter letters
  pub all_padding : All (λ c. (c == b'=') ≡ true) padding
  pub groups : length value % 4 ≡ 0

base64_loop-padding : (s : Bytes) → base64_loop true s ≡ true → All (λ c. (c == b'=') ≡ true) s
unfolding base64_loop
base64_loop-padding [] h = tt
base64_loop-padding (c ∷ s) h = ground (arith, base64_loop-padding s)

record Split (s : Bytes) : Type 0 where
  letters : Bytes
  padding : Bytes
  splits : s ≡ letters ++ padding
  all_letters : All IsLetter letters
  all_padding : All (λ c. (c == b'=') ≡ true) padding

base64_loop-Split : (s : Bytes) → base64_loop false s ≡ true → Split s
unfolding base64_loop
base64_loop-Split [] h = record {
  letters = [];
  padding = [];
  splits = refl;
  all_letters = tt;
  all_padding = tt;
}
base64_loop-Split (c ∷ s) h = elim (Bool-cases (c == b'=')) [
  | inl y ↦ record {
    letters = [];
    padding = c ∷ s;
    splits = refl;
    all_letters = tt;
    all_padding = (y, base64_loop-padding s (ground arith));
  }
  | inr n ↦
      let r = base64_loop-Split s (ground arith) in
      record {
        letters = c ∷ r.letters;
        padding = r.padding;
        splits = ap (◌∷◌ c) r.splits;
        all_letters = (alphabet-IsLetter c (ground arith), r.all_letters);
        all_padding = r.all_padding;
      }
]

padding-base64_loop :
    (p : Bool) (s : Bytes) → All (λ c. (c == b'=') ≡ true) s → base64_loop p s ≡ true
unfolding base64_loop
padding-base64_loop p [] a = refl
padding-base64_loop p (c ∷ s) a = ground (arith, padding-base64_loop true s a.1)

letters-base64_loop :
    (l s : Bytes)
    → All IsLetter l
    → All (λ c. (c == b'=') ≡ true) s
    → base64_loop false (l ++ s) ≡ true
unfolding base64_loop
letters-base64_loop [] s a b = padding-base64_loop false s b
letters-base64_loop (c ∷ l) s a b =
    ground (arith, IsLetter-alphabet c a.0, letters-base64_loop l s a.1 b)

valid-IsBase64 : (value : Bytes) → is_valid_base64 value ≡ true → IsBase64 value
unfolding is_valid_base64
valid-IsBase64 [] h = record {
  letters = [];
  padding = [];
  splits = refl;
  all_letters = tt;
  all_padding = tt;
  groups = omega arith;
}
valid-IsBase64 (c ∷ s) h =
    let r = base64_loop-Split (c ∷ s) (ground arith) in
    record {
      letters = r.letters;
      padding = r.padding;
      splits = r.splits;
      all_letters = r.all_letters;
      all_padding = r.all_padding;
      groups = ground arith;
    }

IsBase64-valid : (value : Bytes) → IsBase64 value → is_valid_base64 value ≡ true
unfolding is_valid_base64
IsBase64-valid value b =
    let e =
      ap (base64_loop false) b.splits
      ∙ letters-base64_loop b.letters b.padding b.all_letters b.all_padding in
    ground arith

-- IsValidBase64 accepts exactly the texts of letters followed by padding whose length is a multiple
-- of four; the number of padding bytes is not looked at.
pub is_valid_base64_iff : (value : Bytes) → (is_valid_base64 value ≡ true) ↔ IsBase64 value
is_valid_base64_iff value = (valid-IsBase64 value, IsBase64-valid value)
