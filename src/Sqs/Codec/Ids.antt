-- ===== src/Sqs/Codec/Ids.antt =====
-- NewCorrelationId of sqs/SqsPlugin/SqsUtil.cpp: ids of different random words differ.
use mathlib.Core.Path.{ap₂}
use native.Mathlib.Nat.{pow-suc, div-lt_iff_lt-mul}
use graftcode_extensions.Base.{
  subst, ℕ, zero, suc, ◌/◌, ◌%◌, ◌^◌, ◌<◌, ◌≡◌, refl, sym, ap, ◌∙◌, some, [], ◌∷◌, arith, length,
  length-append, take, take-append_length, drop, drop-append_length, back, back-concat, pop_back,
  pop_back-concat,
}
use graftcode_extensions.Sqs.Codec.{hex_digit, hex_word, new_correlation_id}

pub length-hex_word : (k n : ℕ) → length (hex_word k n) ≡ k
unfolding hex_word
length-hex_word zero n = refl
length-hex_word (suc k) n = omega (
  arith,
  length-append (hex_word k (n / 16)) (hex_digit (n % 16) ∷ []),
  length-hex_word k (n / 16),
)

hex_digit_injective : (a b : ℕ) → a < 16 → b < 16 → hex_digit a ≡ hex_digit b → a ≡ b
unfolding hex_digit
hex_digit_injective a b h k e = ground arith

some_eq : {a b : ℕ} → some a ≡ some b → a ≡ b
some_eq e = cc

shrink : (n k : ℕ) → n < 16 ^ suc k → n / 16 < 16 ^ k
shrink n k h = (div-lt_iff_lt-mul (omega arith)).1 (subst (λ m. n < m) (pow-suc 16 k) h)

pub hex_word_injective : (k a b : ℕ) → a < 16 ^ k → b < 16 ^ k → hex_word k a ≡ hex_word k b → a ≡ b
unfolding hex_word
hex_word_injective zero a b h k e = omega arith
hex_word_injective (suc k) a b ha hb e =
    let last : hex_digit (a % 16) ≡ hex_digit (b % 16) = some_eq (
      sym (back-concat (hex_word k (a / 16)) (hex_digit (a % 16)))
      ∙ ap back e
      ∙ back-concat (hex_word k (b / 16)) (hex_digit (b % 16))) in
    let rest : hex_word k (a / 16) ≡ hex_word k (b / 16) =
      sym (pop_back-concat (hex_word k (a / 16)) (hex_digit (a % 16)))
      ∙ ap pop_back e
      ∙ pop_back-concat (hex_word k (b / 16)) (hex_digit (b % 16)) in
    let high = hex_word_injective k (a / 16) (b / 16) (shrink a k ha) (shrink b k hb) rest in
    let low = hex_digit_injective (a % 16) (b % 16) (omega arith) (omega arith) last in omega arith

-- An id has 32 characters.
pub length-new_correlation_id : (a b : ℕ) → length (new_correlation_id a b) ≡ 32
unfolding new_correlation_id
length-new_correlation_id a b = omega (
  arith,
  length-append (hex_word 16 a) (hex_word 16 b),
  length-hex_word 16 a,
  length-hex_word 16 b,
)

-- Two ids are equal only if both 64-bit words of the random engine are.
pub new_correlation_id_injective :
    (a b c d : ℕ)
    → a < 2 ^ 64
    → b < 2 ^ 64
    → c < 2 ^ 64
    → d < 2 ^ 64
    → new_correlation_id a b ≡ new_correlation_id c d
    → (a ≡ c) × (b ≡ d)
unfolding new_correlation_id
new_correlation_id_injective a b c d ha hb hc hd e =
    let n = length-hex_word 16 a in
    let m = length-hex_word 16 c in
    let first : hex_word 16 a ≡ hex_word 16 c =
      sym (take-append_length (hex_word 16 a) (hex_word 16 b))
      ∙ ap₂ take (n ∙ sym m) e
      ∙ take-append_length (hex_word 16 c) (hex_word 16 d) in
    let second : hex_word 16 b ≡ hex_word 16 d =
      sym (drop-append_length (hex_word 16 a) (hex_word 16 b))
      ∙ ap₂ drop (n ∙ sym m) e
      ∙ drop-append_length (hex_word 16 c) (hex_word 16 d) in
    (hex_word_injective 16 a c ha hc first, hex_word_injective 16 b d hb hd second)
