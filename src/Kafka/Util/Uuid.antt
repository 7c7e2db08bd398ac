-- ===== src/Kafka/Util/Uuid.antt =====
-- makeUuidV4 of kafka/KafkaPlugin/KafkaUtil.h: the form of an id, and which random words collide.
use graftcode_extensions.Base.{
  ℕ, ◌+◌, ◌*◌, ◌/◌, ◌%◌, ◌^◌, ◌<◌, ◌≡◌, refl, sym, ◌∙◌, [], ◌∷◌, ◌++◌, arith, length, length-append,
  Bytes,
}
use graftcode_extensions.Sqs.Codec.{hex_word}
use graftcode_extensions.Sqs.Codec.Ids.{length-hex_word, hex_word_injective}
use graftcode_extensions.Kafka.Util.{make_uuid_v4}

pub split_append : (x y u v : Bytes) → length x ≡ length y → x ++ u ≡ y ++ v → (x ≡ y) × (u ≡ v)
split_append [] [] u v n e = (refl, e)
split_append [] (d ∷ y) u v n e = absurd (omega arith)
split_append (c ∷ x) [] u v n e = absurd (omega arith)
split_append (c ∷ x) (d ∷ y) u v n e = ground (arith, split_append x y u v)

-- The two numbers of a field, and what follows it.
split_field :
    (k a b : ℕ) (u v : Bytes)
    → a < 16 ^ k
    → b < 16 ^ k
    → hex_word k a ++ u ≡ hex_word k b ++ v
    → (a ≡ b) × (u ≡ v)
split_field k a b u v ha hb e =
    let s =
      split_append (hex_word k a) (hex_word k b) u v
        (length-hex_word k a ∙ sym (length-hex_word k b)) e in
    (hex_word_injective k a b ha hb s.0, s.1)

dash : {u v : Bytes} → b'-' ∷ u ≡ b'-' ∷ v → u ≡ v
dash e = cc

length-dash : (k n : ℕ) (u : Bytes) → length (hex_word k n ++ (b'-' ∷ u)) ≡ k + 1 + length u
length-dash k n u = omega (arith, length-append (hex_word k n) (b'-' ∷ u), length-hex_word k n)

-- An id has 36 characters.
pub length-make_uuid_v4 : (a b : ℕ) → length (make_uuid_v4 a b) ≡ 36
unfolding make_uuid_v4
length-make_uuid_v4 a b = omega (
  arith,
  length-dash 8 (a % 2 ^ 32) _,
  length-dash 4 (a / 2 ^ 32 % 2 ^ 16) _,
  length-dash 4 (a / 2 ^ 48 % 2 ^ 12 + 4 * 2 ^ 12) _,
  length-dash 4 (b / 2 ^ 48 % 2 ^ 14 + 2 * 2 ^ 14) _,
  length-hex_word 12 (b % 2 ^ 48),
)

-- Two ids are equal only if the random words agree in the 122 bits that go into them: all but the
-- upper four of the 64 in the first word, and all but the upper two in the second.
pub make_uuid_v4-random_bits :
    (a b c d : ℕ)
    → make_uuid_v4 a b ≡ make_uuid_v4 c d
    → (a % 2 ^ 60 ≡ c % 2 ^ 60) × (b % 2 ^ 62 ≡ d % 2 ^ 62)
unfolding make_uuid_v4
make_uuid_v4-random_bits a b c d e =
    let (low, e1) = split_field 8 _ _ _ _ (omega arith) (omega arith) e in
    let (mid, e2) = split_field 4 _ _ _ _ (omega arith) (omega arith) (dash e1) in
    let (high, e3) = split_field 4 _ _ _ _ (omega arith) (omega arith) (dash e2) in
    let (seq, e4) = split_field 4 _ _ _ _ (omega arith) (omega arith) (dash e3) in
    let node = hex_word_injective 12 _ _ (omega arith) (omega arith) (dash e4) in
    (omega arith, omega arith)
