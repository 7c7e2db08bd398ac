-- ===== src/RabbitMq/Address/Segments.antt =====
-- encodeUriSegment of rabbitmq/RabbitmqPlugin/RabbitMqServer.cpp against percent decoding.
use graftcode_extensions.Base.{
  ℕ, ◌/◌, ◌%◌, ◌+◌, ◌-◌, ◌*◌, ◌<◌, ◌≤◌, ◌≡◌, refl, ap, ◌∙◌, true, false, ◌&&◌, ltb, [], ◌∷◌, ◌++◌,
  arith, Bytes, All, leb, ◌==◌, if◌then◌else◌, Bool-cases, inl, inr,
}
use graftcode_extensions.RabbitMq.Address.{is_safe, hex_digit, encode_uri_segment}

-- The value of a hexadecimal digit.
abbrev pub hex_value : ℕ → ℕ
hex_value d = if leb d 57 then d - 48 else d - 55

-- How far an escape is read: none is open, its '%' is, or its first digit is too.
pub data Mode : Type 0 where
  plain : Mode
  opened : Mode
  half : ℕ → Mode

abbrev pub next_mode : Mode → ℕ → Mode
next_mode plain c = if c == b'%' then opened else plain
next_mode opened c = half c
next_mode (half d) c = plain

abbrev pub decoded : Mode → ℕ → Bytes
decoded plain c = if c == b'%' then [] else c ∷ []
decoded opened c = []
decoded (half d) c = (hex_value d * 16 + hex_value c) ∷ []

-- Percent decoding, as RFC 3986 describes it.
unfoldable pub decode_uri_segment : Mode → Bytes → Bytes
decode_uri_segment mode [] = []
decode_uri_segment mode (c ∷ text) = decoded mode c ++ decode_uri_segment (next_mode mode c) text

-- The unreserved characters of RFC 3986: letters, digits, '-', '.', '_' and '~'.
pub data IsUnreserved (c : ℕ) : Type 0 where
  upper : b'A' ≤ c → c ≤ b'Z' → IsUnreserved c
  lower : b'a' ≤ c → c ≤ b'z' → IsUnreserved c
  digit : b'0' ≤ c → c ≤ b'9' → IsUnreserved c
  hyphen : c ≡ b'-' → IsUnreserved c
  dot : c ≡ b'.' → IsUnreserved c
  underscore : c ≡ b'_' → IsUnreserved c
  tilde : c ≡ b'~' → IsUnreserved c

-- What may stand in a segment: none of them ends the user, the password or the virtual host.
pub data IsSegmentByte (c : ℕ) : Type 0 where
  unreserved : IsUnreserved c → IsSegmentByte c
  percent : c ≡ b'%' → IsSegmentByte c

safe-IsUnreserved : (c : ℕ) → is_safe c ≡ true → IsUnreserved c
safe-IsUnreserved c h = elim (Bool-cases (leb b'a' c && leb c b'z')) [
  | inl y ↦ lower (ground arith) (ground arith)
  | inr n ↦ elim (Bool-cases (leb b'A' c && leb c b'Z')) [
    | inl y ↦ upper (ground arith) (ground arith)
    | inr m ↦ elim (Bool-cases (leb b'0' c && leb c b'9')) [
      | inl y ↦ digit (ground arith) (ground arith)
      | inr k ↦ elim (Bool-cases (c == b'-')) [
        | inl y ↦ hyphen (ground arith)
        | inr a ↦ elim (Bool-cases (c == b'_')) [
          | inl y ↦ underscore (ground arith)
          | inr b ↦ elim (Bool-cases (c == b'.')) [
            | inl y ↦ dot (ground arith)
            | inr d ↦ tilde (ground arith)
          ]
        ]
      ]
    ]
  ]
]

digit-IsSegmentByte : (n : ℕ) → n < 16 → IsSegmentByte (hex_digit n)
digit-IsSegmentByte n h = elim (Bool-cases (ltb n 10)) [
  | inl y ↦ unreserved (digit (ground arith) (ground arith))
  | inr m ↦ unreserved (upper (ground arith) (ground arith))
]

hex_value-digit : (n : ℕ) → n < 16 → hex_value (hex_digit n) ≡ n
hex_value-digit n h = ground arith

safe_decodes :
    (c : ℕ) (text : Bytes)
    → is_safe c ≡ true
    → decode_uri_segment plain (c ∷ text) ≡ c ∷ decode_uri_segment plain text
unfolding decode_uri_segment
safe_decodes c text h = ground arith

byte_parts : (c : ℕ) → c < 256 → (c / 16 % 16) * 16 + c % 16 ≡ c
byte_parts c h = omega arith

escape_decodes :
    (c : ℕ) (text : Bytes)
    → c < 256
    → decode_uri_segment plain (b'%' ∷ hex_digit (c / 16 % 16) ∷ hex_digit (c % 16) ∷ text)
      ≡ c ∷ decode_uri_segment plain text
unfolding decode_uri_segment
escape_decodes c text h =
    ap (λ d. d ∷ decode_uri_segment plain text)
      (rw (hex_value-digit (c / 16 % 16) (omega arith), hex_value-digit (c % 16) (omega arith))
        (byte_parts c h))

encode_safe :
    (c : ℕ) (value : Bytes)
    → is_safe c ≡ true
    → encode_uri_segment (c ∷ value) ≡ c ∷ encode_uri_segment value
unfolding encode_uri_segment
encode_safe c value h = simp h

encode_escape :
    (c : ℕ) (value : Bytes)
    → is_safe c ≡ false
    → encode_uri_segment (c ∷ value)
      ≡ b'%' ∷ hex_digit (c / 16 % 16) ∷ hex_digit (c % 16) ∷ encode_uri_segment value
unfolding encode_uri_segment
encode_escape c value h = simp h

-- Decoding a segment gives the bytes that were encoded, and every byte of the segment is '%' or
-- one of RFC 3986's unreserved characters; so none is ':', '@' or '/', which would end the part of
-- the address where it stands.
pub decode-encode_uri_segment :
    (value : Bytes)
    → All (λ c. c < 256) value
    → (decode_uri_segment plain (encode_uri_segment value) ≡ value)
      × All IsSegmentByte (encode_uri_segment value)
unfolding encode_uri_segment
decode-encode_uri_segment [] a = (unfold decode_uri_segment in refl, tt)
decode-encode_uri_segment (c ∷ value) a = elim (Bool-cases (is_safe c)) [
  | inl y ↦
      let (e, safe) = decode-encode_uri_segment value a.1 in
      rw (encode_safe c value y) (
        safe_decodes c (encode_uri_segment value) y ∙ ap (◌∷◌ c) e,
        (unreserved (safe-IsUnreserved c y), safe),
      )
  | inr n ↦
      let (e, safe) = decode-encode_uri_segment value a.1 in
      rw (encode_escape c value n) (
        escape_decodes c (encode_uri_segment value) a.0 ∙ ap (◌∷◌ c) e,
        (
          percent refl,
          (
            digit-IsSegmentByte (c / 16 % 16) (omega arith),
            (digit-IsSegmentByte (c % 16) (omega arith), safe),
          ),
        ),
      )
]
