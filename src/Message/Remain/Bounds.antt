-- ===== src/Message/Remain/Bounds.antt =====
-- src/message/message.c: theorems on `remain_length_encode`, and the field in plain arithmetic.
use simple_mqtt.Base.{
  bit_and, leb, ◌≢◌, stuck, ℕ, zero, suc, ◌+◌, ◌*◌, ◌/◌, ◌%◌, ◌^◌, ◌≤◌, ◌<◌, ◌≡◌, ap, ◌∙◌, arith,
  [], ◌∷◌, length, Bytes, IsU32, ltb, if◌then◌else◌, set_top_bit, ok, err, fault,
}
use simple_mqtt.Message.Codes.{mqtt_invalid_param}
use simple_mqtt.Message.Remain.{
  encode_loop, remain_length_encode, decode_loop, remain_length_decode,
}

-- The bytes of the field in plain arithmetic, for a length below 128 ^ (k + 1).
unfoldable pub encoding : ℕ → ℕ → Bytes
encoding zero len = len ∷ []
encoding (suc k) len =
    let rest = encoding k (len / 128) in if ltb len 128 then len ∷ [] else (len % 128 + 128) ∷ rest

pub encode_loop-encoding :
    (k len : ℕ) → len < 128 ^ suc k → encode_loop (suc k) len ≡ ok (encoding k len)
unfolding encode_loop encoding
encode_loop-encoding zero len h = ground arith
encode_loop-encoding (suc k) len h =
    ground (arith, set_top_bit (len % 128), encode_loop-encoding k (len / 128) (omega arith))

pub length-encoding :
    (k len : ℕ) → (1 ≤ length (encoding k len)) × (length (encoding k len) ≤ k + 1)
unfolding encoding
length-encoding zero len = omega arith
length-encoding (suc k) len = ground (arith, length-encoding k (len / 128))

pub length-encoding_low : (k len : ℕ) → len < 128 ^ suc k → length (encoding (suc k) len) ≤ suc k
unfolding encoding
length-encoding_low zero len h = ground arith
length-encoding_low (suc k) len h = ground (arith, length-encoding_low k (len / 128) (omega arith))

-- A spare level of the description changes nothing.
encoding_spare : (k len : ℕ) → len < 128 ^ suc k → encoding (suc k) len ≡ encoding k len
unfolding encoding
encoding_spare zero len h = ground arith
encoding_spare (suc k) len h = ground (arith, encoding_spare k (len / 128) (omega arith))

-- The field of a length below 2^28.
abbrev pub length_field : ℕ → Bytes
length_field = encoding 3

encode_loop_five : (len : ℕ) → IsU32 len → encode_loop 5 len ≡ ok (encoding 4 len)
encode_loop_five len h = encode_loop-encoding 4 len (omega arith)

encode_loop_four : (len : ℕ) → len < 2 ^ 28 → encode_loop 5 len ≡ ok (length_field len)
encode_loop_four len h =
    encode_loop_five len (omega arith) ∙ ap ok (encoding_spare 3 len (omega arith))

-- A length below 2^28 is stored in one to four bytes, if that many may be written.
pub remain_length_encode_lem :
    (room len : ℕ)
    → len < 2 ^ 28
    → length (length_field len) ≤ room
    → remain_length_encode room len ≡ ok (length_field len)
unfolding remain_length_encode
remain_length_encode_lem room len h fits =
    ground (arith, encode_loop_four len, length-encoding 3 len)

-- How many bytes the field of a length takes.
abbrev pub field_size : ℕ → ℕ
field_size len =
    if ltb len 128 then 1 else if ltb len 16384 then 2 else if ltb len 2097152 then 3 else 4

pub length-length_field : (len : ℕ) → len < 2 ^ 28 → length (length_field len) ≡ field_size len
unfolding encoding
length-length_field len h = ground arith

-- What a caller with a buffer of four bytes gets, for each uint32_t length: the one to four bytes
-- of the field below 2^28, and a write outside the buffer from 2^28 on.
remain_length_encode_four :
    (len : ℕ)
    → IsU32 len
    → remain_length_encode 4 len ≡ (if ltb len (2 ^ 28) then ok (length_field len) else fault)
unfolding remain_length_encode encoding
remain_length_encode_four len h = ground (arith, encode_loop_five len)

-- With room for five bytes the code of a length from 2^28 on is MQTT_INVALID_PARAM.
remain_length_encode_wide :
    (room len : ℕ)
    → 5 ≤ room
    → IsU32 len
    → 2 ^ 28 ≤ len
    → remain_length_encode room len ≡ err mqtt_invalid_param
unfolding remain_length_encode encoding
remain_length_encode_wide room len hr h wide = ground (arith, encode_loop_five len)

-- A success stores a length below 2^28, in bytes for which there is room.
pub remain_length_encode-eq_ok :
    (room len : ℕ) {encode : Bytes}
    → IsU32 len
    → remain_length_encode room len ≡ ok encode
    → (len < 2 ^ 28) × (encode ≡ length_field len) × (length encode ≤ room)
unfolding remain_length_encode encoding
remain_length_encode-eq_ok room len h e = ground (arith, encode_loop_five len)

pub remain_length_encode-ne-stuck :
    (room len : ℕ) → IsU32 len → remain_length_encode room len ≢ stuck
unfolding remain_length_encode encoding
remain_length_encode-ne-stuck room len h e = ground (arith, encode_loop_five len)

decode_loop-ne-stuck :
    (left : ℕ) (encode : Bytes) (base index len : ℕ)
    → decode_loop left encode base index len ≢ stuck
unfolding decode_loop
decode_loop-ne-stuck zero encode base index len e = cc
decode_loop-ne-stuck (suc left) [] base index len e = cc
decode_loop-ne-stuck (suc left) (b ∷ encode) base index len e = ground (
  arith,
  decode_loop-ne-stuck left encode (base * 128 % 2 ^ 32) (index + 1)
      ((len + bit_and b 0x7f * base) % 2 ^ 32),
)

pub remain_length_decode-ne-stuck :
    (encode : Bytes) (encode_len : ℕ) → remain_length_decode encode encode_len ≢ stuck
unfolding remain_length_decode
remain_length_decode-ne-stuck encode encode_len =
    decode_loop-ne-stuck (if leb encode_len 4 then encode_len else 4) encode 1 0 0
