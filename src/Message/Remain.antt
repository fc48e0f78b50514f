-- ===== src/Message/Remain.antt =====
-- src/message/message.c: `remain_length_encode` and `remain_length_decode`, the length field of
-- every packet, seven bits to a byte with the lowest first and the top bit set on all but the last.
pub mod Bounds
pub mod RoundTrip
use simple_mqtt.Base.{
  ℕ, zero, suc, ◌+◌, ◌*◌, ◌/◌, ◌%◌, ◌^◌, bit_and, bit_or, [], ◌∷◌, ltb, leb, ◌==◌, if◌then◌else◌,
  length, Bytes, Outcome, ok, fault, stuck, ◌>>=◌, ◌>>◌, defined_if, refuse_if,
}
use simple_mqtt.Message.Codes.{mqtt_invalid_param}

-- The do-while loop: the bytes stored at `encode`.
unfoldable pub encode_loop : ℕ → ℕ → Outcome Bytes
encode_loop zero len = stuck
encode_loop (suc fuel) len =
    let byte = len % 128 in
    let more = (do rest ← encode_loop fuel (len / 128); ok (bit_or byte 0x80 ∷ rest)) in
    if ltb 0 (len / 128) then more else ok (byte ∷ [])

-- A uint32_t has at most five groups of seven bits.
abbrev pub encode_fuel : ℕ
encode_fuel = 5

-- `room` is what may be written at `encode`. The result is the bytes written; `*encode_len` is
-- their number.
unfoldable pub remain_length_encode : ℕ → ℕ → Outcome Bytes
remain_length_encode room len = do
  encode ← encode_loop encode_fuel len
  defined_if (leb (length encode) room)
  refuse_if (ltb 4 (length encode)) mqtt_invalid_param
  ok encode

-- The while loop, with `encode` from `index` on and the rounds that are left.
unfoldable pub decode_loop : ℕ → Bytes → ℕ → ℕ → ℕ → Outcome (ℕ × ℕ)
decode_loop zero encode base index len = ok (index + 1, len)
decode_loop (suc left) [] base index len = fault
decode_loop (suc left) (b ∷ encode) base index len =
    let len' = (len + bit_and b 0x7f * base) % 2 ^ 32 in
    if bit_and b 0x80 == 0
    then ok (index + 1, len')
    else decode_loop left encode (base * 128 % 2 ^ 32) (index + 1) len'

-- The result is `*encode_len` and `*length`. The argument is `*encode_len` as the caller set it.
unfoldable pub remain_length_decode : Bytes → ℕ → Outcome (ℕ × ℕ)
remain_length_decode encode encode_len =
    decode_loop (if leb encode_len 4 then encode_len else 4) encode 1 0 0
