-- ===== src/Message/Ack/RoundTrip.antt =====
-- src/message/msg_puback.c, msg_pubrec.c, msg_pubrel.c, msg_pubcomp.c and msg_unsuback.c: theorems on
-- the five acknowledgements as one family.
use simple_mqtt.Base.{
  ℕ, ◌+◌, ◌*◌, ◌/◌, ◌%◌, ◌≤◌, ◌<◌, Bool, true, Option, none, some, [], ◌∷◌, ◌≡◌, ◌≢◌, not, ◌==◌,
  if◌then◌else◌, refl, Bytes, IsU16, get16, deref, emit, Outcome, ok, err, arith,
}
use simple_mqtt.Message.Codes.{mqtt_invalid_param, mqtt_message_type_error}
use simple_mqtt.Message.Ack.{
  puback_message_build, puback_message_parse, pubrec_message_build, pubrec_message_parse,
  pubrel_message_build, pubrel_message_parse, pubcomp_message_build, pubcomp_message_parse,
  unsuback_message_build, unsuback_message_parse,
}

-- The five packets, by name.
pub data Ack : Type 0 where
  puback pubrec pubrel pubcomp unsuback : Ack

unfoldable pub build : Ack → ℕ → Option ℕ → Option ℕ → Outcome Bytes
unfolding puback_message_build pubrec_message_build pubrel_message_build pubcomp_message_build
    unsuback_message_build
build puback = puback_message_build
build pubrec = pubrec_message_build
build pubrel = pubrel_message_build
build pubcomp = pubcomp_message_build
build unsuback = unsuback_message_build

unfoldable pub parse : Ack → Option Bytes → ℕ → Bool → Outcome ℕ
unfolding puback_message_parse pubrec_message_parse pubrel_message_parse pubcomp_message_parse
    unsuback_message_parse
parse puback = puback_message_parse
parse pubrec = pubrec_message_parse
parse pubrel = pubrel_message_parse
parse pubcomp = pubcomp_message_parse
parse unsuback = unsuback_message_parse

-- The type in the four high bits of the first byte, and the code for a bad length field.
abbrev pub first_byte : Ack → ℕ
first_byte puback = 0x40
first_byte pubrec = 0x50
first_byte pubrel = 0x60
first_byte pubcomp = 0x70
first_byte unsuback = 0xb0

abbrev pub length_code : Ack → ℕ
length_code puback = 15
length_code pubrec = 16
length_code pubrel = 17
length_code pubcomp = 18
length_code unsuback = 22

-- With a buffer as large as `*message_len` says, and four bytes at least, each builder writes a
-- packet of four bytes with its type in front, and its parser reads the identifier back.
pub parse-build :
    (k : Ack) (packet_id cap message_len : ℕ)
    → IsU16 packet_id
    → 4 ≤ message_len
    → message_len ≤ cap
    → (build k packet_id (some cap) (some message_len)
        ≡ ok (first_byte k ∷ 2 ∷ (packet_id / 256) ∷ (packet_id % 256) ∷ []))
      × (parse k (some (first_byte k ∷ 2 ∷ (packet_id / 256) ∷ (packet_id % 256) ∷ [])) 4 true
          ≡ ok packet_id)
unfolding build parse get16 deref emit
parse-build puback packet_id cap message_len h lo hi = (ground arith, ground arith)
parse-build _ packet_id cap message_len h lo hi = (ground arith, ground arith)

-- A packet with other bytes behind it.
pub parse_within :
    (k : Ack) (packet_id : ℕ) (rest : Bytes)
    → parse k (some (first_byte k ∷ 2 ∷ (packet_id / 256) ∷ (packet_id % 256) ∷ rest)) 4 true
      ≡ ok packet_id
unfolding parse get16 deref
parse_within puback packet_id rest = ground arith
parse_within _ packet_id rest = ground arith

-- Less than four bytes of room are refused, whatever the buffer is.
build_short :
    (k : Ack) (packet_id message_len : ℕ) (message : Option ℕ)
    → message_len < 4
    → build k packet_id message (some message_len) ≡ err mqtt_invalid_param
unfolding build
build_short puback packet_id message_len none h = refl
build_short _ packet_id message_len none h = refl
build_short _ packet_id message_len (some cap) h = ground arith

-- The outcome of each of the five parsers on four bytes, whatever they are: the test of the first
-- byte comes before that of the length field, and then the identifier is the last two bytes.
pub parse_lem :
    (k : Ack) (a b c d : ℕ)
    → parse k (some (a ∷ b ∷ c ∷ d ∷ [])) 4 true ≡ (
        if not (a == first_byte k)
        then err mqtt_message_type_error
        else if not (b == 2)
        then err (length_code k)
        else ok (c * 256 + d))
unfolding parse get16 deref
parse_lem puback a b c d = ground arith
parse_lem _ a b c d = ground arith

build-eq_ok :
    (k : Ack) (packet_id cap message_len : ℕ) {message : Bytes}
    → build k packet_id (some cap) (some message_len) ≡ ok message
    → message ≡ first_byte k ∷ 2 ∷ (packet_id / 256) ∷ (packet_id % 256) ∷ []
unfolding build emit
build-eq_ok puback packet_id cap message_len e = ground arith
build-eq_ok _ packet_id cap message_len e = ground arith

first_byte-ne : (k j : Ack) → k ≢ j → first_byte k ≢ first_byte j
first_byte-ne puback puback ne = absurd (ne refl)
first_byte-ne pubrec pubrec ne = absurd (ne refl)
first_byte-ne pubrel pubrel ne = absurd (ne refl)
first_byte-ne pubcomp pubcomp ne = absurd (ne refl)
first_byte-ne unsuback unsuback ne = absurd (ne refl)
first_byte-ne _ _ ne = omega arith

-- Of the five acknowledgements, each parser returns MQTT_MESSAGE_TYPE_ERROR on a packet that the
-- builder of another has written.
parse-build_other :
    (k j : Ack) (packet_id cap message_len : ℕ) {message : Bytes}
    → k ≢ j
    → build k packet_id (some cap) (some message_len) ≡ ok message
    → parse j (some message) 4 true ≡ err mqtt_message_type_error
parse-build_other k j packet_id cap message_len ne e =
    rw (build-eq_ok k packet_id cap message_len e, parse_lem) (ground (arith, first_byte-ne k j ne))
