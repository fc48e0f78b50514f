-- ===== src/Message/Codes.antt =====
-- The constants of src/mqtt.h, src/message/common.h and src/message/message.h.
use simple_mqtt.Base.{ℕ, ◌*◌, bit_and}

-- src/mqtt.h
abbrev pub mqtt_success : ℕ
mqtt_success = 0

abbrev pub mqtt_unknown : ℕ
mqtt_unknown = 1

abbrev pub mqtt_invalid_param : ℕ
mqtt_invalid_param = 2

abbrev pub mqtt_memory_nobuffer : ℕ
mqtt_memory_nobuffer = 3

abbrev pub mqtt_message_type_error : ℕ
mqtt_message_type_error = 4

abbrev pub mqtt_protocol_unsupport : ℕ
mqtt_protocol_unsupport = 5

abbrev pub mqtt_protocol_level_unsupport : ℕ
mqtt_protocol_level_unsupport = 6

abbrev pub mqtt_connect_message_error : ℕ
mqtt_connect_message_error = 8

abbrev pub mqtt_client_id_length_unsupport : ℕ
mqtt_client_id_length_unsupport = 9

abbrev pub mqtt_connect_flags_error : ℕ
mqtt_connect_flags_error = 10

abbrev pub mqtt_connack_message_error : ℕ
mqtt_connack_message_error = 11

abbrev pub mqtt_publish_message_error : ℕ
mqtt_publish_message_error = 13

abbrev pub mqtt_publish_qos_error : ℕ
mqtt_publish_qos_error = 14

abbrev pub mqtt_puback_message_error : ℕ
mqtt_puback_message_error = 15

abbrev pub mqtt_pubrec_message_error : ℕ
mqtt_pubrec_message_error = 16

abbrev pub mqtt_pubrel_message_error : ℕ
mqtt_pubrel_message_error = 17

abbrev pub mqtt_pubcomp_message_error : ℕ
mqtt_pubcomp_message_error = 18

abbrev pub mqtt_subscribe_message_error : ℕ
mqtt_subscribe_message_error = 19

abbrev pub mqtt_suback_qos_error : ℕ
mqtt_suback_qos_error = 20

abbrev pub mqtt_suback_message_error : ℕ
mqtt_suback_message_error = 21

abbrev pub mqtt_unsubscribe_message_error : ℕ
mqtt_unsubscribe_message_error = 22

abbrev pub mqtt_fixed_header_reserved_error : ℕ
mqtt_fixed_header_reserved_error = 23

abbrev pub mqtt_broker_hostname_error : ℕ
mqtt_broker_hostname_error = 24

abbrev pub mqtt_broker_connect_error : ℕ
mqtt_broker_connect_error = 25

abbrev pub mqtt_message_send_error : ℕ
mqtt_message_send_error = 26

abbrev pub mqtt_client_connect_error : ℕ
mqtt_client_connect_error = 27

abbrev pub mqtt_message_recv_error : ℕ
mqtt_message_recv_error = 28

-- mqtt_message_type_t
abbrev pub message_type_min : ℕ
message_type_min = 0

abbrev pub message_type_connect : ℕ
message_type_connect = 1

abbrev pub message_type_connack : ℕ
message_type_connack = 2

abbrev pub message_type_publish : ℕ
message_type_publish = 3

abbrev pub message_type_puback : ℕ
message_type_puback = 4

abbrev pub message_type_pubrec : ℕ
message_type_pubrec = 5

abbrev pub message_type_pubrel : ℕ
message_type_pubrel = 6

abbrev pub message_type_pubcomp : ℕ
message_type_pubcomp = 7

abbrev pub message_type_subscribe : ℕ
message_type_subscribe = 8

abbrev pub message_type_suback : ℕ
message_type_suback = 9

abbrev pub message_type_unsubscribe : ℕ
message_type_unsubscribe = 10

abbrev pub message_type_unsuback : ℕ
message_type_unsuback = 11

abbrev pub message_type_pingreq : ℕ
message_type_pingreq = 12

abbrev pub message_type_pingresp : ℕ
message_type_pingresp = 13

abbrev pub message_type_disconnect : ℕ
message_type_disconnect = 14

abbrev pub message_type_max : ℕ
message_type_max = 15

-- mqtt_qos_t
abbrev pub mqtt_qos_0 : ℕ
mqtt_qos_0 = 0

abbrev pub mqtt_qos_1 : ℕ
mqtt_qos_1 = 1

abbrev pub mqtt_qos_2 : ℕ
mqtt_qos_2 = 2

abbrev pub mqtt_qos_max : ℕ
mqtt_qos_max = 3

abbrev pub mqtt_qos_reject : ℕ
mqtt_qos_reject = 128

-- `((message_type << 4) & MESSAGE_TYPE_MASK)`
abbrev pub message_type_encode : ℕ → ℕ
message_type_encode message_type = bit_and (message_type * 16) 0xf0
