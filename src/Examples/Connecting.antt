-- ===== src/Examples/Connecting.antt =====
-- CONNECT packets at concrete inputs.
use simple_mqtt.Base.{
  ◌≡◌, ◌≤◌, inl, refl, arith, true, some, [], ◌∷◌, Bytes, length, ok, err, fault,
}
use simple_mqtt.Message.Codes.{mqtt_connect_flags_error}
use simple_mqtt.Message.Remain.Bounds.{encoding}
use simple_mqtt.Message.Connect.{ConnectSettings, connect_message_len_calc, connect_message_build}
use simple_mqtt.Message.Connect.Parser.{connect_message_parse}
use simple_mqtt.Message.Connect.Size.{Texts, Fit, as_payload, connect_message_build-len_calc}
use simple_mqtt.Message.Connect.RoundTrip.{connect-parse-build, connect_message_parse_no_will}
use simple_mqtt.Message.Connect.Overflow.{connect_message_build_overflow}

abbrev pub keep : ConnectSettings
keep = record { keep_alive = 60; clean_session = 1; will_retain = 0; will_qos = 1 }

abbrev with_all : Texts
with_all = record {
  client_id = 105 ∷ 100 ∷ [];
  will_topic = 116 ∷ [];
  will_msg = 103 ∷ 111 ∷ [];
  username = 117 ∷ [];
  password = 112 ∷ [];
}

abbrev pub id_only : Texts
id_only = record {
  client_id = 105 ∷ 100 ∷ [];
  will_topic = [];
  will_msg = [];
  username = [];
  password = [];
}

with_all-Fit : Fit with_all
with_all-Fit = record {
  client_id_fits = omega arith;
  will_topic_fits = omega arith;
  will_msg_fits = omega arith;
  username_fits = omega arith;
  password_fits = omega arith;
}

pub id_only-Fit : Fit id_only
id_only-Fit = record {
  client_id_fits = omega arith;
  will_topic_fits = omega arith;
  will_msg_fits = omega arith;
  username_fits = omega arith;
  password_fits = omega arith;
}

connect_message_build-len_calc_example :
    (message : Bytes) × (connect_message_build true
        (as_payload with_all)
        keep
        (connect_message_len_calc (as_payload with_all))
      ≡ ok message)
    × (length message ≤ connect_message_len_calc (as_payload with_all))
connect_message_build-len_calc_example = connect_message_build-len_calc with_all keep with_all-Fit

connect_message_parse_no_will_example :
    (message : Bytes) × (connect_message_build true (as_payload id_only) keep 40 ≡ ok message)
    × (connect_message_parse (λ i. true) (some message) (length message) true
        ≡ err mqtt_connect_flags_error)
unfolding encoding
connect_message_parse_no_will_example =
    connect_message_parse_no_will (λ i. true) id_only keep 40 id_only-Fit (inl refl) (omega arith)

connect-parse-build_example :
    (message : Bytes) × (connect_message_build true (as_payload with_all) keep 60 ≡ ok message)
    × (connect_message_parse (λ i. true) (some message) (length message) true
        ≡ ok (record {
          payload = as_payload with_all;
          settings = record { keep_alive = 60; clean_session = 1; will_retain = 0; will_qos = 1 };
        }))
unfolding encoding
connect-parse-build_example =
    connect-parse-build (λ i. true) with_all keep 60 (λ i. refl) with_all-Fit (omega arith)
      (omega arith) (omega arith) (omega arith)

connect_message_build_overflow_example :
    connect_message_build true (as_payload with_all) keep 20 ≡ fault
unfolding encoding
connect_message_build_overflow_example =
    connect_message_build_overflow with_all keep 20 with_all-Fit (omega arith) (omega arith)
