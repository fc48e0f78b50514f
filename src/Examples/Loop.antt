-- ===== src/Examples/Loop.antt =====
-- The receive loop at concrete inputs.
use simple_mqtt.Base.{
  ◌≡◌, refl, arith, true, some, [], ◌∷◌, Bytes, length, fault, ◌==◌, if◌then◌else◌,
}
use simple_mqtt.Examples.Zeros.{zeros, length-zeros}
use simple_mqtt.Message.Remain.Bounds.{encoding}
use simple_mqtt.Client.Callbacks.{default_callbacks}
use simple_mqtt.Client.Process.{World}
use simple_mqtt.Client.Receive.{Outside, socket_round}
use simple_mqtt.Client.Receive.Framing.{socket_round_overflow}

abbrev pub idle : World
idle = record { send_list = []; attempts = 0; wire = []; delivered = [] }

-- A connection that stores these two, call by call.
abbrev pub two_calls : Bytes → Bytes → Outside
two_calls first second = record {
  send = λ n message. some (length message);
  recv = λ n len. if n == 0 then some first else some second;
  callbacks = default_callbacks 1 2;
  first_granted = λ n. true;
  granted = λ n i. true;
}

-- 1100 bytes behind a length field of two bytes.
abbrev long : Outside
long = two_calls (0x30 ∷ 0xcc ∷ 0x08 ∷ 0 ∷ 1 ∷ []) (zeros 1098)

socket_round_overflow_example : socket_round long idle 0 ≡ fault
unfolding encoding
socket_round_overflow_example =
    socket_round_overflow long idle 0 0x30 1100 (0 ∷ 1 ∷ []) (zeros 1098) (omega arith)
      (omega arith) (omega arith) (omega (arith, length-zeros 1098))
      (omega (arith, length-zeros 1098)) refl refl
