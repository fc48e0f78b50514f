-- ===== src/Network.antt =====
-- src/network/network.c: the functions that set options of a connection's socket.
pub mod Modes
use simple_mqtt.Base.{ℕ, Bool, true, false, not, ◌&&◌, ◌||◌, Option, none, some}
use simple_mqtt.Message.Codes

-- An int whose bits are looked at one by one: whether the bit with an index is set.
abbrev pub Bits : Type 0
Bits = ℕ → Bool

-- What the operating system keeps of a socket: how many seconds recv(2) waits, where 0 is no limit, and the
-- file status flags.
pub record SocketOptions : Type 0 where
  pub recv_timeout : ℕ
  pub flags : Bits

-- What the operating system does: whether setsockopt(2) succeeds, whether fcntl(2) with F_GETFL and with
-- F_SETFL do, and which bits O_NONBLOCK has.
pub record SocketCalls : Type 0 where
  pub option_set : Bool
  pub flags_got : Bool
  pub flags_set : Bool
  pub o_nonblock : Bits

-- setsockopt(2) with SO_RCVTIMEO.
pub after_setsockopt : Bool → ℕ → SocketOptions → SocketOptions
after_setsockopt false seconds socket = socket
after_setsockopt true seconds socket = record socket { recv_timeout = seconds }

-- `conn_ok` says that `conn` is not NULL. What setsockopt(2) returns is not looked at.
unfoldable pub network_set_timeout : SocketCalls → Bool → ℕ → SocketOptions → SocketOptions × ℕ
unfolding after_setsockopt
network_set_timeout calls false seconds socket = (socket, Codes.mqtt_invalid_param)
network_set_timeout calls true seconds socket =
    (after_setsockopt calls.option_set seconds socket, Codes.mqtt_success)

unfoldable pub network_clean_timeout : SocketCalls → Bool → SocketOptions → SocketOptions × ℕ
unfolding network_set_timeout
network_clean_timeout calls conn_ok socket = network_set_timeout calls conn_ok 0 socket

-- fcntl(2) with F_GETFL. Where it returns -1, that is what `flags` holds, with each bit set.
pub get_flags : Bool → SocketOptions → Bits
get_flags false socket i = true
get_flags true socket i = socket.flags i

-- fcntl(2) with F_SETFL, and what it returns, where `none` is -1.
pub set_flags : Bool → Bits → SocketOptions → SocketOptions × Option ℕ
set_flags false flags socket = (socket, none)
set_flags true flags socket = (record socket { flags = flags }, some 0)

-- `flags | O_NONBLOCK`
unfoldable pub network_unblock : SocketCalls → SocketOptions → SocketOptions × Option ℕ
unfolding get_flags set_flags
network_unblock calls socket =
    let flags = get_flags calls.flags_got socket in
    set_flags calls.flags_set (λ i. flags i || calls.o_nonblock i) socket

-- `flags & ~O_NONBLOCK`
unfoldable pub network_block : SocketCalls → SocketOptions → SocketOptions × Option ℕ
unfolding get_flags set_flags
network_block calls socket =
    let flags = get_flags calls.flags_got socket in
    set_flags calls.flags_set (λ i. flags i && not (calls.o_nonblock i)) socket
