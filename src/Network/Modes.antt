-- ===== src/Network/Modes.antt =====
-- src/network/network.c: theorems on the options of a socket.
use simple_mqtt.Base.{ℕ, ◌≡◌, refl, ap, sym, ◌∙◌, Bool, true, false, not, ◌&&◌, ◌||◌, some}
use std.Path.{fun_ext}
use simple_mqtt.Network.{
  SocketOptions, SocketCalls, after_setsockopt, network_set_timeout, network_clean_timeout,
  get_flags, set_flags, network_unblock, network_block,
}

restored : (f m : Bool) → (f && m) ≡ false → ((f || m) && not m) ≡ f
restored true true e = cc
restored true false e = refl
restored false true e = refl
restored false false e = refl

-- On a socket in blocking mode without a timeout, where the system calls succeed: `network_set_timeout`,
-- `network_unblock`, `network_block` and `network_clean_timeout`, one behind the other, succeed, and
-- the socket has the options again that it had.
network_block-unblock :
    (calls : SocketCalls) (socket : SocketOptions) (seconds : ℕ)
    → calls.option_set ≡ true
    → calls.flags_got ≡ true
    → calls.flags_set ≡ true
    → socket.recv_timeout ≡ 0
    → ((i : ℕ) → (socket.flags i && calls.o_nonblock i) ≡ false)
    → let timed = network_set_timeout calls true seconds socket in
      let unblocked = network_unblock calls timed.0 in
      let blocked = network_block calls unblocked.0 in
      (timed.1 ≡ 0)
      × (unblocked.1 ≡ some 0)
      × (blocked.1 ≡ some 0)
      × (network_clean_timeout calls true blocked.0 ≡ (socket, 0))
unfolding network_set_timeout network_clean_timeout network_unblock network_block after_setsockopt
    get_flags set_flags
network_block-unblock calls socket seconds set got put none_set blocking =
    rw (set, got, put) (refl, refl, refl, same)
  where
    same :
        ◌≡◌ {A = SocketOptions × ℕ}
          (
            record socket {
              recv_timeout = 0;
              flags = λ i. (socket.flags i || calls.o_nonblock i) && not (calls.o_nonblock i);
            },
            0,
          )
          (socket, 0)
    same =
        ap (λ f. (record socket { recv_timeout = 0; flags = f }, 0))
          (fun_ext (λ i. restored (socket.flags i) (calls.o_nonblock i) (blocking i)))
        ∙ ap (λ t. (record socket { recv_timeout = t }, 0)) (sym none_set)
