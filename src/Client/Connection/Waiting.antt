-- ===== src/Client/Connection/Waiting.antt =====
-- src/client/client.c: theorems on `message_send_and_wait_ack`.
use simple_mqtt.Base.{
  ◌⊎◌, inl, inr, take, ◌++◌, Bool-cases, ℕ, zero, suc, ◌+◌, ◌-◌, ◌≤◌, ◌<◌, ◌≡◌, ◌≢◌, refl, arith,
  Option, none, some, [], ◌∷◌, Bytes, ltb, Outcome, ok, stuck,
}
use simple_mqtt.Client.Process.{World, network_send, after_send}
use simple_mqtt.Client.Connection.{
  System, Received, bytes, timed_out, broken, Waited, after_recv, send_and_receive,
  message_send_and_wait_ack,
}

-- What one call costs at most, and that it has an answer where it succeeds.
pub record Bounded (world : World) (receptions tries : ℕ) (w : Waited) : Type 0 where
  pub sends : w.world.attempts ≤ world.attempts + tries
  pub receives : w.receptions ≤ receptions + tries
  pub same_list : w.world.send_list ≡ world.send_list
  pub outcome : (w.ack ≢ []) × (w.ret ≡ 0) ⊎ (w.ack ≡ []) × (1 ≤ w.ret)

-- The loop from a value of `retry` on ends within the bounds.
abbrev Ends : Outcome Waited → World → ℕ → ℕ → Type 0
Ends result world receptions retry =
    (w : Waited) × (result ≡ ok w) × Bounded world receptions (3 - retry) w

after_recv-Ends :
    (r : Received) (world : World) (receptions retry : ℕ) (again : ℕ → Outcome Waited)
    → r ≢ bytes []
    → retry < 3
    → Ends (again (retry + 1)) world receptions (retry + 1)
    → (w : Waited) × (after_recv r world receptions retry again ≡ ok w)
      × Bounded world receptions (2 - retry) w
unfolding after_recv
after_recv-Ends (bytes []) world receptions retry again ne lt rest = absurd (ne refl)
after_recv-Ends (bytes (b ∷ ack)) world receptions retry again ne lt rest = (
  record { world = world; receptions = receptions; ret = 0; ack = b ∷ ack },
  refl,
  record {
    sends = omega arith;
    receives = omega arith;
    same_list = refl;
    outcome = inl ((λ e. cc), refl);
  },
)
after_recv-Ends timed_out world receptions retry again ne lt (w, e, bounds) = (
  w,
  e,
  record {
    sends = omega arith;
    receives = omega arith;
    same_list = bounds.same_list;
    outcome = bounds.outcome;
  },
)
after_recv-Ends broken world receptions retry again ne lt rest = (
  record { world = world; receptions = receptions; ret = 27; ack = [] },
  refl,
  record {
    sends = omega arith;
    receives = omega arith;
    same_list = refl;
    outcome = inr (refl, omega arith);
  },
)

closed_round :
    (system : System) (message : Bytes) (ack_len receptions : ℕ) (sent : Option ℕ) (world : World)
    (again : World → ℕ → ℕ → Outcome Waited)
    → system.recv receptions ack_len ≡ bytes []
    → sent ≢ none
    → ((world' : World) (receptions' : ℕ) → again world' receptions' 0 ≡ stuck)
    → send_and_receive system (after_send sent world message) receptions 0 ack_len again ≡ stuck
unfolding send_and_receive after_recv after_send
closed_round system message ack_len receptions none world again gone ne rest = absurd (ne refl)
closed_round system message ack_len receptions (some n) world again gone ne rest = rw gone (
    rest
      (record world { attempts = world.attempts + 1; wire = world.wire ++ (take n message ∷ []) })
      (receptions + 1))

-- Where the server has closed the connection, so that recv(2) returns 0 each time, and send(2) does not
-- fail, the loop does not end: it is still running after every number of rounds.
pub message_send_and_wait_ack_closed :
    (system : System) (message : Bytes) (ack_len : ℕ)
    → ((n len : ℕ) → system.recv n len ≡ bytes [])
    → ((n : ℕ) → system.send n message ≢ none)
    → (fuel : ℕ) (world : World) (receptions : ℕ)
    → message_send_and_wait_ack fuel system message ack_len world receptions 0 ≡ stuck
unfolding message_send_and_wait_ack send_and_receive after_recv network_send after_send
message_send_and_wait_ack_closed system message ack_len gone sends zero world receptions = refl
message_send_and_wait_ack_closed system message ack_len gone sends (suc fuel) world receptions =
    closed_round system message ack_len receptions (system.send world.attempts message) world
      (message_send_and_wait_ack fuel system message ack_len) (gone receptions ack_len)
      (sends world.attempts)
      (message_send_and_wait_ack_closed system message ack_len gone sends fuel)

send_and_receive-Ends :
    (system : System) (message : Bytes) (ack_len receptions retry : ℕ) (sent : Option ℕ)
    (world : World) (again : World → ℕ → ℕ → Outcome Waited)
    → system.recv receptions ack_len ≢ bytes []
    → retry < 3
    → ((world' : World) (receptions' : ℕ)
        → Ends (again world' receptions' (retry + 1)) world' receptions' (retry + 1))
    → Ends
        (send_and_receive system (after_send sent world message) receptions retry ack_len again)
        world
        receptions
        retry
unfolding send_and_receive after_send
send_and_receive-Ends system message ack_len receptions retry none world again ne lt rest = (
  record {
    world = record world { attempts = world.attempts + 1 };
    receptions = receptions;
    ret = 26;
    ack = [];
  },
  refl,
  record {
    sends = omega arith;
    receives = omega arith;
    same_list = refl;
    outcome = inr (refl, omega arith);
  },
)
send_and_receive-Ends system message ack_len receptions retry (some n) world again ne lt rest =
    let world' : World = record world {
      attempts = world.attempts + 1;
      wire = world.wire ++ (take n message ∷ []);
    } in
    let (w, e, bounds) =
      after_recv-Ends (system.recv receptions ack_len) world' (receptions + 1) retry
        (again world' (receptions + 1)) ne lt (rest world' (receptions + 1)) in
    (
      w,
      e,
      record {
        sends = omega (arith, bounds.sends);
        receives = omega (arith, bounds.receives);
        same_list = bounds.same_list;
        outcome = bounds.outcome;
      },
    )

wait-Ends :
    (system : System) (message : Bytes) (ack_len : ℕ)
    → ((n len : ℕ) → system.recv n len ≢ bytes [])
    → (fuel : ℕ) (world : World) (receptions retry : ℕ) → 3 < fuel + retry
    → retry ≤ 3
    → Ends
        (message_send_and_wait_ack fuel system message ack_len world receptions retry)
        world
        receptions
        retry
unfolding message_send_and_wait_ack network_send
wait-Ends system message ack_len answers zero world receptions retry h hi = absurd (omega arith)
wait-Ends system message ack_len answers (suc fuel) world receptions retry h hi =
    elim (Bool-cases (ltb retry 3)) [
      | inl more ↦ rw more (
          send_and_receive-Ends system message ack_len receptions retry
            (system.send world.attempts message) world
            (message_send_and_wait_ack fuel system message ack_len) (answers receptions ack_len)
            (ground arith)
            (λ world' receptions'.
              wait-Ends system message ack_len answers fuel world' receptions' (retry + 1)
                (omega arith) (ground arith)))
      | inr over ↦ rw over (
        record { world = world; receptions = receptions; ret = 27; ack = [] },
        refl,
        record {
          sends = omega arith;
          receives = omega arith;
          same_list = refl;
          outcome = inr (refl, omega arith);
        },
      )
    ]

-- Where recv(2) never returns 0, fuel 4 is enough for the loop, which sends the message and waits for
-- an answer three times at most and leaves the send list alone. It returns MQTT_SUCCESS with an answer, or
-- an error with none.
pub message_send_and_wait_ack_ends :
    (system : System) (message : Bytes) (ack_len : ℕ)
    → ((n len : ℕ) → system.recv n len ≢ bytes [])
    → (world : World) (receptions : ℕ)
    → (w : Waited) × (message_send_and_wait_ack 4 system message ack_len world receptions 0 ≡ ok w)
      × Bounded world receptions 3 w
message_send_and_wait_ack_ends system message ack_len answers world receptions =
    wait-Ends system message ack_len answers 4 world receptions 0 (omega arith) (omega arith)

-- The first try, when it is answered.
pub message_send_and_wait_ack_answer :
    (fuel : ℕ) (system : System) (message : Bytes) (ack_len : ℕ) (world : World)
    (receptions sent b : ℕ) (ack : Bytes)
    → system.send world.attempts message ≡ some sent
    → system.recv receptions ack_len ≡ bytes (b ∷ ack)
    → message_send_and_wait_ack (suc fuel) system message ack_len world receptions 0
      ≡ ok (record {
        world = record world {
          attempts = world.attempts + 1;
          wire = world.wire ++ (take sent message ∷ []);
        };
        receptions = receptions + 1;
        ret = 0;
        ack = b ∷ ack;
      })
unfolding message_send_and_wait_ack network_send send_and_receive after_recv after_send
message_send_and_wait_ack_answer fuel system message ack_len world receptions sent b ack h k =
    rw (h, k) refl
