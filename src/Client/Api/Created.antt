-- ===== src/Client/Api/Created.antt =====
-- src/client/client.c: theorems on `mqtt_client_create`.
use simple_mqtt.Base.{
  ℕ, Bool-cases, ◌||◌, append_assoc, ◌≡◌, ◌≢◌, refl, ap, ◌∙◌, sym, is_null, ◌⊎◌, true, false, not,
  Option, ◌-◌, none, some, List, [], ◌∷◌, ◌++◌, length, ◌==◌, if◌then◌else◌, ok, err, fault, stuck,
  ◌>>=◌, inl, inr,
}
use simple_mqtt.Message.Connect.{connect_message_len_calc, connect_message_build}
use simple_mqtt.Message.Connack.{ConnackOut, connack_message_parse}
use simple_mqtt.Client.Receive.{cleared}
use simple_mqtt.Client.Connection.{
  connack_message_len, ClientConfig, System, Session, Called, Waited, message_send_and_wait_ack,
}
use simple_mqtt.Client.Api.Returns.{Returns, bind-Returns, on_code-Returns, if-Returns}
use simple_mqtt.Client.Api.{
  network_connect, network_close, connect_settings, copy_client_id, connect_accepted, store_sp,
  code_checked, connack_received, answer_received, connect_message_send, disconnected,
  mqtt_client_create, mqtt_client_destroy,
}

-- The socket and the descriptors closed so far.
abbrev Same : Option ℕ → List (Option ℕ) → Session → ℕ → Type 0
Same socket_fd closed session code =
    (session.client.socket_fd ≡ socket_fd) × (session.closed ≡ closed)

-- A call keeps them for every session that it is made in.
abbrev AlwaysKeeps : (Session → Called) → Type 0
AlwaysKeeps call =
    (session : Session) → Returns (Same session.client.socket_fd session.closed) (call session)

store_sp-Keeps :
    (call : Session → Called) (sp : Option ℕ)
    → AlwaysKeeps call
    → AlwaysKeeps (λ session. call (store_sp session sp))
store_sp-Keeps call none h = h
store_sp-Keeps call (some sp) h = λ session. h (store_sp session (some sp))

connect_accepted-Keeps :
    (system : System) (config : ClientConfig) → AlwaysKeeps (connect_accepted system config)
unfolding connect_accepted
connect_accepted-Keeps system config session =
    bind-Returns (Same session.client.socket_fd session.closed)
      (copy_client_id system.copy_granted config.payload.client_id config.payload.client_id_len) _
      (λ copy. (refl, refl))

code_checked-Keeps :
    (system : System) (config : ClientConfig) (code : Option ℕ)
    → AlwaysKeeps (λ session. code_checked system config session code)
unfolding code_checked
code_checked-Keeps system config none = λ session. tt
code_checked-Keeps system config (some code) = λ session.
    if-Returns (Same session.client.socket_fd session.closed) (not (code == 0)) _ _ (refl, refl)
      (connect_accepted-Keeps system config session)

connack_received-Keeps :
    (system : System) (config : ClientConfig) (out : ConnackOut)
    → AlwaysKeeps (λ session. connack_received system config session out)
unfolding connack_received
connack_received-Keeps system config out =
    store_sp-Keeps
      (λ stored.
        if not (out.ret == 0)
        then ok (stored, out.ret)
        else code_checked system config stored out.connack_code)
      out.sp
      (λ stored.
        if-Returns (Same stored.client.socket_fd stored.closed) (not (out.ret == 0)) _ _
          (refl, refl) (code_checked-Keeps system config out.connack_code stored))

answer_received-Keeps :
    (system : System) (config : ClientConfig) (waited : Waited)
    → AlwaysKeeps (λ session. answer_received system config session waited)
unfolding answer_received
answer_received-Keeps system config waited session =
    if-Returns (Same session.client.socket_fd session.closed) (not (waited.ret == 0)) _ _
      (refl, refl)
      (bind-Returns (Same session.client.socket_fd session.closed)
        (connack_message_parse system.junk
          (some (waited.ack ++ cleared (connack_message_len - length waited.ack)))
          (length waited.ack) true)
        _
        (λ out.
          connack_received-Keeps system config out
            (record session { world = waited.world; receptions = waited.receptions })))

connect_message_send-Keeps :
    (fuel : ℕ) (system : System) (config : ClientConfig)
    → AlwaysKeeps (connect_message_send fuel system config)
unfolding connect_message_send
connect_message_send-Keeps fuel system config session =
    let fd = session.client.socket_fd in
    if-Returns (Same fd session.closed) (not system.message_granted) _ _ (refl, refl)
      (on_code-Returns (Same fd session.closed)
        (connect_message_build system.payload_granted config.payload (connect_settings config)
          (connect_message_len_calc config.payload))
        _ _ (λ code. (refl, refl))
        (λ message.
          bind-Returns (Same fd session.closed)
            (message_send_and_wait_ack fuel system message connack_message_len session.world
              session.receptions 0)
            _ (λ waited. answer_received-Keeps system config waited session)))

disconnected-Keeps :
    (socket_fd : Option ℕ) (closed : List (Option ℕ)) (session' : Session) (code : ℕ)
    (called : Called)
    → Returns (Same socket_fd closed) called
    → (called >>= disconnected) ≡ ok (session', code)
    → (session'.closed ≡ closed ++ (socket_fd ∷ [])) × (session'.client.socket_fd ≡ some 0)
unfolding disconnected network_close
disconnected-Keeps socket_fd closed session' code' (ok (session, code)) (fd, cl) e =
    let same : record session {
      closed = session.closed ++ (session.client.socket_fd ∷ []);
      client = record session.client { socket_fd = some 0 };
    }
        ≡ session' =
      cc in
    (sym (ap (λ x. x.closed) same) ∙ rw (fd, cl) refl, sym (ap (λ x. x.client.socket_fd) same))
disconnected-Keeps socket_fd closed session' code' (err code) h e = cc
disconnected-Keeps socket_fd closed session' code' fault h e = cc
disconnected-Keeps socket_fd closed session' code' stuck h e = cc

is_null-cases {ℓ} : {A : Type ℓ} (a : Option A) → (a ≡ none) ⊎ (is_null a ≡ false)
is_null-cases none = inl refl
is_null-cases (some a) = inr refl

-- The call once the connection is there.
pub create_opened :
    (fuel : ℕ) (system : System) (config : ClientConfig) (session : Session)
    → system.socket ≢ none
    → system.address_known ≡ true
    → system.accepted ≡ true
    → (connect_message_send fuel system config
          (record session { client = record session.client { socket_fd = system.socket } })
        >>= disconnected)
      ≡ mqtt_client_create fuel system true (some config) session
unfolding mqtt_client_create network_connect
create_opened fuel system config session opened known accepted =
    elim (is_null-cases system.socket) [
      | inl null ↦ absurd (opened null)
      | inr there ↦ rw (there, known, accepted) refl
    ]

destroy-closes :
    (answer : Option ℕ) (session : Session)
    → (mqtt_client_destroy answer session).0.closed
      ≡ session.closed ++ (session.client.socket_fd ∷ [])
unfolding mqtt_client_destroy network_close
destroy-closes answer session =
    elim (Bool-cases (session.client.client_id_len == 0 || is_null session.client.client_id)) [
      | inl nothing ↦ rw nothing refl
      | inr there ↦ rw there refl
    ]

-- Once the connection is there, a call of `mqtt_client_create` that returns has closed its descriptor,
-- and nothing else, whatever it returns: the label `disconnect` stands behind the successful path too.
-- The connection then holds the descriptor 0, so a call of `mqtt_client_destroy` behind it closes
-- descriptor 0.
pub mqtt_client_create_closes :
    (fuel : ℕ) (system : System) (config : ClientConfig) (session session' : Session) (code : ℕ)
    (answer : Option ℕ)
    → system.socket ≢ none
    → system.address_known ≡ true
    → system.accepted ≡ true
    → mqtt_client_create fuel system true (some config) session ≡ ok (session', code)
    → (session'.closed ≡ session.closed ++ (system.socket ∷ []))
      × (session'.client.socket_fd ≡ some 0)
      × ((mqtt_client_destroy answer session').0.closed
          ≡ session.closed ++ (system.socket ∷ some 0 ∷ []))
mqtt_client_create_closes fuel system config session session' code answer opened known accepted e =
    let opened_session : Session = record session {
      client = record session.client { socket_fd = system.socket };
    } in
    let (closed, zero_fd) =
      disconnected-Keeps system.socket session.closed session' code
        (connect_message_send fuel system config opened_session)
        (connect_message_send-Keeps fuel system config opened_session)
        (create_opened fuel system config session opened known accepted ∙ e) in
    (
      closed,
      zero_fd,
      destroy-closes answer session'
          ∙ rw (closed, zero_fd) (append_assoc session.closed (system.socket ∷ []) (some 0 ∷ [])),
    )
