-- ===== src/Client/Receive/Follows.antt =====
-- src/client/client_deamon.c and client_message_process.c: theorems on the handler of each packet, in a buffer
-- with the packet in front.
use simple_mqtt.Base.{
  Bool, ◌<◌, All, length, Option, none, ◌≤◌, arith, ◌+◌, ℕ, ◌≡◌, ◌≢◌, refl, ap, ◌∙◌, sym, arith,
  ◌⊎◌, inl, inr, true, some, List, [], ◌∷◌, ◌++◌, Bytes, net16, Outcome, ok, err, fault, ◌>>=◌,
  ne→==,
}
use simple_mqtt.Message.Ack.RoundTrip.{
  Ack, puback, pubrec, pubrel, pubcomp, unsuback, first_byte, parse, parse_within,
}
use simple_mqtt.Client.Keep.{MessageSend, message_send_remove}
use simple_mqtt.Client.Keep.Laws.{Absent, find_remove_cases}
use simple_mqtt.Message.Remain.Bounds.{length_field}
use simple_mqtt.Message.Suback.RoundTrip.{IsGranted}
use simple_mqtt.Message.Suback.Within.{suback_message_parse_within}
use simple_mqtt.Client.Process.{
  suback_msg_process, World, Send, Handled, remove_acknowledged, puback_msg_process,
  pubrec_msg_process, pubrel_msg_process, pubcomp_msg_process, unsuback_msg_process, on_return,
  parsed_only,
}
use simple_mqtt.Client.Process.Senders.{
  answered, after_puback, ack_packet, sent_world, pubrel_msg_sent_lem, remove_acknowledged_empty,
  remove_acknowledged_lem,
}
use simple_mqtt.Client.Receive.Incoming.{
  said, confirm, View, view, without, forgotten, forget, acknowledge,
}

-- A handler returns, with what the description says, or both are undefined.
abbrev pub Agrees : Handled → Outcome View → Type 0
Agrees handled described =
    ((world : World) × (ret : ℕ) × (ret ≤ 1024)
      × (handled ≡ ok (world, ret))
      × (described ≡ ok (view world)))
    ⊎ ((handled ≡ fault) × (described ≡ fault))

pub returned-Agrees :
    (handled : Handled) (world : World) (ret : ℕ)
    → ret ≤ 1024
    → handled ≡ ok (world, ret)
    → Agrees handled (ok (view world))
returned-Agrees handled world ret small e = inl (world, ret, small, e, refl)

pub answered-Agrees :
    (world : World) (message : Bytes) (sent : Option ℕ)
    → Agrees (answered world message sent) (ok (said sent message (view world)))
answered-Agrees world message none =
    returned-Agrees _ (record world { attempts = world.attempts + 1 }) 26 (omega arith) refl
answered-Agrees world message (some sent) =
    returned-Agrees _ (sent_world world sent message) 0 (omega arith) refl

without-Absent :
    (packet_id : ℕ) (list : List MessageSend)
    → Absent packet_id list
    → without packet_id list ≡ list
without-Absent packet_id [] absent = refl
without-Absent packet_id (m ∷ list) (ne, absent) =
    rw (ne→== m.packet_id packet_id ne) (ap (◌∷◌ m) (without-Absent packet_id list absent))

without-split :
    (packet_id : ℕ) (before : List MessageSend) (node : MessageSend) (after : List MessageSend)
    → Absent packet_id before
    → node.packet_id ≡ packet_id
    → without packet_id (before ++ (node ∷ after)) ≡ before ++ after
without-split packet_id [] node after absent same = ground arith
without-split packet_id (m ∷ before) node after (ne, absent) same =
    rw (ne→== m.packet_id packet_id ne)
      (ap (◌∷◌ m) (without-split packet_id before node after absent same))

-- `message_send_remove` leaves the list without the message, or refuses and there is none.
remove-without :
    (packet_id : ℕ) (list : List MessageSend)
    → list ≢ []
    → (message_send_remove true list packet_id ≡ ok (without packet_id list))
      ⊎ ((message_send_remove true list packet_id ≡ err 1) × (without packet_id list ≡ list))
remove-without packet_id list ne = elim (find_remove_cases list packet_id ne) [
  | inl (f, found, removed) ↦ inl (
      removed
      ∙ ap ok (
          sym (
            ap (without packet_id) f.splits
            ∙ without-split packet_id f.before f.node f.after f.first f.same_id)))
  | inr (absent, missed, kept) ↦ inr (kept, without-Absent packet_id list absent)
]

left_is-without :
    (packet_id : ℕ) (list list' : List MessageSend)
    → list ≢ []
    → (message_send_remove true list packet_id ≡ ok list')
      ⊎ ((message_send_remove true list packet_id ≡ err 1) × (list' ≡ list))
    → list' ≡ without packet_id list
left_is-without packet_id list list' ne (inl e) = elim (remove-without packet_id list ne) [
  | inl e' ↦ cc
  | inr (e', same) ↦ cc
]
left_is-without packet_id list list' ne (inr (e, kept)) = elim (remove-without packet_id list ne) [
  | inl e' ↦ cc
  | inr (e', same) ↦ kept ∙ sym same
]

forget_lem :
    (packet_id : ℕ) (v : View)
    → v.send_list ≢ []
    → forget packet_id v ≡ ok (record v { send_list = without packet_id v.send_list })
forget_lem packet_id v ne =
    elim v.send_list
        as (λ l.
          l ≢ []
          → ((do list ← forgotten packet_id l; ok (record v { send_list = list }))
              ≡ ok (record v { send_list = without packet_id l }))) [
                | [] ↦ λ h. absurd (h refl)
                | m ∷ list ↦ λ h. refl
              ]
      ne

remove_acknowledged-Agrees :
    (world : World) (packet_id : ℕ)
    → Agrees (remove_acknowledged world packet_id) (forget packet_id (view world))
remove_acknowledged-Agrees world packet_id = elim (List-cases world.send_list) [
  | inl empty ↦ inr (remove_acknowledged_empty world packet_id empty, rw empty refl)
  | inr ne ↦
      let (list', removed, cases) = remove_acknowledged_lem world packet_id ne in
      inl (
        record world { send_list = list' },
        0,
        omega arith,
        removed,
        forget_lem packet_id (view world) ne
            ∙ ap (λ l. ok (record (view world) { send_list = l }))
                (sym (left_is-without packet_id world.send_list list' ne cases)),
      )
]
  where
    List-cases : (list : List MessageSend) → (list ≡ []) ⊎ (list ≢ [])
    List-cases [] = inl refl
    List-cases (m ∷ list) = inr (λ e. cc)

pub after_puback-Agrees :
    (world : World) (packet_id : ℕ) (sent : Option ℕ)
    → Agrees (after_puback world packet_id sent) (confirm sent packet_id (view world))
after_puback-Agrees world packet_id none =
    returned-Agrees _ (record world { attempts = world.attempts + 1 }) 26 (omega arith) refl
after_puback-Agrees world packet_id (some sent) =
    remove_acknowledged-Agrees (sent_world world sent (ack_packet 0x40 packet_id)) packet_id

pub suback-Agrees :
    (first_granted : Bool) (granted : ℕ → Bool) (world : World) (packet_id : ℕ) (items rest : Bytes)
    → length items < 65536
    → All IsGranted items
    → let body = net16 packet_id ++ items in
      Agrees
        (suback_msg_process first_granted granted world
          (0x90 ∷ (length_field (length body) ++ (body ++ rest)))
          (1 + length (length_field (length body)) + length body))
        (ok (view world))
unfolding suback_msg_process parsed_only on_return
suback-Agrees first_granted granted world packet_id items rest small good =
    elim (suback_message_parse_within first_granted granted packet_id items rest small good) [
      | inl (arr, parsed) ↦ rw parsed (returned-Agrees _ world 0 (omega arith) refl)
      | inr refused ↦ rw refused (returned-Agrees _ world 3 (omega arith) refl)
    ]

-- The handler of each acknowledgement.
abbrev pub handler : Ack → Send → World → Bytes → ℕ → Handled
handler puback send = puback_msg_process
handler pubrec send = pubrec_msg_process send
handler pubrel send = pubrel_msg_process
handler pubcomp send = pubcomp_msg_process
handler unsuback send = unsuback_msg_process

pub handler-Agrees :
    (k : Ack) (send : Send) (world : World) (packet_id : ℕ) (rest : Bytes)
    → Agrees
        (handler k send world (first_byte k ∷ 2 ∷ (net16 packet_id ++ rest)) 4)
        (ok (acknowledge send k packet_id (view world)))
unfolding parse puback_msg_process pubrec_msg_process pubrel_msg_process pubcomp_msg_process
    unsuback_msg_process parsed_only on_return
handler-Agrees pubrec send world packet_id rest = rw (parse_within pubrec packet_id rest) (
    rw (pubrel_msg_sent_lem send world packet_id)
      (answered-Agrees world (ack_packet 0x60 packet_id) _))
handler-Agrees puback send world packet_id rest =
    rw (parse_within puback packet_id rest) (returned-Agrees _ world 0 (omega arith) refl)
handler-Agrees pubrel send world packet_id rest =
    rw (parse_within pubrel packet_id rest) (returned-Agrees _ world 0 (omega arith) refl)
handler-Agrees pubcomp send world packet_id rest =
    rw (parse_within pubcomp packet_id rest) (returned-Agrees _ world 0 (omega arith) refl)
handler-Agrees unsuback send world packet_id rest =
    rw (parse_within unsuback packet_id rest) (returned-Agrees _ world 0 (omega arith) refl)
