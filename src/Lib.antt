-- ===== src/Lib.antt =====
-- simple_mqtt: an MQTT 3.1.1 packet library and a client in C.
--
-- The program. Each packet type has a file in src/message with a builder, which writes the packet
-- into the caller's buffer, and a parser, which returns its parts through pointers. All of them use
-- the length field and the string fields of src/message/message.c. The client (src/client) receives
-- packets in a thread, hands each to a handler of client_message_process.c, which parses it and may
-- send a reply with src/network, and keeps the messages that it has sent in the list of
-- message_keep.c until they are acknowledged.
--
-- The files.
--   Base: names of the libraries passed on; Base/Words bytes, big-endian numbers and uint32_t
--     arithmetic; Base/Bits the masks of the source; Base/Calls what a call of C code comes to.
--   Message/Codes: the constants of src/mqtt.h and src/message/common.h.
--   Message/Remain: remain_length_encode and remain_length_decode of src/message/message.c.
--   Message/Field: the string fields and the fixed header of src/message/message.c.
--   Message/Ack: src/message/msg_puback.c, msg_pubrec.c, msg_pubrel.c, msg_pubcomp.c, msg_unsuback.c.
--   Message/Ping: src/message/msg_pingreq.c, msg_pingresp.c, msg_disconnect.c.
--   Message/Publish: src/message/msg_publish.c.
--   Message/Connect: src/message/msg_connect.c, the parser in Message/Connect/Parser.
--   Message/Connack: src/message/msg_connack.c.
--   Message/Suback: src/message/msg_suback.c, the growing array of QoS values and the packet.
--   Message/Header: the header test at the front of the parsers of SUBACK, SUBSCRIBE, UNSUBSCRIBE.
--   Message/Filters: lists of topic filters, common to the next two.
--   Message/Subscribe: src/message/msg_subscribe.c.
--   Message/Unsubscribe: src/message/msg_unsubscribe.c.
--   Client/Keep: src/client/message_keep.c; Client/Keep/Store says what its list is for its callers.
--   Client/Process: src/client/client_message_process.c and network_send of src/network/network.c.
--   Client/Receive: process_socket_event of src/client/client_deamon.c.
--     Client/Receive/Incoming describes what the client is to do with a stream of packets.
--   Client/Timer: process_timer_event of the same file.
--   Client/Callbacks: publish_callback_register and timeout_callback_register of the same file.
--   Client/Thread: client_deamon_create and init_global_timer of the same file.
--   Client/Loop: client_deamon_thread of the same file, which calls what Receive and Timer model;
--     Client/Loop/Polls says what its events find, and Client/Loop/Attend what it is to do with them, ticks
--     of the timer among them.
--   Client/Connection: message_send_and_wait_ack of src/client/client.c, and the client's state.
--   Client/Api: the other functions of src/client/client.c, with network_connect and network_close of
--     src/network/network.c.
--   Network: the functions of src/network/network.c that set options of a socket.
--   Client/Subscriptions: subscriptions one after the other, and the timer behind them.
--   Examples: the theorems at concrete inputs.
-- The child modules of each hold its theorems.
--
-- The correspondence. Definitions have the names of the C functions. A call returns an `Outcome`:
-- `ok` is MQTT_SUCCESS with the out parameters, `err` another return code, `fault` undefined
-- behaviour, such as an access outside an allocation. A pointer to bytes is the list of the bytes
-- from there to the end of the allocation, and a read past it is a fault; NULL is `none`. For
-- a buffer that is written, the argument is its size, and the result is what is written; the out
-- parameter `*message_len` is then its length. uint16_t and uint32_t arithmetic has its modulus
-- written out. The answers of malloc and realloc, the value of an uninitialised local and the
-- answers of send(2) and recv(2) are arguments.
-- The handlers take and return a `World`: the send list, what was sent, and the calls of the
-- callback. The calls of the application and the timer take a `Session`, which holds a `World`, the
-- client, and the descriptors that have been closed.
--
-- Fuel. `encode_loop` has fuel 5, since a uint32_t has five groups of seven bits. The loops of
-- the SUBSCRIBE and UNSUBSCRIBE parsers have one more than the bytes of the packet's body: each
-- round reads two bytes at least. Running out of fuel is the outcome `stuck`. The fuel of
-- `process_socket_event` is how many packets are received before it is looked at; a server may go
-- on for ever; that of `client_deamon_thread` is the calls of epoll_wait(2). That of
-- `message_send_and_wait_ack` is the number of rounds; 4 are enough unless the server closes the
-- connection. `decode_loop` counts down the at most four bytes that it may read.
--
-- Not modelled: publish_cb_default and timeout_cb_default of client_deamon.c and src/log, which only print;
-- src/broker, whose files are empty; which memory is given back with free, other than in
-- client_deamon_create, connect_payload_release and topic_filter_release. A callback is told by its
-- address, and its calls are recorded; what the code of an application does to the client is left out. The
-- text of log messages is left out everywhere, and so is the lock of the timer, since no part of the code
-- waits for it but the timer. `message_send_and_wait_ack` sets a timeout for recv(2) and clears it;
-- the two functions that do so are in Network, and what they change is only seen in the
-- answers of recv(2), which are arguments.
pub mod Base
pub mod Message
pub mod Network
pub mod Client
pub mod Examples
