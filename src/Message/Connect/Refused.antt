-- ===== src/Message/Connect/Refused.antt =====
-- src/message/msg_connect.c: theorems on payloads that the parser does not look at far enough.
