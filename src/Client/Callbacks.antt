-- ===== src/Client/Callbacks.antt =====
-- src/client/client_deamon.c: `publish_callback_register` and `timeout_callback_register`, and the two global
-- pointers that they set.
use simple_mqtt.Base.{ℕ, Bool, not, Option, some, is_null}

-- `publish_cb` and `timeout_cb`, as the addresses of functions; `none` is NULL.
pub record Callbacks : Type 0 where
  pub publish_cb : Option ℕ
  pub timeout_cb : Option ℕ

-- Where the thread begins: with the addresses of `publish_cb_default` and `timeout_cb_default`, which only
-- print.
abbrev pub default_callbacks : ℕ → ℕ → Callbacks
default_callbacks publish_cb_default timeout_cb_default = record {
  publish_cb = some publish_cb_default;
  timeout_cb = some timeout_cb_default;
}

-- The pointers afterwards, and the return code.
unfoldable pub publish_callback_register : Option ℕ → Callbacks → Callbacks × ℕ
publish_callback_register pc callbacks = (record callbacks { publish_cb = pc }, 0)

unfoldable pub timeout_callback_register : Option ℕ → Callbacks → Callbacks × ℕ
timeout_callback_register tc callbacks = (record callbacks { timeout_cb = tc }, 0)

abbrev pub is_registered : Option ℕ → Bool
is_registered callback = not (is_null callback)
