-- ===== src/Message/Configs.antt =====
-- The interface of the serializer of configurations, `suscan_config` of util/cfg.c, as the messages use it;
-- ConfigCodec fills it.
use suscan.Prelude.{ℕ, Bool, true, ◌≡◌, List}
use suscan.Prelude.Outcome.{Call}
use suscan.GrowBuf.{GrowBuf}
use suscan.Cbor.Items.{Item, encode_all}
use suscan.Serial.Parse.{Parses}
use suscan.Serial.Keeps.{Keeps}
use suscan.Serial.Codec.{Sends}

module _ ⦃g : GrowBuf⦄ where
  open g use {Buf}

  pub record Configs : Type 1 where
    pub Config : Type 0
    -- configurations that can be sent
    pub IsConfig : Config → Type 0
    pub config_items : Config → List Item
    pub config_serialize : Config → Call Buf (Unit {0})
    pub config_deserialize : (ℕ → Bool) → Call Buf Config
    pub Keeps-config : (gives : ℕ → Bool) → Keeps (config_deserialize gives)
    pub Parses-config :
        (gives : ℕ → Bool) (mem : (n : ℕ) → gives n ≡ true) (v : Config)
        → IsConfig v
        → Parses (config_deserialize gives) v (config_items v)
    pub Sends-config :
        (v : Config) → IsConfig v → Sends (config_serialize v) (encode_all (config_items v))
