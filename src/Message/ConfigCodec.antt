-- ===== src/Message/ConfigCodec.antt =====
-- The serializer and the deserializer of util/cfg.c, as the messages use them.
use suscan.Prelude.{ℕ, Bool, true, ◌≡◌, subst, List}
use suscan.GrowBuf.{GrowBuf}
use suscan.Serial.Parse.{Parses}
use suscan.Config.{Desc, Config}
use suscan.Config.Lookup.{IsRegistered, lookup_registered}
use suscan.Config.Wire.{config_serialize, config_deserialize}
use suscan.Config.Arrival.{IsSendable, config_items, arrived, config-Parses, config-Sends}
use suscan.Config.Keeps.{Keeps-config_deserialize}
use suscan.Message.Configs.{Configs}

-- A configuration that arrives as it was sent: it can be sent, the receiver has registered its descriptor, and
-- all its values but the floats count as set, as the setters leave them.
pub record IsShared (known : List Desc) (cfg : Config) : Type 0 where
  pub sendable : IsSendable cfg
  pub registered : IsRegistered cfg.of known
  pub flags : arrived cfg ≡ cfg

module _ ⦃g : GrowBuf⦄ (known later : List Desc) where
  open g use {Buf}

  pub shared-Parses :
      (gives : ℕ → Bool) (mem : (n : ℕ) → gives n ≡ true) (v : Config)
      → IsShared known v
      → Parses (config_deserialize gives known later) v (config_items v)
  shared-Parses gives mem v h =
      subst (λ (w : Config). Parses (config_deserialize gives known later) w (config_items v))
        h.flags
        (config-Parses gives mem known later v h.sendable
          (lookup_registered v.of known h.registered))

  abbrev pub cfg_configs : Configs
  cfg_configs = record {
    Config = Config;
    IsConfig = IsShared known;
    config_items = config_items;
    config_serialize = config_serialize;
    config_deserialize = λ gives. config_deserialize gives known later;
    Keeps-config = λ gives. Keeps-config_deserialize gives known later;
    Parses-config = shared-Parses;
    Sends-config = λ v h. config-Sends v h.sendable;
  }
