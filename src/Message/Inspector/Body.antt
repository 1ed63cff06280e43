-- ===== src/Message/Inspector/Body.antt =====
-- What an inspector message holds besides its head, by its kind (analyzer/msg.c).
use suscan.Prelude.{ℕ, Bool, true, ◌<◌, ◌^◌, ◌≡◌, List, [], Option, none, some}
use suscan.Prelude.Outcome.{Call, pure, fail, ◌>>=◌, su_false}
use suscan.GrowBuf.{GrowBuf}
use suscan.Cbor.Items.{Item, encode_all}
use suscan.Serial.{framed}
use suscan.Serial.Parse.{Parses, Parses-pure, Parses-framed}
use suscan.Serial.Keeps.{Keeps, Keeps-pure, Keeps-fail, Keeps-bind, Keeps-framed}
use suscan.Serial.Codec.{Sends, Parses-last, Sends-none, optional_items, IfAny}
use suscan.Message.Inspector.Kind.{
  EmptyKind, MsgKind, msgkind_open, msgkind_set_config, msgkind_estimator, msgkind_spectrum,
  msgkind_set_freq, msgkind_set_bandwidth, msgkind_set_watermark, msgkind_set_tle,
  msgkind_orbit_report, empty_kind, empty_number, kind_number, kind_of, kind_of-kind_number,
  kind_of-empty_number,
}
use suscan.Message.Configs.{Configs}
use suscan.Message.Inspector.Bodies.{
  Estimator, IsEstimator, estimator_items, estimator_serialize, estimator_deserialize,
  Keeps-estimator, Parses-estimator, Sends-estimator, SetFreq, IsSetFreq, set_freq_items,
  set_freq_serialize, set_freq_deserialize, Keeps-set_freq, Parses-set_freq, Sends-set_freq,
  SetBandwidth, IsSetBandwidth, set_bandwidth_items, set_bandwidth_serialize,
  set_bandwidth_deserialize, Keeps-set_bandwidth, Parses-set_bandwidth, Sends-set_bandwidth,
  SetWatermark, IsSetWatermark, set_watermark_items, set_watermark_serialize,
  set_watermark_deserialize, Keeps-set_watermark, Parses-set_watermark, Sends-set_watermark,
  OrbitReport, IsOrbitReport, orbit_report_items, orbit_report_serialize, orbit_report_deserialize,
  Keeps-orbit_report, Parses-orbit_report, Sends-orbit_report,
}
use suscan.Message.Inspector.Orbit.{
  Orbit, IsOrbit, orbit_items, set_tle_serialize, set_tle_deserialize, Keeps-set_tle,
  Parses-set_tle, Sends-set_tle, Spectrum, IsSpectrum, spectrum_items, spectrum_serialize,
  spectrum_deserialize, Keeps-spectrum, Parses-spectrum, Sends-spectrum,
}
use suscan.Message.Inspector.Open.{Open, IsOpen, open_items, open_serialize, open_deserialize}
use suscan.Message.Inspector.Open.Wire.{Keeps-open, Parses-open, Sends-open}

-- What the fields of a message hold that its kind uses; `unknown_body` is a kind that is no enumerator.
pub data Body (Config : Type 0) : Type 0 where
  open_body : Open Config → Body Config
  config_body : Config → Body Config
  estimator_body : Estimator → Body Config
  spectrum_body : Spectrum → Body Config
  set_freq_body : SetFreq → Body Config
  set_bandwidth_body : SetBandwidth → Body Config
  set_watermark_body : SetWatermark → Body Config
  set_tle_body : Option Orbit → Body Config
  orbit_report_body : OrbitReport → Body Config
  empty_body : EmptyKind → Body Config
  unknown_body : ℕ → Body Config

-- The kind of the message
unfoldable pub body_number : {Config : Type 0} → Body Config → ℕ
unfolding kind_number empty_number
body_number (open_body v) = kind_number msgkind_open
body_number (config_body v) = kind_number msgkind_set_config
body_number (estimator_body v) = kind_number msgkind_estimator
body_number (spectrum_body v) = kind_number msgkind_spectrum
body_number (set_freq_body v) = kind_number msgkind_set_freq
body_number (set_bandwidth_body v) = kind_number msgkind_set_bandwidth
body_number (set_watermark_body v) = kind_number msgkind_set_watermark
body_number (set_tle_body v) = kind_number msgkind_set_tle
body_number (orbit_report_body v) = kind_number msgkind_orbit_report
body_number (empty_body kind) = empty_number kind
body_number (unknown_body n) = n

unfoldable pub body_items : {Config : Type 0} → (Config → List Item) → ℕ → Body Config → List Item
body_items config_items handle (open_body v) = open_items config_items handle v
body_items config_items handle (config_body v) = config_items v
body_items config_items handle (estimator_body v) = estimator_items v
body_items config_items handle (spectrum_body v) = spectrum_items v
body_items config_items handle (set_freq_body v) = set_freq_items v
body_items config_items handle (set_bandwidth_body v) = set_bandwidth_items v
body_items config_items handle (set_watermark_body v) = set_watermark_items v
body_items config_items handle (set_tle_body v) = optional_items orbit_items v
body_items config_items handle (orbit_report_body v) = orbit_report_items v
body_items config_items handle (empty_body kind) = []
body_items config_items handle (unknown_body n) = []

abbrev pub IsBody :
    {Config : Type 0} (IsConfig : Config → Type 0) (estimators spectsrcs : List ℕ → Bool)
    → Body Config
    → Type 0
IsBody IsConfig estimators spectsrcs (open_body v) = IsOpen IsConfig estimators spectsrcs v
IsBody IsConfig estimators spectsrcs (config_body v) = IsConfig v
IsBody IsConfig estimators spectsrcs (estimator_body v) = IsEstimator v
IsBody IsConfig estimators spectsrcs (spectrum_body v) = IsSpectrum v
IsBody IsConfig estimators spectsrcs (set_freq_body v) = IsSetFreq v
IsBody IsConfig estimators spectsrcs (set_bandwidth_body v) = IsSetBandwidth v
IsBody IsConfig estimators spectsrcs (set_watermark_body v) = IsSetWatermark v
IsBody IsConfig estimators spectsrcs (set_tle_body v) = IfAny IsOrbit v
IsBody IsConfig estimators spectsrcs (orbit_report_body v) = IsOrbitReport v
IsBody IsConfig estimators spectsrcs (empty_body kind) = Unit {0}
IsBody IsConfig estimators spectsrcs (unknown_body n) = ⊥

module _ ⦃g : GrowBuf⦄ where
  open g use {Buf}

  module _ (c : Configs) where
    open c use {
      Config, IsConfig, config_items, config_serialize, config_deserialize, Keeps-config,
      Parses-config, Sends-config,
    }

    -- The `switch` of the serializer
    unfoldable pub body_serialize : ℕ → Body Config → Call Buf (Unit {0})
    body_serialize handle (open_body v) = open_serialize c handle v
    body_serialize handle (config_body v) = config_serialize v
    body_serialize handle (estimator_body v) = estimator_serialize v
    body_serialize handle (spectrum_body v) = spectrum_serialize v
    body_serialize handle (set_freq_body v) = set_freq_serialize v
    body_serialize handle (set_bandwidth_body v) = set_bandwidth_serialize v
    body_serialize handle (set_watermark_body v) = set_watermark_serialize v
    body_serialize handle (set_tle_body v) = set_tle_serialize v
    body_serialize handle (orbit_report_body v) = orbit_report_serialize v
    body_serialize handle (empty_body kind) = pure tt
    body_serialize handle (unknown_body n) = fail su_false

    module _ (gives : ℕ → Bool) (estimators spectsrcs : List ℕ → Bool) where
      -- `suscan_analyzer_inspector_msg_deserialize_config`
      unfoldable pub set_config_deserialize : Call Buf Config
      set_config_deserialize = framed (config_deserialize gives)

      -- A body that does not read the handle of the message again
      unfoldable pub with_handle :
          {A : Type 0} → ℕ → (A → Body Config) → Call Buf A → Call Buf (ℕ × Body Config)
      with_handle handle body deserialize = do v ← deserialize; pure (handle, body v)

      -- The `switch` of the deserializer: the handle that the message then has, and the body
      unfoldable pub body_deserialize : ℕ → Option MsgKind → Call Buf (ℕ × Body Config)
      unfolding with_handle set_config_deserialize
      body_deserialize handle (some msgkind_open) = do
        o ← open_deserialize c gives estimators spectsrcs
        pure (o.0, open_body o.1)
      body_deserialize handle (some msgkind_set_config) =
          with_handle handle config_body set_config_deserialize
      body_deserialize handle (some msgkind_estimator) =
          with_handle handle estimator_body estimator_deserialize
      body_deserialize handle (some msgkind_spectrum) =
          with_handle handle spectrum_body (spectrum_deserialize gives)
      body_deserialize handle (some msgkind_set_freq) =
          with_handle handle set_freq_body set_freq_deserialize
      body_deserialize handle (some msgkind_set_bandwidth) =
          with_handle handle set_bandwidth_body set_bandwidth_deserialize
      body_deserialize handle (some msgkind_set_watermark) =
          with_handle handle set_watermark_body set_watermark_deserialize
      body_deserialize handle (some msgkind_set_tle) =
          with_handle handle set_tle_body (set_tle_deserialize gives)
      body_deserialize handle (some msgkind_orbit_report) =
          with_handle handle orbit_report_body orbit_report_deserialize
      body_deserialize handle (some (empty_kind kind)) = pure (handle, empty_body kind)
      body_deserialize handle none = fail su_false

      Keeps-with_handle :
          {A : Type 0} (handle : ℕ) (body : A → Body Config) (m : Call Buf A)
          → Keeps m
          → Keeps (with_handle handle body m)
      unfolding with_handle
      Keeps-with_handle handle body m p = Keeps-bind m _ p λ v. Keeps-pure (handle, body v)

      Parses-with_handle :
          {A : Type 0} {m : Call Buf A} {v : A} {is : List Item} (handle : ℕ)
          (body : A → Body Config)
          → Parses m v is
          → Parses (with_handle handle body m) (handle, body v) is
      unfolding with_handle
      Parses-with_handle {v} handle body p = Parses-last _ p (Parses-pure (handle, body v))

      pub Keeps-body : (handle : ℕ) (kind : Option MsgKind) → Keeps (body_deserialize handle kind)
      unfolding body_deserialize set_config_deserialize
      Keeps-body handle (some msgkind_open) =
          Keeps-bind _ _ (Keeps-open c gives estimators spectsrcs) λ o. Keeps-pure _
      Keeps-body handle (some msgkind_set_config) =
          Keeps-with_handle handle _ _ (Keeps-framed _ (Keeps-config gives))
      Keeps-body handle (some msgkind_estimator) = Keeps-with_handle handle _ _ Keeps-estimator
      Keeps-body handle (some msgkind_spectrum) =
          Keeps-with_handle handle _ _ (Keeps-spectrum gives)
      Keeps-body handle (some msgkind_set_freq) = Keeps-with_handle handle _ _ Keeps-set_freq
      Keeps-body handle (some msgkind_set_bandwidth) =
          Keeps-with_handle handle _ _ Keeps-set_bandwidth
      Keeps-body handle (some msgkind_set_watermark) =
          Keeps-with_handle handle _ _ Keeps-set_watermark
      Keeps-body handle (some msgkind_set_tle) = Keeps-with_handle handle _ _ (Keeps-set_tle gives)
      Keeps-body handle (some msgkind_orbit_report) =
          Keeps-with_handle handle _ _ Keeps-orbit_report
      Keeps-body handle (some (empty_kind kind)) = Keeps-pure _
      Keeps-body handle none = Keeps-fail su_false

      module _ (mem : (n : ℕ) → gives n ≡ true) where
        pub Parses-body :
            (handle : ℕ) (v : Body Config)
            → handle < 2 ^ 32
            → IsBody IsConfig estimators spectsrcs v
            → Parses
                (body_deserialize handle (kind_of (body_number v)))
                (handle, v)
                (body_items config_items handle v)
        unfolding body_deserialize body_items body_number set_config_deserialize
        Parses-body handle (open_body v) fits h = rw (kind_of-kind_number msgkind_open) (
            Parses-last _ (Parses-open c gives mem estimators spectsrcs handle v fits h)
              (Parses-pure (handle, open_body v)))
        Parses-body handle (config_body v) fits h =
            rw (kind_of-kind_number msgkind_set_config)
              (Parses-with_handle handle config_body (Parses-framed (Parses-config gives mem v h)))
        Parses-body handle (estimator_body v) fits h =
            rw (kind_of-kind_number msgkind_estimator)
              (Parses-with_handle handle estimator_body (Parses-estimator v h))
        Parses-body handle (spectrum_body v) fits h =
            rw (kind_of-kind_number msgkind_spectrum)
              (Parses-with_handle handle spectrum_body (Parses-spectrum gives mem v h))
        Parses-body handle (set_freq_body v) fits h =
            rw (kind_of-kind_number msgkind_set_freq)
              (Parses-with_handle handle set_freq_body (Parses-set_freq v h))
        Parses-body handle (set_bandwidth_body v) fits h =
            rw (kind_of-kind_number msgkind_set_bandwidth)
              (Parses-with_handle handle set_bandwidth_body (Parses-set_bandwidth v h))
        Parses-body handle (set_watermark_body v) fits h =
            rw (kind_of-kind_number msgkind_set_watermark)
              (Parses-with_handle handle set_watermark_body (Parses-set_watermark v h))
        Parses-body handle (set_tle_body v) fits h =
            rw (kind_of-kind_number msgkind_set_tle)
              (Parses-with_handle handle set_tle_body (Parses-set_tle gives mem v h))
        Parses-body handle (orbit_report_body v) fits h =
            rw (kind_of-kind_number msgkind_orbit_report)
              (Parses-with_handle handle orbit_report_body (Parses-orbit_report v h))
        Parses-body handle (empty_body kind) fits h =
            rw (kind_of-empty_number kind) (Parses-pure (handle, empty_body kind))
        Parses-body handle (unknown_body n) fits h = absurd h

    pub Sends-body :
        (estimators spectsrcs : List ℕ → Bool) (handle : ℕ) (v : Body Config)
        → handle < 2 ^ 32
        → IsBody IsConfig estimators spectsrcs v
        → Sends (body_serialize handle v) (encode_all (body_items config_items handle v))
    unfolding body_serialize body_items
    Sends-body estimators spectsrcs handle (open_body v) fits h =
        Sends-open c estimators spectsrcs handle v fits h
    Sends-body estimators spectsrcs handle (config_body v) fits h = Sends-config v h
    Sends-body estimators spectsrcs handle (estimator_body v) fits h = Sends-estimator v h
    Sends-body estimators spectsrcs handle (spectrum_body v) fits h = Sends-spectrum v h
    Sends-body estimators spectsrcs handle (set_freq_body v) fits h = Sends-set_freq v h
    Sends-body estimators spectsrcs handle (set_bandwidth_body v) fits h = Sends-set_bandwidth v h
    Sends-body estimators spectsrcs handle (set_watermark_body v) fits h = Sends-set_watermark v h
    Sends-body estimators spectsrcs handle (set_tle_body v) fits h = Sends-set_tle v h
    Sends-body estimators spectsrcs handle (orbit_report_body v) fits h = Sends-orbit_report v h
    Sends-body estimators spectsrcs handle (empty_body kind) fits h = Sends-none
    Sends-body estimators spectsrcs handle (unknown_body n) fits h = absurd h
