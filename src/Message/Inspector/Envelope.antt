-- ===== src/Message/Inspector/Envelope.antt =====
-- A whole inspector message: its head, and the body that its kind says (analyzer/msg.c).
use suscan.Prelude.{ℕ, Bool, true, ◌<◌, ◌^◌, ◌≡◌, List, [], ◌∷◌, ◌++◌, arith}
use suscan.Prelude.Int.{ℤ, pos}
use suscan.Prelude.Outcome.{Call, pure, ◌>>=◌, ◌>>◌}
use suscan.GrowBuf.{GrowBuf}
use suscan.Cbor.Items.{Item, uint, int, pack_items, encode_all}
use suscan.Cbor.Unpack.{unpack_uint_w, unpack_int_w}
use suscan.Serial.{framed}
use suscan.Serial.Parse.{
  Parses, Parses-Field, Parses-pure, Parses-framed, IsI32, wider, uint32-Field, uint64-Field,
  uint_as_int-Field, int32-Field,
}
use suscan.Serial.Keeps.{Keeps, keeps_rules}
use suscan.Serial.Codec.{Sends, Sends-items, Sends-then, Parses-last}
use suscan.Message.Time.{Time}
use suscan.Message.Inspector.Kind.{
  msgkind_open, msgkind_set_config, msgkind_estimator, msgkind_spectrum, msgkind_set_freq,
  msgkind_set_bandwidth, msgkind_set_watermark, msgkind_set_tle, msgkind_orbit_report, empty_kind,
  kind_number, kind_of, kind_number_small,
}
use suscan.Message.Configs.{Configs}
use suscan.Message.Inspector.Body.{
  Body, open_body, config_body, estimator_body, spectrum_body, set_freq_body, set_bandwidth_body,
  set_watermark_body, set_tle_body, orbit_report_body, empty_body, unknown_body, IsBody,
  body_number, body_items, body_serialize, body_deserialize, Keeps-body, Parses-body, Sends-body,
}

-- `struct suscan_analyzer_inspector_msg`
pub record Inspector (Config : Type 0) : Type 0 where
  pub inspector_id : ℕ
  pub req_id : ℕ
  pub handle : ℕ
  pub status : ℤ
  pub rt_time : Time
  pub body : Body Config

unfoldable pub inspector_head_items : {Config : Type 0} → Inspector Config → List Item
unfolding body_number
inspector_head_items v =
    int (pos (body_number v.body))
    ∷ int (pos v.inspector_id)
    ∷ int (pos v.req_id)
    ∷ int (pos v.handle)
    ∷ int v.status
    ∷ uint v.rt_time.sec
    ∷ uint v.rt_time.usec
    ∷ []

unfoldable pub inspector_items :
    {Config : Type 0} → (Config → List Item) → Inspector Config → List Item
unfolding inspector_head_items body_items
inspector_items config_items v = inspector_head_items v ++ body_items config_items v.handle v.body

abbrev pub IsInspector :
    {Config : Type 0} (IsConfig : Config → Type 0) (estimators spectsrcs : List ℕ → Bool)
    → Inspector Config
    → Type 0
IsInspector IsConfig estimators spectsrcs v =
    (v.inspector_id < 2 ^ 32)
    × (v.req_id < 2 ^ 32)
    × (v.handle < 2 ^ 32)
    × IsI32 v.status
    × (v.rt_time.sec < 2 ^ 64)
    × (v.rt_time.usec < 2 ^ 32)
    × IsBody IsConfig estimators spectsrcs v.body

-- A kind that can be sent has a small number.
body_number_small :
    {Config : Type 0} (IsConfig : Config → Type 0) (estimators spectsrcs : List ℕ → Bool)
    (v : Body Config)
    → IsBody IsConfig estimators spectsrcs v
    → body_number v < 2 ^ 32
unfolding body_number
body_number_small IsConfig estimators spectsrcs (open_body v) h =
    omega (arith, kind_number_small msgkind_open)
body_number_small IsConfig estimators spectsrcs (config_body v) h =
    omega (arith, kind_number_small msgkind_set_config)
body_number_small IsConfig estimators spectsrcs (estimator_body v) h =
    omega (arith, kind_number_small msgkind_estimator)
body_number_small IsConfig estimators spectsrcs (spectrum_body v) h =
    omega (arith, kind_number_small msgkind_spectrum)
body_number_small IsConfig estimators spectsrcs (set_freq_body v) h =
    omega (arith, kind_number_small msgkind_set_freq)
body_number_small IsConfig estimators spectsrcs (set_bandwidth_body v) h =
    omega (arith, kind_number_small msgkind_set_bandwidth)
body_number_small IsConfig estimators spectsrcs (set_watermark_body v) h =
    omega (arith, kind_number_small msgkind_set_watermark)
body_number_small IsConfig estimators spectsrcs (set_tle_body v) h =
    omega (arith, kind_number_small msgkind_set_tle)
body_number_small IsConfig estimators spectsrcs (orbit_report_body v) h =
    omega (arith, kind_number_small msgkind_orbit_report)
body_number_small IsConfig estimators spectsrcs (empty_body kind) h =
    unfold kind_number in omega (arith, kind_number_small (empty_kind kind))
body_number_small IsConfig estimators spectsrcs (unknown_body n) h = absurd h

module _ ⦃g : GrowBuf⦄ where
  open g use {Buf}

  module _ (c : Configs) where
    open c use {Config, IsConfig, config_items}

    unfoldable pub inspector_serialize : Inspector Config → Call Buf (Unit {0})
    unfolding inspector_head_items
    inspector_serialize v = pack_items (inspector_head_items v) >> body_serialize c v.handle v.body

    module _ (gives : ℕ → Bool) (estimators spectsrcs : List ℕ → Bool) where
      unfoldable pub inspector_deserialize : Call Buf (Inspector Config)
      inspector_deserialize = framed do
        kind ← unpack_uint_w 32
        inspector_id ← unpack_uint_w 32
        req_id ← unpack_uint_w 32
        handle ← unpack_uint_w 32
        status ← unpack_int_w 32
        rt_time_sec ← unpack_uint_w 64
        rt_time_usec ← unpack_uint_w 32
        content ← body_deserialize c gives estimators spectsrcs handle (kind_of kind)
        pure (record {
          inspector_id = inspector_id;
          req_id = req_id;
          handle = content.0;
          status = status;
          rt_time = record { sec = rt_time_sec; usec = rt_time_usec };
          body = content.1;
        })

      pub Keeps-inspector : Keeps inspector_deserialize
      unfolding inspector_deserialize
      Keeps-inspector = search (keeps_rules, Keeps-body) depth 60

      pub Parses-inspector :
          (mem : (n : ℕ) → gives n ≡ true) (v : Inspector Config)
          → IsInspector IsConfig estimators spectsrcs v
          → Parses inspector_deserialize v (inspector_items config_items v)
      unfolding inspector_deserialize inspector_items inspector_head_items
      Parses-inspector mem v h = Parses-framed (
          Parses-Field _
            (uint_as_int-Field (body_number v.body)
              (body_number_small IsConfig estimators spectsrcs v.body h.6))
            (Parses-Field _ (uint_as_int-Field v.inspector_id h.0) (
              Parses-Field _ (uint_as_int-Field v.req_id h.1) (
                Parses-Field _ (uint_as_int-Field v.handle h.2) (
                  Parses-Field _ (int32-Field v.status h.3) (
                    Parses-Field _ (uint64-Field v.rt_time.sec h.4) (
                      Parses-Field _ (uint32-Field v.rt_time.usec h.5) (
                        Parses-last _
                          (Parses-body c gives estimators spectsrcs mem v.handle v.body h.2 h.6)
                          (Parses-pure v)))))))))

    pub Sends-inspector :
        (estimators spectsrcs : List ℕ → Bool) (v : Inspector Config)
        → IsInspector IsConfig estimators spectsrcs v
        → Sends (inspector_serialize v) (encode_all (inspector_items config_items v))
    unfolding inspector_serialize inspector_items inspector_head_items
    Sends-inspector estimators spectsrcs v h =
        let small : body_number v.body < 2 ^ 32 =
          body_number_small IsConfig estimators spectsrcs v.body h.6 in
        Sends-then _ _
          (Sends-items _ (
            omega (arith, small),
            (
              omega (arith, h.0),
              (
                omega (arith, h.1),
                (omega (arith, h.2), (wider v.status h.3, (h.4, (omega (arith, h.5), tt)))),
              ),
            ),
          ))
          (Sends-body c estimators spectsrcs v.handle v.body h.2 h.6)
