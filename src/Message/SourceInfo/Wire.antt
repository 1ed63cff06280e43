-- ===== src/Message/SourceInfo/Wire.antt =====
-- How `struct suscan_analyzer_source_info` (analyzer/analyzer.c) is written and read.
use suscan.Prelude.{ℕ, Bool, true, ◌≡◌, List, length, arith}
use suscan.GrowBuf.{GrowBuf}
use suscan.Cbor.Items.{encode_all}
use suscan.Cbor.Unpack.{unpack_str}
use suscan.Serial.Parse.{
  Parses, Parses-Field, Parses-only, Parses-part, Parses-pure, Parses-framed, IsText, uint32-Field,
  uint64-Field, single-Field, double-Field, bool-Field, str-Field, map-Field,
}
use suscan.Serial.Keeps.{Keeps, Keeps-bind, keeps_rules}
use suscan.Serial.Codec.{
  Sends, calloc, Keeps-calloc, Parses-calloc, Sends-items, Sends-then, Sends-each, Keeps-counted,
  Parses-counted, Parses-last, Keeps-optional, Parses-optional, Sends-optional, Parses-after,
}
use suscan.Message.Gain.{
  Gain, IsGain, gain_items, gain_serialize, gain_deserialize, Keeps-gain, Parses-gain, Sends-gain,
}
use suscan.Message.SourceParts.{
  IsQth, qth_items, qth_deserialize, Keeps-qth, Parses-qth, qth-Fits, IsWindow, window_items,
  window_deserialize, Keeps-window, Parses-window, window-Fits,
}
use suscan.Message.SourceInfo.{
  SourceInfo, antenna_items, source_head_items, source_info_items, IsSourceInfo, antenna_serialize,
  source_info_serialize, gain_entry, source_info_deserialize,
}

module _ ⦃g : GrowBuf⦄ where
  open g use {Buf}

  pub Sends-antenna :
      (name : List ℕ)
      → IsText name
      → Sends (antenna_serialize name) (encode_all (antenna_items name))
  unfolding antenna_serialize antenna_items
  Sends-antenna name h = Sends-items _ (h, tt)

  Keeps-gain_entry : (gives : ℕ → Bool) → Keeps (gain_entry gives)
  unfolding gain_entry
  Keeps-gain_entry gives =
      Keeps-bind (calloc gives 24) (λ _. gain_deserialize gives) (Keeps-calloc gives 24)
        λ _. Keeps-gain gives

  Parses-gain_entry :
      (gives : ℕ → Bool) (mem : (n : ℕ) → gives n ≡ true)
      → (v : Gain) → IsGain v
      → Parses (gain_entry gives) v (gain_items v)
  unfolding gain_entry
  Parses-gain_entry gives mem v h =
      Parses-after (λ _. gain_deserialize gives) (Parses-calloc gives mem 24)
        (Parses-gain gives mem v h)

  Parses-antenna :
      (gives : ℕ → Bool) (mem : (n : ℕ) → gives n ≡ true)
      → (v : List ℕ) → IsText v
      → Parses (unpack_str gives) v (antenna_items v)
  unfolding antenna_items
  Parses-antenna gives mem v h = Parses-only (str-Field gives mem v h)

  pub Keeps-source_info : (gives : ℕ → Bool) → Keeps (source_info_deserialize gives)
  unfolding source_info_deserialize
  Keeps-source_info gives =
      search (keeps_rules, Keeps-optional, Keeps-counted, Keeps-qth, Keeps-window, Keeps-gain_entry)
        depth 100

  pub Parses-source_info :
      (gives : ℕ → Bool) (mem : (n : ℕ) → gives n ≡ true)
      → (v : SourceInfo) → IsSourceInfo v
      → Parses (source_info_deserialize gives) v (source_info_items v)
  unfolding source_info_deserialize source_info_items source_head_items
  Parses-source_info gives mem v h = Parses-framed (
      Parses-Field _ (uint64-Field v.permissions h.0) (
        Parses-Field _ (uint64-Field v.source_samp_rate h.1) (
          Parses-Field _ (uint64-Field v.effective_samp_rate h.2) (
            Parses-Field _ (single-Field v.measured_samp_rate h.3) (
              Parses-Field _ (double-Field v.frequency h.4) (
                Parses-Field _ (double-Field v.freq_min h.5) (
                  Parses-Field _ (double-Field v.freq_max h.6) (
                    Parses-Field _ (double-Field v.lnb h.7) (
                      Parses-Field _ (single-Field v.bandwidth h.8) (
                        Parses-Field _ (single-Field v.ppm h.9) (
                          Parses-Field _ (str-Field gives mem v.antenna h.10) (
                            Parses-Field _ (bool-Field v.dc_remove) (
                              Parses-Field _ (bool-Field v.iq_reverse) (
                                Parses-Field _ (bool-Field v.agc) (
                                  Parses-part _
                                    (Parses-optional IsQth qth_deserialize qth_items Parses-qth
                                      v.qth h.11)
                                    (Parses-Field _ (uint64-Field v.source_time.sec h.12) (
                                      Parses-Field _ (uint32-Field v.source_time.usec h.13) (
                                        Parses-part _
                                          (Parses-optional IsWindow window_deserialize window_items
                                            Parses-window v.window h.14)
                                          (Parses-Field _
                                            (map-Field (length v.gains) (omega (arith, h.16)))
                                            (Parses-part _
                                              (Parses-counted gives mem IsGain (gain_entry gives)
                                                gain_items (Parses-gain_entry gives mem) v.gains
                                                h.15 h.16)
                                              (Parses-Field _
                                                (map-Field (length v.antennas)
                                                  (omega (arith, h.18)))
                                                (Parses-last _
                                                  (Parses-counted gives mem IsText
                                                    (unpack_str gives) antenna_items
                                                    (Parses-antenna gives mem) v.antennas h.17 h.18)
                                                  (Parses-pure v)))))))))))))))))))))))

  pub Sends-source_info :
      (v : SourceInfo)
      → IsSourceInfo v
      → Sends (source_info_serialize v) (encode_all (source_info_items v))
  unfolding source_info_serialize source_info_items source_head_items
  Sends-source_info v h =
      Sends-then _ _
        (Sends-items _ (
          h.0,
          (
            h.1,
            (h.2, (h.3, (h.4, (h.5, (h.6, (h.7, (h.8, (h.9, (h.10, (tt, (tt, (tt, tt)))))))))))),
          ),
        ))
        (Sends-then _ _ (Sends-optional IsQth qth_items qth-Fits v.qth h.11) (
          Sends-then _ _ (Sends-items _ (h.12, (omega (arith, h.13), tt))) (
            Sends-then _ _ (Sends-optional IsWindow window_items window-Fits v.window h.14) (
              Sends-then _ _ (Sends-items _ (omega (arith, h.16), tt)) (
                Sends-then _ _ (Sends-each IsGain gain_serialize gain_items Sends-gain v.gains h.15)
                  (Sends-then _ _ (Sends-items _ (omega (arith, h.18), tt)) (
                    Sends-each IsText antenna_serialize antenna_items Sends-antenna v.antennas
                      h.17)))))))
