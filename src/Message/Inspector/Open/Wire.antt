-- ===== src/Message/Inspector/Open/Wire.antt =====
-- How the message that opens an inspector (analyzer/msg.c) is written and read.
use suscan.Prelude.{
  ℕ, Bool, true, false, ◌<◌, ◌^◌, ◌*◌, ◌%◌, ◌≡◌, List, length, All, Option, none, some, arith,
}
use suscan.Prelude.Outcome.{su_false}
use suscan.GrowBuf.{GrowBuf}
use suscan.Cbor.Items.{encode_all}
use suscan.Serial.Parse.{
  Parses, Parses-Field, Parses-part, Parses-pure, Parses-framed, uint32-Field, single-Field,
  bool-Field, str-Field, array-Field,
}
use suscan.Serial.Keeps.{Keeps, Keeps-pure, Keeps-fail, Keeps-bind, keeps_rules}
use suscan.Serial.Codec.{
  Sends, Keeps-calloc, Parses-calloc, Keeps-repeat, Parses-repeat, Sends-items, Sends-then,
  Sends-each, items_of, Parses-last, Parses-after,
}
use suscan.Message.Channel.{Keeps-channel, Parses-channel, Sends-channel}
use suscan.Message.Configs.{Configs}
use suscan.Message.Inspector.Open.{
  Open, class_items, config_part, open_items, IsSome, IsClass, IsOpen, class_serialize, lookup,
  class_deserialize, classes, config_part_serialize, open_serialize, config_part_deserialize,
  open_deserialize,
}

module _ ⦃g : GrowBuf⦄ where
  open g use {Buf}

  Sends-class :
      (registered : List ℕ → Bool) (v : Option (List ℕ))
      → IsClass registered v
      → Sends (class_serialize v) (encode_all (class_items v))
  unfolding class_serialize class_items
  Sends-class registered (some name) h = Sends-items _ (h.0, tt)
  Sends-class registered none h = absurd h

  Parses-class :
      (gives : ℕ → Bool) (mem : (n : ℕ) → gives n ≡ true) (registered : List ℕ → Bool)
      (v : Option (List ℕ))
      → IsClass registered v
      → Parses (class_deserialize gives registered) v (class_items v)
  unfolding class_deserialize class_items lookup
  Parses-class gives mem registered (some name) h =
      Parses-Field _ (str-Field gives mem name h.0) (rw (h.1) (Parses-pure (some name)))
  Parses-class gives mem registered none h = absurd h

  Parses-classes :
      (gives : ℕ → Bool) (mem : (n : ℕ) → gives n ≡ true) (registered : List ℕ → Bool)
      (vs : List (Option (List ℕ)))
      → All (IsClass registered) vs
      → length vs < 2 ^ 32
      → Parses (classes gives registered (length vs, false)) vs (items_of class_items vs)
  unfolding classes
  Parses-classes gives mem registered vs h short =
      let fits : length vs % 2 ^ 32 ≡ length vs = omega (arith, short) in
      rw fits (
        Parses-after _ (Parses-calloc gives mem (length vs * 8)) (
          Parses-repeat (IsClass registered) _ class_items (Parses-class gives mem registered) vs
            h))

  Keeps-classes :
      (gives : ℕ → Bool) (registered : List ℕ → Bool) (start : ℕ × Bool)
      → Keeps (classes gives registered start)
  unfolding classes class_deserialize
  Keeps-classes gives registered (nelem, true) = Keeps-fail su_false
  Keeps-classes gives registered (nelem, false) =
      search (keeps_rules, Keeps-calloc, Keeps-repeat) depth 30

  module _ (c : Configs) where
    open c use {
      Config, IsConfig, config_items, config_serialize, config_deserialize, Keeps-config,
      Parses-config, Sends-config,
    }

    Keeps-config_part : (gives : ℕ → Bool) → Keeps ((config_part_deserialize c) gives)
    unfolding config_part_deserialize
    Keeps-config_part gives =
        Keeps-bind (config_deserialize gives) _ (Keeps-config gives) λ v. Keeps-pure (some v)

    Parses-config_part :
        (gives : ℕ → Bool) (mem : (n : ℕ) → gives n ≡ true) (v : Option Config)
        → IsSome IsConfig v
        → Parses ((config_part_deserialize c) gives) v (config_part config_items v)
    unfolding config_part_deserialize config_part
    Parses-config_part gives mem (some v) h =
        Parses-last _ (Parses-config gives mem v h) (Parses-pure (some v))
    Parses-config_part gives mem none h = absurd h

    Sends-config_part :
        (v : Option Config)
        → IsSome IsConfig v
        → Sends ((config_part_serialize c) v) (encode_all (config_part config_items v))
    unfolding config_part_serialize config_part
    Sends-config_part (some v) h = Sends-config v h
    Sends-config_part none h = absurd h

    pub Keeps-open :
        (gives : ℕ → Bool) (estimators spectsrcs : List ℕ → Bool)
        → Keeps ((open_deserialize c) gives estimators spectsrcs)
    unfolding open_deserialize
    Keeps-open gives estimators spectsrcs =
        search (keeps_rules, Keeps-channel, Keeps-config_part, Keeps-classes) depth 60

    pub Parses-open :
        (gives : ℕ → Bool) (mem : (n : ℕ) → gives n ≡ true) (estimators spectsrcs : List ℕ → Bool)
        (handle : ℕ) (v : Open Config)
        → handle < 2 ^ 32
        → IsOpen IsConfig estimators spectsrcs v
        → Parses
            ((open_deserialize c) gives estimators spectsrcs)
            (handle, v)
            (open_items config_items handle v)
    unfolding open_deserialize open_items
    Parses-open gives mem estimators spectsrcs handle v fits h = Parses-framed (
        Parses-Field _ (str-Field gives mem v.class_name h.0) (
          Parses-part _ (Parses-channel v.channel h.1) (
            Parses-part _ (Parses-config_part gives mem v.config h.2) (
              Parses-Field _ (uint32-Field handle fits) (
                Parses-Field _ (bool-Field v.precise) (
                  Parses-Field _ (uint32-Field v.fs h.3) (
                    Parses-Field _ (single-Field v.equiv_fs h.4) (
                      Parses-Field _ (single-Field v.bandwidth h.5) (
                        Parses-Field _ (single-Field v.lo h.6) (
                          Parses-Field _ (array-Field (length v.estimators) (omega (arith, h.8))) (
                            Parses-part _ (Parses-classes gives mem estimators v.estimators h.7 h.8)
                              (Parses-Field _
                                (array-Field (length v.spectsrcs) (omega (arith, h.10)))
                                (Parses-last _
                                  (Parses-classes gives mem spectsrcs v.spectsrcs h.9 h.10)
                                  (Parses-pure (handle, v)))))))))))))))

    pub Sends-open :
        (estimators spectsrcs : List ℕ → Bool) (handle : ℕ) (v : Open Config)
        → handle < 2 ^ 32
        → IsOpen IsConfig estimators spectsrcs v
        → Sends ((open_serialize c) handle v) (encode_all (open_items config_items handle v))
    unfolding open_serialize open_items
    Sends-open estimators spectsrcs handle v fits h = Sends-then _ _ (Sends-items _ (h.0, tt)) (
        Sends-then _ _ (Sends-channel v.channel h.1) (
          Sends-then _ _ (Sends-config_part v.config h.2) (
            Sends-then _ _
              (Sends-items _ (
                omega (arith, fits),
                (tt, (omega (arith, h.3), (h.4, (h.5, (h.6, (omega (arith, h.8), tt)))))),
              ))
              (Sends-then _ _
                (Sends-each (IsClass estimators) class_serialize class_items
                  (Sends-class estimators) v.estimators h.7)
                (Sends-then _ _ (Sends-items _ (omega (arith, h.10), tt)) (
                  Sends-each (IsClass spectsrcs) class_serialize class_items (Sends-class spectsrcs)
                    v.spectsrcs h.9))))))
