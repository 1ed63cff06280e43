-- ===== src/Config/Arrival.antt =====
-- A configuration that is sent, and what arrives of it where the receiver has the descriptor (util/cfg.c).
use suscan.Prelude.{
  ℕ, ◌<◌, ◌^◌, ◌*◌, ◌≡◌, refl, ap, ◌∙◌, sym, Bool, true, false, List, [], ◌∷◌, ◌++◌, some, ltb,
  length, arith, append-nil, append_assoc, length-append, lt→ltb, All,
}
use suscan.Prelude.Outcome.{ok, pure, ◌>>◌}
use suscan.GrowBuf.{GrowBuf}
use suscan.Cbor.Pack.{strlen, pack_str, pack_map_start}
use suscan.Cbor.Items.{Item, str, map, encode_all, Fits, pack_item, pack_items}
use suscan.Cbor.Wire.Reads.{Reads}
use suscan.Serial.Parse.{
  Parses, Parses-Field, Parses-pure, Parses-part, Parses-framed, IsText, map-Field,
}
use suscan.Serial.Codec.{Room, Sends, Sends-items, Parses-last}
use suscan.Config.{
  Field, FieldValue, Desc, Config, zeros, lookup_field_id, entry, store, stored, checked,
  checked_at, typed_field, config_init, new_values, with_value, with_desc,
}
use suscan.Config.Setting.{change_of, apply, apply-stored}
use suscan.Config.Lookup.{IsRegistered, lookup_registered}
use suscan.Config.Registry.{desc_lookup}
use suscan.Config.Wire.{
  lookup_field, pack_fields, config_serialize, or_fail, check, unpack_value, unpack_field,
  unpack_fields, find_desc, or_create, config_body, config_end, config_deserialize,
}
use suscan.Config.Fields.{Distinct, lookup_here, entry_here, store_here, same_type_refl}
use suscan.Config.Sendable.{
  Sendable, setting, value_item, arrived_value, setting_type-setting, change_of-setting,
  value_item-Fits, pack_value-item, text-Parses, setting-Parses,
}

-- A value that can be sent for each field, under a name that can be sent
abbrev pub AllSendable : List Field → List FieldValue → Type 0
AllSendable [] [] = Unit {0}
AllSendable (f ∷ fs) (v ∷ vs) = IsText f.name × Sendable f.type v.content × AllSendable fs vs
AllSendable _ _ = ⊥

-- A configuration that can be sent: it has a name, its fields have different names, and their values can be sent.
pub record IsSendable (cfg : Config) : Type 0 where
  pub named : 0 < length cfg.of.global_name
  pub name : IsText cfg.of.global_name
  pub count : length cfg.of.field_list < 2 ^ 32
  pub apart : Distinct cfg.of.field_list
  pub values : AllSendable cfg.of.field_list cfg.values

unfoldable pub field_items : List Field → List FieldValue → List Item
unfolding value_item
field_items (f ∷ fs) (v ∷ vs) = str f.name ∷ value_item f.type v.content ∷ field_items fs vs
field_items _ _ = []

unfoldable pub config_items : Config → List Item
unfolding field_items
config_items cfg =
    str cfg.of.global_name
    ∷ map (length cfg.of.field_list)
    ∷ field_items cfg.of.field_list cfg.values

unfoldable pub arrived_values : List Field → List FieldValue → List FieldValue
unfolding arrived_value
arrived_values (f ∷ fs) (v ∷ vs) = arrived_value f.type v ∷ arrived_values fs vs
arrived_values _ _ = []

-- What arrives: the same descriptor and contents; the flags are those of the setters.
unfoldable pub arrived : Config → Config
unfolding arrived_values
arrived cfg = record cfg { values = arrived_values cfg.of.field_list cfg.values }

abbrev blanks : List Field → List FieldValue
blanks [] = []
blanks (f ∷ fs) = record { set = false; content = zeros f.type } ∷ blanks fs

field_items-Fits :
    (fs : List Field) (vs : List FieldValue) → AllSendable fs vs → All Fits (field_items fs vs)
unfolding field_items
field_items-Fits [] [] h = tt
field_items-Fits [] (v ∷ vs) h = absurd h
field_items-Fits (f ∷ fs) [] h = absurd h
field_items-Fits (f ∷ fs) (v ∷ vs) h = (h.0, (value_item-Fits h.1, field_items-Fits fs vs h.2))

new_values-blanks :
    (gives : ℕ → Bool) (mem : (n : ℕ) → gives n ≡ true) (fs : List Field)
    → new_values gives fs ≡ some (blanks fs)
unfolding new_values with_value
new_values-blanks gives mem [] = refl
new_values-blanks gives mem (f ∷ fs) = rw (mem 24, new_values-blanks gives mem fs) refl

config_init-blanks :
    (gives : ℕ → Bool) (mem : (n : ℕ) → gives n ≡ true) (desc : Desc)
    → config_init gives desc ≡ some (record { of = desc; values = blanks desc.field_list })
unfolding config_init with_desc
config_init-blanks gives mem desc =
    rw (mem (length desc.field_list * 8), new_values-blanks gives mem desc.field_list) refl

-- A configuration whose first fields have arrived
abbrev arriving : Desc → List FieldValue → List Field → Config
arriving desc there fs = record { of = desc; values = there ++ blanks fs }

module _ (gives : ℕ → Bool) (mem : (n : ℕ) → gives n ≡ true) where
  apply_here :
      (desc : Desc) (ds : List Field) (there : List FieldValue) (f : Field) (fs : List Field)
      (v : FieldValue) (h : Sendable f.type v.content)
      → desc.field_list ≡ ds ++ (f ∷ fs)
      → length there ≡ length ds
      → Distinct desc.field_list
      → apply gives (arriving desc there (f ∷ fs)) f.name (setting h)
        ≡ some (record { of = desc; values = there ++ (arrived_value f.type v ∷ blanks fs) })
  unfolding typed_field checked_at checked stored
  apply_here desc ds there f fs v h e l d =
      let found : lookup_field_id desc.field_list f.name ≡ some (length ds) =
        rw e (lookup_here ds f fs (rw e at d)) in
      let field : entry desc.field_list (length ds) ≡ some f = rw e (entry_here ds f fs) in
      let there' : store (length ds) (change_of (setting h)) (there ++ blanks (f ∷ fs))
          ≡ there ++ (arrived_value f.type v ∷ blanks fs) =
        rw (sym l) (store_here there _ (blanks fs) (change_of (setting h)))
        ∙ ap (λ w. there ++ (w ∷ blanks fs)) (change_of-setting h v.set) in
      apply-stored gives mem (arriving desc there (f ∷ fs)) f.name (setting h)
      ∙ rw (setting_type-setting h, found, field, same_type_refl f.type)
          (ap (λ vs. some (record { of = desc; values = vs })) there')

  module _ ⦃g : GrowBuf⦄ where
    open g use {Buf}

    field-Parses :
        (desc : Desc) (ds : List Field) (there : List FieldValue) (f : Field) (fs : List Field)
        (v : FieldValue) (n : IsText f.name) (h : Sendable f.type v.content)
        → desc.field_list ≡ ds ++ (f ∷ fs)
        → length there ≡ length ds
        → Distinct desc.field_list
        → Parses
            (unpack_field gives (arriving desc there (f ∷ fs)))
            (record { of = desc; values = there ++ (arrived_value f.type v ∷ blanks fs) })
            (str f.name ∷ value_item f.type v.content ∷ [])
    unfolding unpack_field unpack_value lookup_field or_fail
    field-Parses desc ds there f fs v n h e l d =
        let found : lookup_field_id desc.field_list f.name ≡ some (length ds) =
          rw e (lookup_here ds f fs (rw e at d)) in
        let field : entry desc.field_list (length ds) ≡ some f = rw e (entry_here ds f fs) in
        Parses-part _ (text-Parses gives mem f.name n) (
          rw (found, field)
            (Parses-last _ (setting-Parses gives mem h)
              (rw (apply_here desc ds there f fs v h e l d) (Parses-pure _))))

    fields-Parses :
        (desc : Desc) (ds : List Field) (there : List FieldValue) (fs : List Field)
        (vs : List FieldValue)
        → desc.field_list ≡ ds ++ fs
        → length there ≡ length ds
        → Distinct desc.field_list
        → AllSendable fs vs
        → Parses
            (unpack_fields gives (length fs) (arriving desc there fs))
            (record { of = desc; values = there ++ arrived_values fs vs })
            (field_items fs vs)
    unfolding unpack_fields field_items arrived_values
    fields-Parses desc ds there [] [] e l d h = Parses-pure _
    fields-Parses desc ds there [] (v ∷ vs) e l d h = absurd h
    fields-Parses desc ds there (f ∷ fs) [] e l d h = absurd h
    fields-Parses desc ds there (f ∷ fs) (v ∷ vs) e l d h =
        let w = arrived_value f.type v in
        let next =
          fields-Parses desc (ds ++ (f ∷ [])) (there ++ (w ∷ [])) fs vs
            (e ∙ sym (append_assoc ds (f ∷ []) fs))
            (rw (length-append there (w ∷ []), length-append ds (f ∷ []), l) refl) d h.2 in
        Parses-part _ (field-Parses desc ds there f fs v h.0 h.1 e l d)
          (simp (append_assoc) at next)

    find_desc-known :
        (known : List Desc) (name : List ℕ) (desc : Desc)
        → desc_lookup known name ≡ some desc
        → find_desc gives known name ≡ pure (false, desc)
    unfolding find_desc or_create
    find_desc-known known name desc h = rw h refl

    body-Parses :
        (known : List Desc) (cfg : Config)
        → IsSendable cfg
        → desc_lookup known cfg.of.global_name ≡ some cfg.of
        → Parses (config_body gives known) (false, arrived cfg) (config_items cfg)
    unfolding config_body check or_fail config_items arrived
    body-Parses known cfg h has =
        let n : ltb 0 (strlen cfg.of.global_name) ≡ true =
          lt→ltb 0 _ (omega (arith, h.named, h.name.0)) in
        Parses-part _ (text-Parses gives mem cfg.of.global_name h.name) (
          rw (n, find_desc-known known cfg.of.global_name cfg.of has)
            (Parses-Field _ (map-Field (length cfg.of.field_list) (omega (arith, h.count))) (
              rw (config_init-blanks gives mem cfg.of) (
                Parses-last _
                  (fields-Parses cfg.of [] [] cfg.of.field_list cfg.values refl refl h.apart
                    h.values)
                  (Parses-pure _)))))

    pub config-Parses :
        (known later : List Desc) (cfg : Config)
        → IsSendable cfg
        → desc_lookup known cfg.of.global_name ≡ some cfg.of
        → Parses (config_deserialize gives known later) (arrived cfg) (config_items cfg)
    unfolding config_deserialize config_end
    config-Parses known later cfg h has =
        Parses-last _ (Parses-framed (body-Parses known cfg h has)) (Parses-pure (arrived cfg))

module _ ⦃g : GrowBuf⦄ where
  open g use {Buf, unread}

  pack_fields-items :
      (fs : List Field) (vs : List FieldValue)
      → AllSendable fs vs
      → pack_fields fs vs ≡ pack_items (field_items fs vs)
  unfolding pack_fields field_items pack_items pack_item
  pack_fields-items [] [] h = refl
  pack_fields-items [] (v ∷ vs) h = absurd h
  pack_fields-items (f ∷ fs) [] h = absurd h
  pack_fields-items (f ∷ fs) (v ∷ vs) h =
      λ i. pack_str (some f.name) >> (pack_value-item h.1 i >> pack_fields-items fs vs h.2 i)

  pub config-Sends :
      (cfg : Config) → IsSendable cfg → Sends (config_serialize cfg) (encode_all (config_items cfg))
  unfolding config_serialize config_items pack_items pack_item
  config-Sends cfg h =
      let same : config_serialize cfg ≡ pack_items (config_items cfg) = λ i.
        pack_str (some cfg.of.global_name)
        >> (pack_map_start (length cfg.of.field_list)
            >> pack_fields-items cfg.of.field_list cfg.values h.values i) in
      rw same (
        Sends-items (config_items cfg)
          (h.name, (omega (arith, h.count), field_items-Fits _ _ h.values)))

  -- A configuration with a name, with fewer than 2 ^ 32 fields of different names and with values that fit their C
  -- types, none of them of a file and no NUL in a name or a string, is serialized onto a buffer with nothing unread, where there is room. Where the receiver has
  -- registered its descriptor and there is memory, what arrives is a configuration of the same descriptor with
  -- the same contents, in which every value but the floats counts as set, and nothing is left unread.
  pub config_arrives :
      (gives : ℕ → Bool) (mem : (n : ℕ) → gives n ≡ true) (known later : List Desc) (cfg : Config)
      (b : Buf)
      → Room
      → IsSendable cfg
      → IsRegistered cfg.of known
      → unread b ≡ []
      → (sent : Buf) × (config_serialize cfg b ≡ (ok tt, sent))
        × Reads
            (config_deserialize gives known later)
            sent
            (arrived cfg)
            (encode_all (config_items cfg))
            []
  config_arrives gives mem known later cfg b room h has empty =
      let s = config-Sends cfg h in
      let sent = (config_serialize cfg b).1 in
      let done : config_serialize cfg b ≡ (ok tt, sent) = λ i. (s.succeeds room b i, sent) in
      (
        sent,
        done,
        (config-Parses gives mem known later cfg h (lookup_registered cfg.of known has)).at [] sent
            (s.appends.writes b sent done
              ∙ rw (empty, append-nil (encode_all (config_items cfg))) refl),
      )
