-- ===== src/Message/Hello.antt =====
-- The server's greeting, of analyzer/impl/remote.c, with the multicast group that it may name.
use suscan.Prelude.{
  ℕ, Bool, true, false, ◌<◌, ◌^◌, ◌%◌, ◌≡◌, sym, List, [], ◌∷◌, ◌++◌, length, arith, if◌then◌else◌,
  ◌==◌, eq→==, Bool-cases, inl, inr,
}
use suscan.Prelude.Outcome.{Call, pure, fail, ◌>>=◌, ◌>>◌, su_false}
use suscan.GrowBuf.{GrowBuf}
use suscan.Cbor.Items.{Item, uint, str, blob, pack_items, encode_all}
use suscan.Cbor.Unpack.{unpack_str, unpack_uint_w, unpack_blob}
use suscan.Serial.{framed}
use suscan.Serial.Parse.{
  Parses, Parses-Field, Parses-pure, Parses-framed, IsText, uint8-Field, uint32-Field, str-Field,
  blob-Field,
}
use suscan.Serial.Keeps.{Keeps, keeps_rules}
use suscan.Serial.Codec.{
  Sends, Sends-items, Sends-then, Parses-last, Parses-check, Sends-none, Parses-after,
}
use suscan.Message.ClientAuth.{sha256_block_size}
use suscan.Message.Multicast.{
  MulticastInfo, IsMulticastInfo, multicast_info_items, multicast_info_serialize,
  multicast_info_deserialize, Keeps-multicast_info, Parses-multicast_info, Sends-multicast_info,
}

-- `struct suscan_analyzer_server_hello`
pub record ServerHello : Type 0 where
  pub server_name : List ℕ
  pub protocol_version_major : ℕ
  pub protocol_version_minor : ℕ
  pub auth_mode : ℕ
  pub enc_type : ℕ
  pub sha256salt : List ℕ
  pub flags : ℕ
  pub mc_info : MulticastInfo

-- `self->flags & SUSCAN_REMOTE_FLAGS_MULTICAST`
unfoldable pub is_multicast : ServerHello → Bool
is_multicast v = v.flags % 2 == 1

unfoldable pub hello_head_items : ServerHello → List Item
hello_head_items v =
    str v.server_name
    ∷ uint v.protocol_version_major
    ∷ uint v.protocol_version_minor
    ∷ uint v.auth_mode
    ∷ uint v.enc_type
    ∷ blob v.sha256salt
    ∷ uint v.flags
    ∷ []

unfoldable pub hello_items : ServerHello → List Item
unfolding hello_head_items is_multicast
hello_items v =
    hello_head_items v ++ (if is_multicast v then multicast_info_items v.mc_info else [])

abbrev pub IsHello : ServerHello → Type 0
IsHello v =
    IsText v.server_name
    × (v.protocol_version_major < 2 ^ 8)
    × (v.protocol_version_minor < 2 ^ 8)
    × (v.auth_mode < 2 ^ 8)
    × (v.enc_type < 2 ^ 8)
    × (length v.sha256salt ≡ sha256_block_size)
    × (v.flags < 2 ^ 32)
    × IsMulticastInfo v.mc_info

module _ ⦃g : GrowBuf⦄ where
  open g use {Buf}

  unfoldable pub hello_serialize : ServerHello → Call Buf (Unit {0})
  unfolding hello_head_items is_multicast
  hello_serialize v =
      pack_items (hello_head_items v)
      >> (if is_multicast v then multicast_info_serialize v.mc_info else pure tt)

  -- `mc_info` is what the structure holds at the call.
  unfoldable pub hello_deserialize : (ℕ → Bool) → MulticastInfo → Call Buf ServerHello
  unfolding is_multicast
  hello_deserialize gives mc_info = framed do
    server_name ← unpack_str gives
    protocol_version_major ← unpack_uint_w 8
    protocol_version_minor ← unpack_uint_w 8
    auth_mode ← unpack_uint_w 8
    enc_type ← unpack_uint_w 8
    sha256salt ← unpack_blob gives 0
    flags ← unpack_uint_w 32
    if length sha256salt == sha256_block_size then pure tt else fail su_false
    info ← (if flags % 2 == 1 then multicast_info_deserialize else pure mc_info)
    pure (record {
      server_name = server_name;
      protocol_version_major = protocol_version_major;
      protocol_version_minor = protocol_version_minor;
      auth_mode = auth_mode;
      enc_type = enc_type;
      sha256salt = sha256salt;
      flags = flags;
      mc_info = info;
    })

  pub Keeps-hello :
      (gives : ℕ → Bool) (mc_info : MulticastInfo) → Keeps (hello_deserialize gives mc_info)
  unfolding hello_deserialize
  Keeps-hello gives mc_info = search (keeps_rules, Keeps-multicast_info) depth 60

  Parses-group :
      (mc_info : MulticastInfo) (v : ServerHello)
      → IsMulticastInfo v.mc_info
      → (is_multicast v ≡ false → mc_info ≡ v.mc_info)
      → Parses
          (if v.flags % 2 == 1 then multicast_info_deserialize else pure mc_info)
          v.mc_info
          (if v.flags % 2 == 1 then multicast_info_items v.mc_info else [])
  unfolding is_multicast
  Parses-group mc_info v h same = elim (Bool-cases (v.flags % 2 == 1)) [
    | inl e ↦ rw e (Parses-multicast_info v.mc_info h)
    | inr e ↦ rw (e, sym (same e)) (Parses-pure mc_info)
  ]

  -- The structure comes back, its multicast group where the flag is set; where it is not, the group stays as it was.
  pub Parses-hello :
      (gives : ℕ → Bool) (mem : (n : ℕ) → gives n ≡ true) (mc_info : MulticastInfo)
      (v : ServerHello)
      → IsHello v
      → (is_multicast v ≡ false → mc_info ≡ v.mc_info)
      → Parses (hello_deserialize gives mc_info) v (hello_items v)
  unfolding hello_deserialize hello_items hello_head_items is_multicast
  Parses-hello gives mem mc_info v h same = Parses-framed (
      Parses-Field _ (str-Field gives mem v.server_name h.0) (
        Parses-Field _ (uint8-Field v.protocol_version_major h.1) (
          Parses-Field _ (uint8-Field v.protocol_version_minor h.2) (
            Parses-Field _ (uint8-Field v.auth_mode h.3) (
              Parses-Field _ (uint8-Field v.enc_type h.4) (
                Parses-Field _
                  (blob-Field gives mem 0 v.sha256salt (omega (arith, h.5)) (omega (arith, h.5)))
                  (Parses-Field _ (uint32-Field v.flags h.6) (
                    Parses-after _ (Parses-check _ (eq→== _ _ h.5))
                      (Parses-last _ (Parses-group mc_info v h.7 same) (Parses-pure v))))))))))

  pub Sends-hello :
      (v : ServerHello) → IsHello v → Sends (hello_serialize v) (encode_all (hello_items v))
  unfolding hello_serialize hello_items hello_head_items is_multicast
  Sends-hello v h =
      Sends-then _ _
        (Sends-items _ (
          h.0,
          (
            omega (arith, h.1),
            (
              omega (arith, h.2),
              (
                omega (arith, h.3),
                (
                  omega (arith, h.4),
                  ((omega (arith, h.5), omega (arith, h.5)), (omega (arith, h.6), tt)),
                ),
              ),
            ),
          ),
        ))
        (elim (Bool-cases (v.flags % 2 == 1)) [
          | inl e ↦ rw e (Sends-multicast_info v.mc_info h.7)
          | inr e ↦ rw e Sends-none
        ])
