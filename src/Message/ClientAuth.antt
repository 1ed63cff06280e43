-- ===== src/Message/ClientAuth.antt =====
-- The client's answer to the greeting, of analyzer/impl/remote.c.
use suscan.Prelude.{
  ℕ, Bool, true, ◌<◌, ◌^◌, ◌≡◌, List, [], ◌∷◌, length, arith, if◌then◌else◌, ◌==◌, eq→==,
}
use suscan.Prelude.Outcome.{Call, pure, fail, ◌>>=◌, ◌>>◌, su_false}
use suscan.GrowBuf.{GrowBuf}
use suscan.Cbor.Items.{Item, uint, str, blob, pack_items, encode_all}
use suscan.Cbor.Unpack.{unpack_str, unpack_uint_w, unpack_blob}
use suscan.Serial.{framed}
use suscan.Serial.Parse.{
  Parses, Parses-Field, Parses-pure, Parses-framed, IsText, uint8-Field, uint32-Field, str-Field,
  blob-Field,
}
use suscan.Serial.Keeps.{Keeps, keeps_rules}
use suscan.Serial.Codec.{Sends, Sends-items, Parses-check, Parses-after}

-- `SHA256_BLOCK_SIZE`
abbrev pub sha256_block_size : ℕ
sha256_block_size = 32

-- `struct suscan_analyzer_server_client_auth`
pub record ClientAuth : Type 0 where
  pub client_name : List ℕ
  pub protocol_version_major : ℕ
  pub protocol_version_minor : ℕ
  pub user : List ℕ
  pub sha256token : List ℕ
  pub flags : ℕ

unfoldable pub client_auth_items : ClientAuth → List Item
client_auth_items v =
    str v.client_name
    ∷ uint v.protocol_version_major
    ∷ uint v.protocol_version_minor
    ∷ str v.user
    ∷ blob v.sha256token
    ∷ uint v.flags
    ∷ []

abbrev pub IsClientAuth : ClientAuth → Type 0
IsClientAuth v =
    IsText v.client_name
    × (v.protocol_version_major < 2 ^ 8)
    × (v.protocol_version_minor < 2 ^ 8)
    × IsText v.user
    × (length v.sha256token ≡ sha256_block_size)
    × (v.flags < 2 ^ 32)

module _ ⦃g : GrowBuf⦄ where
  open g use {Buf}

  unfoldable pub client_auth_serialize : ClientAuth → Call Buf (Unit {0})
  unfolding client_auth_items
  client_auth_serialize v = pack_items (client_auth_items v)

  unfoldable pub client_auth_deserialize : (ℕ → Bool) → Call Buf ClientAuth
  client_auth_deserialize gives = framed do
    client_name ← unpack_str gives
    protocol_version_major ← unpack_uint_w 8
    protocol_version_minor ← unpack_uint_w 8
    user ← unpack_str gives
    sha256token ← unpack_blob gives 0
    if length sha256token == sha256_block_size then pure tt else fail su_false
    flags ← unpack_uint_w 32
    pure (record {
      client_name = client_name;
      protocol_version_major = protocol_version_major;
      protocol_version_minor = protocol_version_minor;
      user = user;
      sha256token = sha256token;
      flags = flags;
    })

  pub Keeps-client_auth : (gives : ℕ → Bool) → Keeps (client_auth_deserialize gives)
  unfolding client_auth_deserialize
  Keeps-client_auth gives = search keeps_rules depth 60

  pub Parses-client_auth :
      (gives : ℕ → Bool) (mem : (n : ℕ) → gives n ≡ true)
      → (v : ClientAuth) → IsClientAuth v
      → Parses (client_auth_deserialize gives) v (client_auth_items v)
  unfolding client_auth_deserialize client_auth_items
  Parses-client_auth gives mem v h = Parses-framed (
      Parses-Field _ (str-Field gives mem v.client_name h.0) (
        Parses-Field _ (uint8-Field v.protocol_version_major h.1) (
          Parses-Field _ (uint8-Field v.protocol_version_minor h.2) (
            Parses-Field _ (str-Field gives mem v.user h.3) (
              Parses-Field _
                (blob-Field gives mem 0 v.sha256token (omega (arith, h.4)) (omega (arith, h.4)))
                (Parses-after _ (Parses-check _ (eq→== _ _ h.4))
                  (Parses-Field _ (uint32-Field v.flags h.5) (Parses-pure v))))))))

  pub Sends-client_auth :
      (v : ClientAuth)
      → IsClientAuth v
      → Sends (client_auth_serialize v) (encode_all (client_auth_items v))
  unfolding client_auth_serialize client_auth_items
  Sends-client_auth v h = Sends-items _ (
    h.0,
    (
      omega (arith, h.1),
      (
        omega (arith, h.2),
        (h.3, ((omega (arith, h.4), omega (arith, h.4)), (omega (arith, h.5), tt))),
      ),
    ),
  )
