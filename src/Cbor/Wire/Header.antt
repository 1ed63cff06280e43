-- ===== src/Cbor/Wire/Header.antt =====
-- The head of an item: a type byte, and the shortest big-endian word that holds a number above 23.
use suscan.Prelude.{
  ℕ, ◌^◌, ◌≤◌, ◌<◌, ◌≡◌, List, [], ◌∷◌, arith, leb, Bool-cases, inl, inr, Bool, true, false,
  if◌then◌else◌,
}
use suscan.Prelude.Outcome.{Call, ◌>>◌}
use suscan.GrowBuf.{GrowBuf}
use suscan.Cbor.Format.{mktype, cpu8_to_be, cpu16_to_be, cpu32_to_be, cpu64_to_be}
use suscan.Cbor.Pack.{pack_cbor_type_byte, pack_cbor_type}
use suscan.Cbor.Wire.Reads.{Appends, Appends-append, Appends-bind}

-- The additional information `extra` and the bytes `more` that stand for `v`.
pub data Form (v : ℕ) : ℕ → List ℕ → Type 0 where
  short : v ≤ 23 → Form v v []
  one : 23 < v → v ≤ 0xff → Form v 24 (cpu8_to_be v)
  two : 0xff < v → v ≤ 0xffff → Form v 25 (cpu16_to_be v)
  four : 0xffff < v → v ≤ 0xffff_ffff → Form v 26 (cpu32_to_be v)
  eight : 0xffff_ffff < v → v < 2 ^ 64 → Form v 27 (cpu64_to_be v)

-- The head of an item of major type `type` with the number `v`.
unfoldable pub header : ℕ → ℕ → List ℕ
header type v =
    if leb v 23
    then mktype type v ∷ []
    else if leb v 0xff
    then mktype type 24 ∷ cpu8_to_be v
    else if leb v 0xffff
    then mktype type 25 ∷ cpu16_to_be v
    else if leb v 0xffff_ffff
    then mktype type 26 ∷ cpu32_to_be v
    else mktype type 27 ∷ cpu64_to_be v

pub record HasForm (v : ℕ) : Type 0 where
  pub extra : ℕ
  pub more : List ℕ
  pub form : Form v extra more
  pub bytes : (type : ℕ) → header type v ≡ mktype type extra ∷ more

pub has_form : (v : ℕ) → v < 2 ^ 64 → HasForm v
unfolding header
has_form v h = elim (Bool-cases (leb v 23)) [
  | inl a ↦ record { extra = v; more = []; form = short (ground arith); bytes = λ type. rw a }
  | inr a ↦ elim (Bool-cases (leb v 0xff)) [
    | inl b ↦ record {
      extra = 24;
      more = _;
      form = one (ground arith) (ground arith);
      bytes = λ type. rw (a, b);
    }
    | inr b ↦ elim (Bool-cases (leb v 0xffff)) [
      | inl c ↦ record {
        extra = 25;
        more = _;
        form = two (ground arith) (ground arith);
        bytes = λ type. rw (a, b, c);
      }
      | inr c ↦ elim (Bool-cases (leb v 0xffff_ffff)) [
        | inl d ↦ record {
          extra = 26;
          more = _;
          form = four (ground arith) (ground arith);
          bytes = λ type. rw (a, b, c, d);
        }
        | inr d ↦ record {
          extra = 27;
          more = _;
          form = eight (ground arith) h;
          bytes = λ type. rw (a, b, c, d);
        }
      ]
    ]
  ]
]

pub Form-lt : (v extra : ℕ) (bytes : List ℕ) → Form v extra bytes → extra < 31
Form-lt v extra bytes (short le) = omega arith
Form-lt v extra bytes (one lo hi) = omega arith
Form-lt v extra bytes (two lo hi) = omega arith
Form-lt v extra bytes (four lo hi) = omega arith
Form-lt v extra bytes (eight lo hi) = omega arith

module _ ⦃g : GrowBuf⦄ where
  open g use {Buf, unread}

  pub Appends-if :
      (c : Bool) {m k : Call Buf (Unit {0})} {bs cs : List ℕ}
      → Appends m bs
      → Appends k cs
      → Appends (if c then m else k) (if c then bs else cs)
  Appends-if true a b = a
  Appends-if false a b = b

  pub Appends-word :
      (type extra : ℕ) (bytes : List ℕ)
      → Appends (pack_cbor_type_byte type extra >> g.append bytes) (mktype type extra ∷ bytes)
  unfolding pack_cbor_type_byte
  Appends-word type extra bytes =
      Appends-bind (Appends-append (mktype type extra ∷ [])) (Appends-append bytes)

  pub Appends-pack_cbor_type : (type v : ℕ) → Appends (pack_cbor_type type v) (header type v)
  unfolding pack_cbor_type header
  Appends-pack_cbor_type type v =
      Appends-if (leb v 23) (unfold pack_cbor_type_byte in Appends-append _) (
        Appends-if (leb v 0xff) (Appends-word type 24 _) (
          Appends-if (leb v 0xffff) (Appends-word type 25 _)
            (Appends-if (leb v 0xffff_ffff) (Appends-word type 26 _) (Appends-word type 27 _))))
