-- ===== src/Message/Inspector/Orbit.antt =====
-- The bodies of an inspector message that have an optional part or an array (analyzer/msg.c).
use suscan.Prelude.{ℕ, Bool, true, ◌<◌, ◌^◌, ◌≡◌, List, [], ◌∷◌, All, Option, arith}
use suscan.Prelude.Int.{ℤ, IsI64}
use suscan.Prelude.Outcome.{Call, pure, ◌>>=◌, ◌>>◌}
use suscan.GrowBuf.{GrowBuf}
use suscan.Cbor.Items.{Item, uint, int, single, double, str, pack_items, encode_all, Fits}
use suscan.Cbor.Unpack.{unpack_str, unpack_single, unpack_double, unpack_uint_w, unpack_int_w}
use suscan.Serial.{framed}
use suscan.Serial.Parse.{
  Parses, Parses-Field, Parses-pure, Parses-framed, IsText, IsI32, wider, uint32-Field,
  uint64-Field, int32-Field, int64-Field, single-Field, double-Field, str-Field,
}
use suscan.Serial.Keeps.{Keeps, Keeps-framed, keeps_rules}
use suscan.Serial.Arrays.{pack_compact_single_array, unpack_compact_single_array}
use suscan.Serial.ArrayReads.{IsArray, array_items, Sends-array, Keeps-array, Parses-array}
use suscan.Serial.Codec.{
  Sends, Sends-items, Sends-then, Parses-last, optional_items, IfAny, optional, Keeps-optional,
  Parses-optional, Sends-optional,
}

-- `orbit_t`, the elements of an orbit
pub record Orbit : Type 0 where
  pub name : List ℕ
  pub ep_year : ℤ
  pub ep_day : ℕ
  pub rev : ℕ
  pub drevdt : ℕ
  pub d2revdt2 : ℕ
  pub bstar : ℕ
  pub eqinc : ℕ
  pub ecc : ℕ
  pub mnan : ℕ
  pub argp : ℕ
  pub ascn : ℕ
  pub smjaxs : ℕ
  pub norb : ℤ
  pub satno : ℤ

unfoldable pub orbit_items : Orbit → List Item
orbit_items v =
    str v.name
    ∷ int v.ep_year
    ∷ double v.ep_day
    ∷ double v.rev
    ∷ double v.drevdt
    ∷ double v.d2revdt2
    ∷ double v.bstar
    ∷ double v.eqinc
    ∷ double v.ecc
    ∷ double v.mnan
    ∷ double v.argp
    ∷ double v.ascn
    ∷ double v.smjaxs
    ∷ int v.norb
    ∷ int v.satno
    ∷ []

abbrev pub IsOrbit : Orbit → Type 0
IsOrbit v =
    IsText v.name
    × IsI32 v.ep_year
    × (v.ep_day < 2 ^ 64)
    × (v.rev < 2 ^ 64)
    × (v.drevdt < 2 ^ 64)
    × (v.d2revdt2 < 2 ^ 64)
    × (v.bstar < 2 ^ 64)
    × (v.eqinc < 2 ^ 64)
    × (v.ecc < 2 ^ 64)
    × (v.mnan < 2 ^ 64)
    × (v.argp < 2 ^ 64)
    × (v.ascn < 2 ^ 64)
    × (v.smjaxs < 2 ^ 64)
    × IsI64 v.norb
    × IsI32 v.satno

orbit-Fits : (v : Orbit) → IsOrbit v → All Fits (orbit_items v)
unfolding orbit_items
orbit-Fits v h = (
  h.0,
  (
    wider v.ep_year h.1,
    (
      h.2,
      (
        h.3,
        (
          h.4,
          (
            h.5,
            (h.6, (h.7, (h.8, (h.9, (h.10, (h.11, (h.12, (h.13, (wider v.satno h.14, tt))))))))),
          ),
        ),
      ),
    ),
  ),
)

-- The spectrum of a channel
pub record Spectrum : Type 0 where
  pub spectsrc_id : ℕ
  pub fc : ℕ
  pub n0 : ℕ
  pub samp_rate : ℕ
  pub spectrum_data : List ℕ

unfoldable pub spectrum_items : Spectrum → List Item
spectrum_items v =
    uint v.spectsrc_id ∷ double v.fc ∷ single v.n0 ∷ uint v.samp_rate ∷ array_items v.spectrum_data

abbrev pub IsSpectrum : Spectrum → Type 0
IsSpectrum v =
    (v.spectsrc_id < 2 ^ 32)
    × (v.fc < 2 ^ 64)
    × (v.n0 < 2 ^ 32)
    × (v.samp_rate < 2 ^ 64)
    × IsArray v.spectrum_data

module _ ⦃g : GrowBuf⦄ where
  open g use {Buf}

  unfoldable pub orbit_deserialize : (gives : ℕ → Bool) → Call Buf Orbit
  orbit_deserialize gives = do
    name ← unpack_str gives
    ep_year ← unpack_int_w 32
    ep_day ← unpack_double
    rev ← unpack_double
    drevdt ← unpack_double
    d2revdt2 ← unpack_double
    bstar ← unpack_double
    eqinc ← unpack_double
    ecc ← unpack_double
    mnan ← unpack_double
    argp ← unpack_double
    ascn ← unpack_double
    smjaxs ← unpack_double
    norb ← unpack_int_w 64
    satno ← unpack_int_w 32
    pure (record {
      name = name;
      ep_year = ep_year;
      ep_day = ep_day;
      rev = rev;
      drevdt = drevdt;
      d2revdt2 = d2revdt2;
      bstar = bstar;
      eqinc = eqinc;
      ecc = ecc;
      mnan = mnan;
      argp = argp;
      ascn = ascn;
      smjaxs = smjaxs;
      norb = norb;
      satno = satno;
    })

  pub Keeps-orbit : (gives : ℕ → Bool) → Keeps (orbit_deserialize gives)
  unfolding orbit_deserialize
  Keeps-orbit gives = search keeps_rules depth 60

  pub Parses-orbit :
      (gives : ℕ → Bool) (mem : (n : ℕ) → gives n ≡ true)
      → (v : Orbit) → IsOrbit v
      → Parses (orbit_deserialize gives) v (orbit_items v)
  unfolding orbit_deserialize orbit_items
  Parses-orbit gives mem v h =
      (Parses-Field _ (str-Field gives mem v.name h.0) (
        Parses-Field _ (int32-Field v.ep_year h.1) (
          Parses-Field _ (double-Field v.ep_day h.2) (
            Parses-Field _ (double-Field v.rev h.3) (
              Parses-Field _ (double-Field v.drevdt h.4) (
                Parses-Field _ (double-Field v.d2revdt2 h.5) (
                  Parses-Field _ (double-Field v.bstar h.6) (
                    Parses-Field _ (double-Field v.eqinc h.7) (
                      Parses-Field _ (double-Field v.ecc h.8) (
                        Parses-Field _ (double-Field v.mnan h.9) (
                          Parses-Field _ (double-Field v.argp h.10) (
                            Parses-Field _ (double-Field v.ascn h.11) (
                              Parses-Field _ (double-Field v.smjaxs h.12) (
                                Parses-Field _ (int64-Field v.norb h.13) (
                                  Parses-Field _ (int32-Field v.satno h.14)
                                    (Parses-pure v))))))))))))))))

  -- The orbit is there where `tle_enable` is set.
  unfoldable pub set_tle_serialize : Option Orbit → Call Buf (Unit {0})
  set_tle_serialize v = pack_items (optional_items orbit_items v)

  unfoldable pub set_tle_deserialize : (ℕ → Bool) → Call Buf (Option Orbit)
  set_tle_deserialize gives = framed (optional (orbit_deserialize gives))

  pub Keeps-set_tle : (gives : ℕ → Bool) → Keeps (set_tle_deserialize gives)
  unfolding set_tle_deserialize
  Keeps-set_tle gives = Keeps-framed _ (Keeps-optional _ (Keeps-orbit gives))

  pub Parses-set_tle :
      (gives : ℕ → Bool) (mem : (n : ℕ) → gives n ≡ true) (v : Option Orbit)
      → IfAny IsOrbit v
      → Parses (set_tle_deserialize gives) v (optional_items orbit_items v)
  unfolding set_tle_deserialize
  Parses-set_tle gives mem v h =
      Parses-framed (Parses-optional IsOrbit _ orbit_items (Parses-orbit gives mem) v h)

  pub Sends-set_tle :
      (v : Option Orbit)
      → IfAny IsOrbit v
      → Sends (set_tle_serialize v) (encode_all (optional_items orbit_items v))
  unfolding set_tle_serialize
  Sends-set_tle v h = Sends-optional IsOrbit orbit_items orbit-Fits v h

  unfoldable pub spectrum_serialize : Spectrum → Call Buf (Unit {0})
  spectrum_serialize v =
      pack_items (uint v.spectsrc_id ∷ double v.fc ∷ single v.n0 ∷ uint v.samp_rate ∷ [])
      >> pack_compact_single_array v.spectrum_data

  unfoldable pub spectrum_deserialize : (ℕ → Bool) → Call Buf Spectrum
  spectrum_deserialize gives = framed do
    spectsrc_id ← unpack_uint_w 32
    fc ← unpack_double
    n0 ← unpack_single
    samp_rate ← unpack_uint_w 64
    spectrum_data ← unpack_compact_single_array gives 0
    pure (record {
      spectsrc_id = spectsrc_id;
      fc = fc;
      n0 = n0;
      samp_rate = samp_rate;
      spectrum_data = spectrum_data;
    })

  pub Keeps-spectrum : (gives : ℕ → Bool) → Keeps (spectrum_deserialize gives)
  unfolding spectrum_deserialize
  Keeps-spectrum gives = search (keeps_rules, Keeps-array) depth 40

  pub Parses-spectrum :
      (gives : ℕ → Bool) (mem : (n : ℕ) → gives n ≡ true) (v : Spectrum)
      → IsSpectrum v
      → Parses (spectrum_deserialize gives) v (spectrum_items v)
  unfolding spectrum_deserialize spectrum_items
  Parses-spectrum gives mem v h = Parses-framed (
      Parses-Field _ (uint32-Field v.spectsrc_id h.0) (
        Parses-Field _ (double-Field v.fc h.1) (
          Parses-Field _ (single-Field v.n0 h.2) (
            Parses-Field _ (uint64-Field v.samp_rate h.3)
              (Parses-last _ (Parses-array gives mem 0 v.spectrum_data h.4) (Parses-pure v))))))

  pub Sends-spectrum :
      (v : Spectrum) → IsSpectrum v → Sends (spectrum_serialize v) (encode_all (spectrum_items v))
  unfolding spectrum_serialize spectrum_items
  Sends-spectrum v h =
      Sends-then _ _ (Sends-items _ (omega (arith, h.0), (h.1, (h.2, (h.3, tt)))))
        (Sends-array v.spectrum_data)
