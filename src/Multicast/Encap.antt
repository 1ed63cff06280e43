-- ===== src/Multicast/Encap.antt =====
-- The processor of encapsulated fragments, analyzer/impl/processors/encap.c. The header's numbers
-- are those in the order of the host. The data are a function of the position, the bitmap one of
-- the word and the bit. `Fault` is an access outside an allocation, or through a null pointer.
use suscan.Prelude.{
  ℕ, ◌+◌, ◌-◌, ◌/◌, ◌%◌, ◌^◌, Bool, true, false, Option, some, none, List, [], ◌∷◌, ltb, leb, ◌==◌,
  ◌&&◌, if◌then◌else◌, length,
}

-- `struct suscan_analyzer_fragment_header`, whose field `size` is the number of bytes of `sf_data`
pub record Fragment : Type 0 where
  pub sf_id : ℕ
  pub sf_size : ℕ
  pub sf_offset : ℕ
  pub sf_data : List ℕ

-- `struct suscli_multicast_processor_encap`, without `proc`
pub record Encap : Type 0 where
  pub sf_id : ℕ
  pub pdu_size : ℕ
  pub pdu_data : Option (ℕ → ℕ)
  pub pdu_bitmap : Option (ℕ → ℕ → Bool)
  pub pdu_remaining : ℕ

-- What a call leaves: `Fault`, or whether it succeeds, whether it reaches
-- `suscli_multicast_processor_trigger_on_call`, and the processor.
pub data Outcome : Type 0 where
  fault : Outcome
  returns : (success flush : Bool) → Encap → Outcome

-- `SUSCLI_MULTICAST_MAX_SUPERFRAME_SIZE`
abbrev pub max_superframe_size : ℕ
max_superframe_size = 2 ^ 20

-- The bit that `mask` sets. The value `1ull << bit` is stored in an `unsigned int`, of 32 bits.
unfoldable pub mask : ℕ → Option ℕ
mask bit = if ltb bit 32 then some bit else none

unfoldable pub is_masked : (ℕ → ℕ → Bool) → ℕ → Option ℕ → Bool
is_masked bitmap block none = false
is_masked bitmap block (some bit) = bitmap block bit

unfoldable pub set_mask : (ℕ → ℕ → Bool) → ℕ → Option ℕ → ℕ → ℕ → Bool
set_mask bitmap block none b i = bitmap b i
set_mask bitmap block (some bit) b i = if (b == block) && (i == bit) then true else bitmap b i

unfoldable pub set_data : (ℕ → ℕ) → ℕ → ℕ → ℕ → ℕ
set_data f p x q = if q == p then x else f q

abbrev pub entries : ℕ → ℕ
entries full_size = (full_size + 63) / 64

-- The write of a byte whose bit is not set
unfoldable pub put_byte : ℕ → ℕ → Option (ℕ → ℕ) → (ℕ → ℕ → Bool) → Encap → Option Encap
unfolding mask
put_byte p x none bitmap self = none
put_byte p x (some bytes) bitmap self =
    if leb self.pdu_size p
    then none
    else some (record self {
      pdu_data = some (set_data bytes p x);
      pdu_bitmap = some (set_mask bitmap (p / 64) (mask (p % 64)));
      pdu_remaining = (self.pdu_remaining + 2 ^ 32 - 1) % 2 ^ 32;
    })

-- The body of the loop of `suscli_multicast_processor_encap_copy`
unfoldable pub copy_byte : ℕ → ℕ → Encap → Option Encap
unfolding mask is_masked
copy_byte p x self = elim self.pdu_bitmap [
  | none ↦ none
  | some bitmap ↦
      if leb (entries self.pdu_size) (p / 64)
      then none
      else if is_masked bitmap (p / 64) (mask (p % 64))
      then some self
      else put_byte p x self.pdu_data bitmap self
]

-- `suscli_multicast_processor_encap_copy`
unfoldable pub copy : List ℕ → ℕ → Encap → Option Encap
copy [] p self = some self
copy (x ∷ more) p self = elim (copy_byte p x self) [
  | none ↦ none
  | some self' ↦ copy more ((p + 1) % 2 ^ 32) self'
]

-- `suscli_multicast_processor_encap_clear`
unfoldable pub clear : Encap → Encap
clear self = record self { pdu_data = none; pdu_bitmap = none; pdu_size = 0; pdu_remaining = 0 }

-- A new message of a size that is not too big. `calloc` says whether the allocations succeed.
unfoldable pub start : (calloc : Bool × Bool) → ℕ → Encap → Bool × Encap
start calloc full_size self =
    if full_size == 0
    then (true, record self { pdu_size = full_size; pdu_remaining = full_size })
    else if calloc.0
    then (
      calloc.1,
      record self {
        pdu_size = full_size;
        pdu_remaining = full_size;
        pdu_data = some (λ _. 0);
        pdu_bitmap = if calloc.1 then some (λ _ _. false) else none;
      },
    )
    else (false, record self { pdu_size = full_size; pdu_remaining = full_size })

-- After the copy
unfoldable pub finish : Option Encap → Outcome
finish none = fault
finish (some self) = returns true (self.pdu_remaining == 0) self

-- From the test that the fragment fits
unfoldable pub place : Fragment → Bool × Encap → Outcome
unfolding finish
place header (false, self) = returns false false self
place header (true, self) =
    if ltb header.sf_size ((header.sf_offset + length header.sf_data) % 2 ^ 32)
    then returns true false self
    else if ltb 0 header.sf_size
    then finish (copy header.sf_data header.sf_offset self)
    else returns true false self

-- `suscli_multicast_processor_encap_on_fragment`
unfoldable pub on_fragment : (calloc : Bool × Bool) → Fragment → Encap → Outcome
unfolding clear start place
on_fragment calloc header self =
    if (header.sf_size == self.pdu_size) && (header.sf_id == self.sf_id)
    then place header (true, self)
    else let fresh : Encap = clear (record self { sf_id = header.sf_id }) in
      if ltb max_superframe_size header.sf_size
      then returns true false fresh
      else place header (start calloc header.sf_size fresh)

-- `suscli_multicast_processor_encap_try_flush`, up to the deserialization of the bytes it lends
unfoldable pub try_flush : Encap → Option (Option (ℕ → ℕ) × ℕ)
try_flush self = if self.pdu_remaining == 0 then some (self.pdu_data, self.pdu_size) else none
