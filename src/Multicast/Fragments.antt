-- ===== src/Multicast/Fragments.antt =====
-- suscli_multicast_processor_encap_on_fragment (analyzer/impl/processors/encap.c) on one fragment: the
-- first of a message, the next one, and one whose end does not fit in 32 bits.

use suscan.Prelude.{
  ℕ, ◌+◌, ◌%◌, ◌^◌, ◌≤◌, ◌<◌, ◌≡◌, ◌≢◌, refl, ap, ◌∙◌, sym, Bool, true, false, some, none, List, [],
  ◌∷◌, ◌++◌, ◌==◌, ◌&&◌, length, arith, lt→ltb, le→ltb, eq→==, ne→==,
}
use suscan.Multicast.Encap.{
  Encap, Fragment, Outcome, fault, returns, copy_byte, copy, clear, start, finish, place,
  on_fragment, max_superframe_size,
}
use suscan.Multicast.Copy.{Holds, copy-Copied, copy_byte_outside}

and_false : (b : Bool) → (b && false) ≡ false
and_false true = refl
and_false false = refl

-- What a fragment leaves: the bytes that stand at the start, and a flush when they are all.
pub record Took (id size : ℕ) (got : List ℕ) (o : Outcome) : Type 0 where
  pub self' : Encap
  pub result : o ≡ returns true (self'.pdu_remaining == 0) self'
  pub holds : Holds self' got
  pub has_size : self'.pdu_size ≡ size
  pub has_id : self'.sf_id ≡ id

-- The processor with an empty message
abbrev begun : ℕ → ℕ → Encap
begun id size = record {
  sf_id = id;
  pdu_size = size;
  pdu_data = some (λ _. 0);
  pdu_bitmap = some (λ _ _. false);
  pdu_remaining = size;
}

begun-Holds : (id size : ℕ) → Holds (begun id size) []
begun-Holds id size = record {
  ready = record { bytes = _; bitmap = _; has_data = refl; has_bitmap = refl };
  contents = refl;
  fresh = λ q le. refl;
  left = omega arith;
}

start_lem :
    (size : ℕ) (self : Encap)
    → 0 < size
    → start (true, true) size self ≡ (true, begun self.sf_id size)
unfolding start
start_lem size self some_bytes = rw (ne→== size 0 (omega arith))

copy_outside :
    (xs : List ℕ) (p : ℕ) (self : Encap)
    → 0 < length xs
    → self.pdu_size + 64 ≤ p
    → copy xs p self ≡ none
unfolding copy copy_byte
copy_outside [] p self some_bytes out = absurd (omega arith)
copy_outside (x ∷ xs) p self some_bytes out = rw (copy, copy_byte_outside p x self out)

module _ (header : Fragment) (small : header.sf_size ≤ max_superframe_size) where
  place_fits :
      (self : Encap)
      → 0 < header.sf_size
      → (header.sf_offset + length header.sf_data) % 2 ^ 32 ≤ header.sf_size
      → place header (true, self) ≡ finish (copy header.sf_data header.sf_offset self)
  unfolding place
  place_fits self some_bytes fits = rw (
    le→ltb header.sf_size ((header.sf_offset + length header.sf_data) % 2 ^ 32) fits,
    lt→ltb 0 header.sf_size some_bytes,
  )

  place-Took :
      (self : Encap) (got : List ℕ)
      → Holds self got
      → self.pdu_size ≡ header.sf_size
      → header.sf_offset ≡ length got
      → 0 < header.sf_size
      → length got + length header.sf_data ≤ header.sf_size
      → Took self.sf_id header.sf_size (got ++ header.sf_data) (place header (true, self))
  unfolding finish
  place-Took self got h size at some_bytes fits =
      let c = copy-Copied header.sf_data self got h (omega arith) (omega arith) in
      record {
        self' = c.self';
        result =
            place_fits self some_bytes (omega arith)
            ∙ ap (λ p. finish (copy header.sf_data p self)) at
            ∙ ap finish c.result;
        holds = c.holds;
        has_size = c.same_size ∙ size;
        has_id = c.same_id;
      }

  on_fragment_same :
      (calloc : Bool × Bool) (self : Encap)
      → self.pdu_size ≡ header.sf_size
      → self.sf_id ≡ header.sf_id
      → on_fragment calloc header self ≡ place header (true, self)
  unfolding on_fragment
  on_fragment_same calloc self size id =
      rw (eq→== header.sf_size self.pdu_size (sym size), eq→== header.sf_id self.sf_id (sym id))

  on_fragment_new :
      (calloc : Bool × Bool) (self : Encap)
      → self.sf_id ≢ header.sf_id
      → on_fragment calloc header self
        ≡ place header (start calloc header.sf_size (clear (record self { sf_id = header.sf_id })))
  unfolding on_fragment
  on_fragment_new calloc self other = rw (
    ne→== header.sf_id self.sf_id (λ e. other (sym e)),
    and_false (header.sf_size == self.pdu_size),
    le→ltb max_superframe_size header.sf_size small,
  )

  -- The next fragment of the message at hand
  pub on_fragment_next :
      (calloc : Bool × Bool) (self : Encap) (got : List ℕ)
      → Holds self got
      → self.pdu_size ≡ header.sf_size
      → self.sf_id ≡ header.sf_id
      → header.sf_offset ≡ length got
      → 0 < header.sf_size
      → length got + length header.sf_data ≤ header.sf_size
      → Took header.sf_id header.sf_size (got ++ header.sf_data) (on_fragment calloc header self)
  on_fragment_next calloc self got h size id at some_bytes fits =
      let p = place-Took self got h size at some_bytes fits in
      record {
        self' = p.self';
        result = on_fragment_same calloc self size id ∙ p.result;
        holds = p.holds;
        has_size = p.has_size;
        has_id = p.has_id ∙ id;
      }

  -- The first fragment of a message
  pub on_fragment_first :
      (self : Encap)
      → self.sf_id ≢ header.sf_id
      → header.sf_offset ≡ 0
      → 0 < header.sf_size
      → length header.sf_data ≤ header.sf_size
      → Took header.sf_id header.sf_size header.sf_data (on_fragment (true, true) header self)
  unfolding clear
  on_fragment_first self other at some_bytes fits =
      let s : Encap = begun header.sf_id header.sf_size in
      let p =
        place-Took s [] (begun-Holds header.sf_id header.sf_size) refl at some_bytes
          (omega arith) in
      record {
        self' = p.self';
        result =
            on_fragment_new (true, true) self other
            ∙ ap (place header)
                (start_lem header.sf_size (clear (record self { sf_id = header.sf_id })) some_bytes)
            ∙ p.result;
        holds = p.holds;
        has_size = p.has_size;
        has_id = p.has_id;
      }

  -- A fragment of the message at hand whose offset and size sum up to more than 2 ^ 32 passes the test
  -- that it fits, where the sum cut to 32 bits is at most the size of the message, and the copy writes
  -- outside the message.
  pub on_fragment_wraps :
      (calloc : Bool × Bool) (self : Encap)
      → self.pdu_size ≡ header.sf_size
      → self.sf_id ≡ header.sf_id
      → 0 < header.sf_size
      → header.sf_offset < 2 ^ 32
      → length header.sf_data < 2 ^ 16
      → 2 ^ 32 < header.sf_offset + length header.sf_data
      → header.sf_offset + length header.sf_data ≤ 2 ^ 32 + header.sf_size
      → on_fragment calloc header self ≡ fault
  unfolding finish
  on_fragment_wraps calloc self size id some_bytes low short past wraps =
      on_fragment_same calloc self size id
      ∙ place_fits self some_bytes (omega arith)
      ∙ ap finish (copy_outside header.sf_data header.sf_offset self (omega arith) (omega arith))
