-- ===== src/Multicast/Delivery.antt =====
-- The delivery of a whole message: on_fragment on one fragment after the other, then try_flush
-- (analyzer/impl/processors/encap.c).
use mathlib.Core.Path.{subst}
use suscan.Prelude.{
  ℕ, ◌+◌, ◌-◌, ◌≤◌, ◌<◌, ◌≡◌, ◌≢◌, refl, ap, ◌∙◌, sym, Bool, true, Option, some, none, List, [],
  ◌∷◌, ◌++◌, length, arith, eq→==, append-nil, append_assoc, length-append,
}
use suscan.Multicast.Encap.{Encap, fault, returns, on_fragment, try_flush, max_superframe_size}
use suscan.Multicast.Copy.{Holds, span}
use suscan.Multicast.Fragments.{on_fragment_first, on_fragment_next}

abbrev pub join : List (List ℕ) → List ℕ
join [] = []
join (c ∷ cs) = c ++ join cs

-- The fragments of a message of `size` bytes, from an offset on, one after the other.
abbrev pub deliver : (id size at : ℕ) → List (List ℕ) → Encap → Option Encap
deliver id size at [] self = some self
deliver id size at (c ∷ cs) self =
    elim (on_fragment (true, true)
      (record { sf_id = id; sf_size = size; sf_offset = at; sf_data = c }) self) [
        | fault ↦ none
        | returns success flush self' ↦ deliver id size (at + length c) cs self'
      ]

deliver_step :
    (id size at : ℕ) (c : List ℕ) (cs : List (List ℕ)) (self self' : Encap) (flush : Bool)
    → on_fragment
        (true, true)
        (record { sf_id = id; sf_size = size; sf_offset = at; sf_data = c })
        self
      ≡ returns true flush self'
    → deliver id size at (c ∷ cs) self ≡ deliver id size (at + length c) cs self'
deliver_step id size at c cs self self' flush h = rw (deliver, h)

record Delivered (id size : ℕ) (got : List ℕ) (o : Option Encap) : Type 0 where
  pub self' : Encap
  pub result : o ≡ some self'
  pub holds : Holds self' got
  pub has_size : self'.pdu_size ≡ size

deliver-Delivered :
    (id size : ℕ) (cs : List (List ℕ)) (self : Encap) (got : List ℕ)
    → 0 < size
    → size ≤ max_superframe_size
    → Holds self got
    → self.pdu_size ≡ size
    → self.sf_id ≡ id
    → length got + length (join cs) ≤ size
    → Delivered id size (got ++ join cs) (deliver id size (length got) cs self)
deliver-Delivered id size [] self got some_bytes small h has_size has_id fits = record {
  self' = self;
  result = refl;
  holds = subst (Holds self) (sym (append-nil got)) h;
  has_size = has_size;
}
deliver-Delivered id size (c ∷ cs) self got some_bytes small h has_size has_id fits =
    let t =
      on_fragment_next (record { sf_id = id; sf_size = size; sf_offset = length got; sf_data = c })
        small (true, true) self got h has_size has_id refl some_bytes
        (omega (arith, length-append c (join cs))) in
    let d =
      deliver-Delivered id size cs t.self' (got ++ c) some_bytes small t.holds t.has_size t.has_id
        (omega (arith, length-append c (join cs), length-append got c)) in
    record {
      self' = d.self';
      result =
          deliver_step id size (length got) c cs self t.self' _ t.result
          ∙ ap (λ p. deliver id size p cs t.self') (sym (length-append got c))
          ∙ d.result;
      holds = subst (Holds d.self') (append_assoc got c (join cs)) d.holds;
      has_size = d.has_size;
    }

-- What is flushed when a message is complete.
pub record Flushes (message : List ℕ) (o : Option Encap) : Type 0 where
  pub self' : Encap
  pub bytes : ℕ → ℕ
  pub result : o ≡ some self'
  pub flushes : try_flush self' ≡ some (some bytes, length message)
  pub contents : span (length message) bytes ≡ message

-- A new message that arrives in order, in a first fragment `c` and further ones, and is neither empty
-- nor larger than the largest superframe: no fragment faults, and at the end `try_flush` lends out the bytes
-- of the message, where the memory can be allocated.
pub deliver-Flushes :
    (id : ℕ) (c : List ℕ) (cs : List (List ℕ)) (self : Encap)
    → self.sf_id ≢ id
    → 0 < length (join (c ∷ cs))
    → length (join (c ∷ cs)) ≤ max_superframe_size
    → Flushes (join (c ∷ cs)) (deliver id (length (join (c ∷ cs))) 0 (c ∷ cs) self)
unfolding try_flush
deliver-Flushes id c cs self other some_bytes small =
    let t =
      on_fragment_first
        (record { sf_id = id; sf_size = length (join (c ∷ cs)); sf_offset = 0; sf_data = c }) small
        self other refl some_bytes (omega (arith, length-append c (join cs))) in
    let d =
      deliver-Delivered id (length (join (c ∷ cs))) cs t.self' c some_bytes small t.holds t.has_size
        t.has_id (omega (arith, length-append c (join cs))) in
    record {
      self' = d.self';
      bytes = d.holds.ready.bytes;
      result =
          deliver_step id (length (join (c ∷ cs))) 0 c cs self t.self' _ t.result
          ∙ ap (λ p. deliver id (length (join (c ∷ cs))) p cs t.self') (omega arith)
          ∙ d.result;
      flushes = rw (
        d.holds.left,
        d.holds.ready.has_data,
        d.has_size,
        eq→== (length (join (c ∷ cs)) - length (join (c ∷ cs))) 0 (omega arith),
      );
      contents = d.holds.contents;
    }
