-- ===== src/Multicast/Runs.antt =====
-- Runs of the dispatch of fragments (analyzer/impl/mc_processor.c) and of the processor of
-- encapsulated ones (analyzer/impl/processors/encap.c).
use suscan.Prelude.{
  ℕ, ◌+◌, ◌%◌, ◌^◌, ◌-◌, ◌≡◌, refl, true, false, some, none, List, [], ◌∷◌, arith, Bool, inr, ◌==◌,
  ◌||◌, if◌then◌else◌, length,
}
use suscan.Multicast.Encap.{Encap, Fragment, fault, copy_byte, on_fragment}
use suscan.Multicast.Processor.{Processor, process, find_impl}
use suscan.Multicast.Dispatch.{IsSound, process-IsSound, process_own_type}
use suscan.Multicast.Copy.{IsReady}
use suscan.Multicast.Fragments.{on_fragment_wraps}
use suscan.Multicast.Delivery.{deliver, join, Flushes, deliver-Flushes}
use suscan.Multicast.Repeats.{copy_byte_counts, copy_byte_counts_once}

abbrev idle : Encap
idle = record { sf_id = 0; pdu_size = 0; pdu_data = none; pdu_bitmap = none; pdu_remaining = 0 }

abbrev chunks : List (List ℕ)
chunks = (1 ∷ 2 ∷ []) ∷ (3 ∷ []) ∷ (4 ∷ 5 ∷ []) ∷ []

deliver-Flushes_example : Flushes (join chunks) (deliver 7 5 0 chunks idle)
deliver-Flushes_example =
    deliver-Flushes 7 (1 ∷ 2 ∷ []) ((3 ∷ []) ∷ (4 ∷ 5 ∷ []) ∷ []) idle (omega arith) (omega arith)
      (omega arith)

abbrev waiting : Encap
waiting = record {
  sf_id = 7;
  pdu_size = 100;
  pdu_data = some (λ _. 0);
  pdu_bitmap = some (λ _ _. false);
  pdu_remaining = 100;
}

abbrev waiting-IsReady : IsReady waiting
waiting-IsReady = record {
  bytes = λ _. 0;
  bitmap = λ _ _. false;
  has_data = refl;
  has_bitmap = refl;
}

copy_byte_counts_example :
    (self' : Encap) × copy_byte 40 9 waiting ≡ some self'
    × self'.pdu_remaining ≡ (100 + 2 ^ 32 - 1) % 2 ^ 32
copy_byte_counts_example = copy_byte_counts 40 9 waiting (omega arith) waiting-IsReady (omega arith)

copy_byte_counts_once_example :
    (self' : Encap) × copy_byte 8 9 waiting ≡ some self'
    × self'.pdu_remaining ≡ (100 + 2 ^ 32 - 1) % 2 ^ 32
    × copy_byte 8 1 self' ≡ some self'
copy_byte_counts_once_example =
    copy_byte_counts_once 8 9 waiting (omega arith) waiting-IsReady 1 (omega arith)

abbrev past_end : Fragment
past_end = record { sf_id = 7; sf_size = 100; sf_offset = 2 ^ 32 - 1; sf_data = 1 ∷ 2 ∷ [] }

on_fragment_wraps_example : on_fragment (true, true) past_end waiting ≡ fault
on_fragment_wraps_example =
    on_fragment_wraps past_end (omega arith) (true, true) waiting refl refl (omega arith)
      (omega arith) (omega arith) (omega arith) (omega arith)

-- Processors of the types 2 and 3, which count the bytes that they see
abbrev is_registered : ℕ → Bool
is_registered type = (type == 2) || (type == 3)

abbrev count_bytes : ℕ → Fragment → ℕ → Bool × ℕ
count_bytes type header n = (true, n + length header.sf_data)

abbrev count_bytes_of_3 : ℕ → Fragment → ℕ → Bool × ℕ
count_bytes_of_3 type header n = if type == 3 then (true, n + length header.sf_data) else (false, 0)

abbrev reset : ℕ → ℕ → Bool × ℕ
reset type n = (true, 0)

-- A processor of superframes of type 2, of which the last was 250
abbrev at_250 : Processor
at_250 = record { curr_impl = some 2; curr_id = 250; curr_type = 2 }

at_250-IsSound : IsSound is_registered at_250
unfolding find_impl
at_250-IsSound = inr refl

process-IsSound_example :
    IsSound is_registered (process is_registered count_bytes reset 3 past_end at_250 10).1.0
process-IsSound_example =
    process-IsSound is_registered count_bytes reset 3 past_end at_250 10 at_250-IsSound

process_own_type_example :
    process is_registered count_bytes reset 3 past_end at_250 10
    ≡ process is_registered count_bytes_of_3 reset 3 past_end at_250 10
process_own_type_example =
    process_own_type is_registered count_bytes count_bytes_of_3 reset 3 (λ header s. refl) past_end
      at_250 10 at_250-IsSound
