-- ===== src/Multicast/Processor.antt =====
-- The dispatch of fragments, analyzer/impl/mc_processor.c. The processors of the superframe types, behind
-- the function pointers of their implementations, are parameters: which types are registered, and
-- what `on_fragment` and the flush of a type, with the user's callback, do to a state that they share.
use suscan.Prelude.{
  ℕ, ◌+◌, ◌-◌, ◌%◌, ◌^◌, Bool, true, false, Option, some, none, ltb, ◌==◌, ◌||◌, not, if◌then◌else◌,
}
use suscan.Multicast.Encap.{Fragment}

-- `struct suscli_multicast_processor`. The state of the current processor is that of its type.
pub record Processor : Type 0 where
  pub curr_impl : Option ℕ
  pub curr_id : ℕ
  pub curr_type : ℕ

-- `SUSCAN_ANALYZER_SUPERFRAME_TYPE_ANNOUNCE`
abbrev pub announce : ℕ
announce = 1

-- `delta`, the difference of two identifiers in an `int8_t`: its byte, which is below 128 where it
-- is not negative.
unfoldable pub delta : ℕ → ℕ → ℕ
delta sf_id curr_id = (sf_id + 2 ^ 8 - curr_id) % 2 ^ 8

-- The implementation that the search of the registered ones gives.
unfoldable pub find_impl : (ℕ → Bool) → ℕ → Option ℕ
find_impl registered sf_type = if registered sf_type then some sf_type else none

-- `suscli_multicast_processor_trigger_on_call`; `flush` is `try_flush` and the callback after it.
unfoldable pub trigger_on_call : {S : Type 0} → (ℕ → S → Bool × S) → Processor → S → Bool × S
trigger_on_call flush self s = elim self.curr_impl [ none ↦ (true, s) | some impl ↦ flush impl s ]

module _ {S : Type 0} (registered : ℕ → Bool) (on_fragment : ℕ → Fragment → S → Bool × S)
    (flush : ℕ → S → Bool × S) where
  -- The call of the current implementation
  unfoldable pub hand_over : Option ℕ → Fragment → Processor → S → Bool × (Processor × S)
  hand_over none header self s = (true, (self, s))
  hand_over (some impl) header self s =
      let o : Bool × S = on_fragment impl header s in (o.0, (self, o.1))

  -- A new current superframe
  unfoldable pub switch : ℕ → Fragment → S → Bool × (Processor × S)
  unfolding hand_over find_impl
  switch sf_type header s =
      hand_over (find_impl registered sf_type) header
        (record {
          curr_impl = find_impl registered sf_type;
          curr_id = header.sf_id;
          curr_type = sf_type;
        })
        s

  -- After the flush of the last one
  unfoldable pub after_flush : ℕ → Fragment → Processor → Bool × S → Bool × (Processor × S)
  unfolding switch
  after_flush sf_type header self (false, s) = (false, (self, s))
  after_flush sf_type header self (true, s) = switch sf_type header s

  -- Where there is a current implementation
  unfoldable pub go_on : ℕ → ℕ → Fragment → Processor → S → Bool × (Processor × S)
  unfolding delta after_flush hand_over trigger_on_call
  go_on impl sf_type header self s =
      let d : ℕ = delta header.sf_id self.curr_id in
      if ltb d (2 ^ 7)
      then (if not (self.curr_type == sf_type) || ltb 1 d
          then after_flush sf_type header self (trigger_on_call flush self s)
          else hand_over (some impl) header self s)
      else (true, (self, s))

  -- Whether there is one
  unfoldable pub proceed : Option ℕ → ℕ → Fragment → Processor → S → Bool × (Processor × S)
  unfolding go_on switch
  proceed none sf_type header self s = switch sf_type header s
  proceed (some impl) sf_type header self s = go_on impl sf_type header self s

  -- `suscli_multicast_processor_process`: whether it succeeds, the processor and the state.
  unfoldable pub process : ℕ → Fragment → Processor → S → Bool × (Processor × S)
  unfolding proceed
  process sf_type header self s =
      if sf_type == announce
      then (true, (self, s))
      else proceed self.curr_impl sf_type header self s
