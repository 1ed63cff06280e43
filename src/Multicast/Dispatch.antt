-- ===== src/Multicast/Dispatch.antt =====
-- Which processor gets a fragment (analyzer/impl/mc_processor.c).
use suscan.Prelude.{
  ℕ, ◌^◌, ◌≡◌, refl, ◌∙◌, sym, Bool, true, false, Option, some, none, ltb, ◌==◌, ◌||◌, not,
  if◌then◌else◌, arith, Bool-cases, inl, inr, ◌⊎◌,
}
use suscan.Multicast.Encap.{Fragment}
use suscan.Multicast.Processor.{
  Processor, announce, delta, find_impl, trigger_on_call, hand_over, switch, after_flush, go_on,
  proceed, process,
}

-- The current implementation is the one registered for the current type.
abbrev pub IsConsistent : (ℕ → Bool) → Processor → Type 0
IsConsistent registered self = self.curr_impl ≡ find_impl registered self.curr_type

-- A processor that has no current implementation, as before its first fragment, or that is consistent.
abbrev pub IsSound : (ℕ → Bool) → Processor → Type 0
IsSound registered self = (self.curr_impl ≡ none) ⊎ IsConsistent registered self

find_impl_type :
    (registered : ℕ → Bool) (type impl : ℕ) → find_impl registered type ≡ some impl → impl ≡ type
unfolding find_impl
find_impl_type registered type impl h = go (registered type) h
  where
    go : (c : Bool) → (if c then some type else none) ≡ some impl → impl ≡ type
    go true e = cc
    go false e = cc

module _ {S : Type 0} (registered : ℕ → Bool) (on_fragment : ℕ → Fragment → S → Bool × S)
    (flush : ℕ → S → Bool × S) where
  if-IsSound :
      (c : Bool) (o o' : Bool × (Processor × S))
      → IsSound registered o.1.0
      → IsSound registered o'.1.0
      → IsSound registered (if c then o else o').1.0
  if-IsSound true o o' a b = a
  if-IsSound false o o' a b = b

  hand_over-IsSound :
      (i : Option ℕ) (header : Fragment) (self : Processor) (s : S)
      → IsSound registered self
      → IsSound registered (hand_over registered on_fragment flush i header self s).1.0
  unfolding hand_over
  hand_over-IsSound none header self s h = h
  hand_over-IsSound (some impl) header self s h = h

  switch-IsSound :
      (type : ℕ) (header : Fragment) (s : S)
      → IsSound registered (switch registered on_fragment flush type header s).1.0
  unfolding switch
  switch-IsSound type header s = hand_over-IsSound _ header _ s (inr refl)

  after_flush-IsSound :
      (type : ℕ) (header : Fragment) (self : Processor) (o : Bool × S)
      → IsSound registered self
      → IsSound registered (after_flush registered on_fragment flush type header self o).1.0
  unfolding after_flush
  after_flush-IsSound type header self (false, s) h = h
  after_flush-IsSound type header self (true, s) h = switch-IsSound type header s

  go_on-IsSound :
      (impl type : ℕ) (header : Fragment) (self : Processor) (s : S)
      → IsSound registered self
      → IsSound registered (go_on registered on_fragment flush impl type header self s).1.0
  unfolding go_on
  go_on-IsSound impl type header self s h =
      if-IsSound (ltb (delta header.sf_id self.curr_id) (2 ^ 7)) _ _
        (if-IsSound (not (self.curr_type == type) || ltb 1 (delta header.sf_id self.curr_id)) _ _
          (after_flush-IsSound type header self _ h)
          (hand_over-IsSound (some impl) header self s h))
        h

  proceed-IsSound :
      (i : Option ℕ) (type : ℕ) (header : Fragment) (self : Processor) (s : S)
      → IsSound registered self
      → IsSound registered (proceed registered on_fragment flush i type header self s).1.0
  unfolding proceed
  proceed-IsSound none type header self s h = switch-IsSound type header s
  proceed-IsSound (some impl) type header self s h = go_on-IsSound impl type header self s h

  -- A processor whose current implementation is the one registered for its current type, or that
  -- has none, is still one after any fragment, whatever the implementations do.
  pub process-IsSound :
      (type : ℕ) (header : Fragment) (self : Processor) (s : S)
      → IsSound registered self
      → IsSound registered (process registered on_fragment flush type header self s).1.0
  unfolding process
  process-IsSound type header self s h =
      if-IsSound (type == announce) _ _ h (proceed-IsSound self.curr_impl type header self s h)

if_agrees :
    {A : Type 0} (c : Bool) {a a' b b' : A}
    → a ≡ a'
    → b ≡ b'
    → (if c then a else b) ≡ (if c then a' else b')
if_agrees true p q = p
if_agrees false p q = q

module _ {S : Type 0} (registered : ℕ → Bool) (on_fragment other : ℕ → Fragment → S → Bool × S)
    (flush : ℕ → S → Bool × S) (type : ℕ)
    (agree : (header : Fragment) (s : S) → on_fragment type header s ≡ other type header s) where
  hand_over_agrees :
      (i : Option ℕ) (header : Fragment) (self : Processor) (s : S)
      → ((impl : ℕ) → i ≡ some impl → impl ≡ type)
      → hand_over registered on_fragment flush i header self s
        ≡ hand_over registered other flush i header self s
  unfolding hand_over
  hand_over_agrees none header self s own = refl
  hand_over_agrees (some impl) header self s own = rw (own impl refl, agree header s)

  switch_agrees :
      (header : Fragment) (s : S)
      → switch registered on_fragment flush type header s
        ≡ switch registered other flush type header s
  unfolding switch
  switch_agrees header s = hand_over_agrees _ header _ s (find_impl_type registered type)

  after_flush_agrees :
      (header : Fragment) (self : Processor) (o : Bool × S)
      → after_flush registered on_fragment flush type header self o
        ≡ after_flush registered other flush type header self o
  unfolding after_flush
  after_flush_agrees header self (false, s) = refl
  after_flush_agrees header self (true, s) = switch_agrees header s

  go_on_agrees :
      (impl : ℕ) (header : Fragment) (self : Processor) (s : S)
      → self.curr_impl ≡ some impl
      → IsSound registered self
      → go_on registered on_fragment flush impl type header self s
        ≡ go_on registered other flush impl type header self s
  unfolding go_on
  go_on_agrees impl header self s at h = elim (Bool-cases (self.curr_type == type)) [
    | inl same ↦
        if_agrees (ltb (delta header.sf_id self.curr_id) (2 ^ 7))
          (if_agrees (not (self.curr_type == type) || ltb 1 (delta header.sf_id self.curr_id))
            (after_flush_agrees header self (trigger_on_call flush self s))
            (hand_over_agrees (some impl) header self s (own same)))
          refl
    | inr differ ↦ rw differ (
        if_agrees (ltb (delta header.sf_id self.curr_id) (2 ^ 7))
          (after_flush_agrees header self (trigger_on_call flush self s)) refl)
  ]
    where
      own : (self.curr_type == type) ≡ true → (i : ℕ) → some impl ≡ some i → i ≡ type
      own same i e = current h
        where
          current : IsSound registered self → i ≡ type
          current (inl none_at) = cc
          current (inr c) =
              find_impl_type registered self.curr_type i (sym c ∙ at ∙ e) ∙ ground arith

  proceed_agrees :
      (i : Option ℕ) (header : Fragment) (self : Processor) (s : S)
      → self.curr_impl ≡ i
      → IsSound registered self
      → proceed registered on_fragment flush i type header self s
        ≡ proceed registered other flush i type header self s
  unfolding proceed
  proceed_agrees none header self s at h = switch_agrees header s
  proceed_agrees (some impl) header self s at h = go_on_agrees impl header self s at h

  -- A fragment is handed to the implementation of its own type only: on a sound processor, what
  -- `process` does with it is the same for any two families of implementations that agree on that type.
  pub process_own_type :
      (header : Fragment) (self : Processor) (s : S)
      → IsSound registered self
      → process registered on_fragment flush type header self s
        ≡ process registered other flush type header self s
  unfolding process
  process_own_type header self s h =
      if_agrees (type == announce) refl (proceed_agrees self.curr_impl header self s refl h)
