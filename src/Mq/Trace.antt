-- ===== src/Mq/Trace.antt =====
-- Sequences of calls on a queue, against a plain list of messages.
use suscan.Prelude.{
  ℕ, suc, ◌%◌, ◌^◌, ◌≤◌, ◌≡◌, ◌≢◌, refl, ap, Bool, true, false, inl, inr, Option, some, none, List,
  [], ◌∷◌, ◌++◌, arith, length, if◌then◌else◌, ltb, leb, ◌&&◌, Bool-cases, All,
}
use suscan.Mq.Store.{Ptr, World, Cmd, pure, ◌>>=◌}
use suscan.Mq.Seg.{Cell}
use suscan.Mq.Pool.{Malloc}
use suscan.Mq.Queue.{Mq, Callbacks, cleanup_context, write, write_urgent, poll_internal}
use suscan.Mq.Cleanup.{spared}
use suscan.Mq.Settle.{settled, cleaned, cleaned_with}

-- A message without its address.
abbrev pub Item : Type 0
Item = ℕ × Ptr

abbrev pub items : List Cell → List Item
items [] = []
items (c ∷ xs) = c.1 ∷ items xs

pub data Op : Type 0 where
  write_op urgent_op : ℕ → Ptr → Op
  poll_op : Op
  poll_type_op : ℕ → Op

pub data Answer : Type 0 where
  wrote : Bool → Answer
  polled : Option Item → Answer

-- One call, with what `malloc` answers.
unfoldable pub perform : ℕ → Malloc → Op → Mq → Cmd (Answer × Mq)
perform fuel fresh (write_op type private) q = do
  (done_it, q') ← write fuel fresh q type private
  pure (wrote done_it, q')
perform fuel fresh (urgent_op type private) q = do
  (done_it, q') ← write_urgent fuel fresh q type private
  pure (wrote done_it, q')
perform fuel fresh poll_op q = do (item, q') ← poll_internal fuel q none; pure (polled item, q')
perform fuel fresh (poll_type_op type) q = do
  (item, q') ← poll_internal fuel q (some type)
  pure (polled item, q')

-- Calls one after the other; `malloc` may look at the whole memory.
unfoldable pub perform_all : ℕ → (World → Malloc) → List Op → Mq → Cmd (List Answer × Mq)
perform_all fuel malloc [] q = pure ([], q)
perform_all fuel malloc (op ∷ ops) q = do
  (a, q') ← (λ w. perform fuel (malloc w) op q w)
  (answers, q'') ← perform_all fuel malloc ops q'
  pure (a ∷ answers, q'')

spared_items : (ℕ → Ptr → Bool) → List Item → List Item
spared_items destroy [] = []
spared_items destroy ((type, privdata) ∷ is) =
    if destroy type privdata
    then spared_items destroy is
    else (type, privdata) ∷ spared_items destroy is

cleaned_items : Option Ptr → Option (Ptr → ℕ → Ptr → Bool) → List Item → List Item
cleaned_items none try_destroy is = is
cleaned_items (some user) none is = is
cleaned_items (some user) (some destroy) is = spared_items (destroy user) is

-- A list that has reached the watermark loses what the callback wants to go.
pub settled_items : ℕ → Callbacks → List Item → List Item
unfolding spared_items cleaned_items
settled_items watermark c is =
    if ltb 0 watermark && leb watermark (length is % 2 ^ 32)
    then cleaned_items (cleanup_context c) c.try_destroy is
    else is

-- What a call may answer on a list of messages, and the list that it leaves.
pub data Spec (watermark : ℕ) (c : Callbacks) (is : List Item)
    : Op → Answer → List Item → Type 0 where
  wrote_last :
      (type private : ℕ)
      → Spec watermark c is
          (write_op type private)
          (wrote true)
          (settled_items watermark c (is ++ ((type, private) ∷ [])))
  wrote_first :
      (type private : ℕ)
      → Spec watermark c is
          (urgent_op type private)
          (wrote true)
          (settled_items watermark c ((type, private) ∷ is))
  failed_last : (type private : ℕ) → Spec watermark c is (write_op type private) (wrote false) is
  failed_first : (type private : ℕ) → Spec watermark c is (urgent_op type private) (wrote false) is
  first_out :
      (i : Item) (rest : List Item)
      → is ≡ i ∷ rest
      → Spec watermark c is poll_op (polled (some i)) rest
  none_out : is ≡ [] → Spec watermark c is poll_op (polled none) []
  type_out :
      (type private : ℕ) (front rest : List Item)
      → is ≡ front ++ ((type, private) ∷ rest)
      → All (λ i. i.0 ≢ type) front
      → Spec watermark c is (poll_type_op type) (polled (some (type, private))) (front ++ rest)
  no_type_out :
      (type : ℕ)
      → All (λ i. i.0 ≢ type) is
      → Spec watermark c is (poll_type_op type) (polled none) is

-- A sequence of calls.
pub data Specs (watermark : ℕ) (c : Callbacks)
    : List Item → List Op → List Answer → List Item → Type 0 where
  end : {is : List Item} → Specs watermark c is [] [] is
  next :
      {is js ks : List Item} {op : Op} {ops : List Op} {a : Answer} {answers : List Answer}
      → Spec watermark c is op a js
      → Specs watermark c js ops answers ks
      → Specs watermark c is (op ∷ ops) (a ∷ answers) ks

pub items-append : (xs ys : List Cell) → items (xs ++ ys) ≡ items xs ++ items ys
items-append [] ys = refl
items-append (x ∷ xs) ys = rw (items-append xs ys)

length-items : (xs : List Cell) → length (items xs) ≡ length xs
length-items [] = refl
length-items (x ∷ xs) = ap suc (length-items xs)

items-spared :
    (destroy : ℕ → Ptr → Bool) (xs : List Cell)
    → items (spared destroy xs) ≡ spared_items destroy (items xs)
unfolding spared spared_items
items-spared destroy [] = refl
items-spared destroy (x ∷ xs) = ground (arith, items-spared destroy xs)

items-cleaned :
    (user : Option Ptr) (try_destroy : Option (Ptr → ℕ → Ptr → Bool)) (xs : List Cell)
    → items (cleaned_with user try_destroy xs) ≡ cleaned_items user try_destroy (items xs)
unfolding cleaned_with cleaned_items
items-cleaned none try_destroy xs = refl
items-cleaned (some user) none xs = refl
items-cleaned (some user) (some destroy) xs = items-spared (destroy user) xs

pub items-settled :
    (watermark : ℕ) (c : Callbacks) (xs : List Cell)
    → items (settled watermark c xs) ≡ settled_items watermark c (items xs)
unfolding settled settled_items cleaned
items-settled watermark c xs =
    rw (length-items xs)
      (elim (Bool-cases (ltb 0 watermark && leb watermark (length xs % 2 ^ 32))) [
        | inl due ↦ rw due (items-cleaned (cleanup_context c) c.try_destroy xs)
        | inr early ↦ rw early
      ])

length-spared : (destroy : ℕ → Ptr → Bool) (xs : List Cell) → length (spared destroy xs) ≤ length xs
unfolding spared
length-spared destroy [] = omega arith
length-spared destroy (x ∷ xs) = ground (arith, length-spared destroy xs)

length-cleaned :
    (user : Option Ptr) (try_destroy : Option (Ptr → ℕ → Ptr → Bool)) (xs : List Cell)
    → length (cleaned_with user try_destroy xs) ≤ length xs
unfolding cleaned_with
length-cleaned none try_destroy xs = omega arith
length-cleaned (some user) none xs = omega arith
length-cleaned (some user) (some destroy) xs = length-spared (destroy user) xs

pub length-settled :
    (watermark : ℕ) (c : Callbacks) (xs : List Cell) → length (settled watermark c xs) ≤ length xs
unfolding settled cleaned
length-settled watermark c xs = ground (arith, length-cleaned (cleanup_context c) c.try_destroy xs)
