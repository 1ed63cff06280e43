-- ===== src/Mq/Seg.antt =====
-- Segments of linked messages, along either link, and their footprints.
use suscan.Prelude.{
  ℕ, ◌≡◌, ◌≢◌, refl, Bool, true, false, ◌||◌, ◌⊎◌, Option, none, some, List, [], ◌∷◌, ◌++◌, arith,
  ◌==◌,
}
use mathlib.Core.Bool.{or_assoc}
use suscan.Mq.Store.{Ptr, null, Msg, Heap, put}

-- What a message stands for: its address, type and data.
abbrev pub Cell : Type 0
Cell = Ptr × (ℕ × Ptr)

abbrev pub cell : Ptr → Msg → Cell
cell p m = (p, (m.type, m.privdata))

abbrev pub has : Ptr → List Cell → Bool
has a [] = false
has a ((p, _) ∷ xs) = (a == p) || has a xs

infix 40 ◌∈◌ ◌∉◌
abbrev pub ◌∈◌ : Ptr → List Cell → Type 0
a ∈ xs = has a xs ≡ true

abbrev pub ◌∉◌ : Ptr → List Cell → Type 0
a ∉ xs = has a xs ≡ false

abbrev pub Apart : List Cell → List Cell → Type 0
Apart xs ys = (a : Ptr) → a ∈ xs → a ∉ ys

-- `g` differs from `h` at most at the addresses of `xs`.
abbrev pub SameOutside : List Cell → Heap → Heap → Type 0
SameOutside xs h g = (a : Ptr) → a ∉ xs → g a ≡ h a

-- The address of the last cell, or `d`.
abbrev pub last : Ptr → List Cell → Ptr
last d [] = d
last d ((p, _) ∷ xs) = last p xs

-- The `link`s lead from an address through distinct messages to `stop`.
pub data Seg (link : Msg → Ptr) (h : Heap) (stop : Ptr) : Ptr → List Cell → Type 0 where
  nil : Seg link h stop stop []
  cons :
      {p q : Ptr} {m : Msg} {xs : List Cell}
      → p ≢ null
      → h p ≡ some m
      → link m ≡ q
      → p ∉ xs
      → Seg link h stop q xs
      → Seg link h stop p (cell p m ∷ xs)

pub has-append : (a : Ptr) (xs ys : List Cell) → has a (xs ++ ys) ≡ (has a xs || has a ys)
has-append a [] ys = refl
has-append a (x ∷ xs) ys = rw (has-append a xs ys, or_assoc)

pub not-mem-append : (a : Ptr) (xs ys : List Cell) → a ∉ xs → a ∉ ys → a ∉ (xs ++ ys)
not-mem-append a xs ys h k = rw (has-append a xs ys, h) k

pub not-mem-append_inv : (a : Ptr) (xs ys : List Cell) → a ∉ (xs ++ ys) → (a ∉ xs) × (a ∉ ys)
not-mem-append_inv a xs ys h = ground (arith, has-append a xs ys)

pub mem-append_inv : (a : Ptr) (xs ys : List Cell) → a ∈ (xs ++ ys) → (a ∈ xs) ⊎ (a ∈ ys)
mem-append_inv a xs ys h = ground (arith, has-append a xs ys)

pub mem-append_left : (a : Ptr) (xs ys : List Cell) → a ∈ xs → a ∈ (xs ++ ys)
mem-append_left a xs ys h = ground (arith, has-append a xs ys)

pub mem-append_right : (a : Ptr) (xs ys : List Cell) → a ∈ ys → a ∈ (xs ++ ys)
mem-append_right a xs ys h = ground (arith, has-append a xs ys)

pub last-snoc : (d : Ptr) (xs : List Cell) (x : Cell) → last d (xs ++ (x ∷ [])) ≡ x.0
last-snoc d [] x = refl
last-snoc d (y ∷ xs) x = last-snoc y.0 xs x

module _ {link : Msg → Ptr} {h : Heap} {stop : Ptr} where
  -- A segment survives any change that spares its own addresses.
  pub frame :
      {g : Heap} {p : Ptr} {xs : List Cell}
      → Seg link h stop p xs
      → ((a : Ptr) → a ∈ xs → g a ≡ h a)
      → Seg link g stop p xs
  frame nil same = nil
  frame (cons {p} ne e to out s) same =
      cons ne (ground (arith, same p)) to out (frame s λ a i. same a (ground arith))

  pub frame-put :
      {p : Ptr} {xs : List Cell} (a : Ptr) (c : Option Msg)
      → Seg link h stop p xs
      → a ∉ xs
      → Seg link (put h a c) stop p xs
  unfolding put
  frame-put a c s out = frame s (ground arith)

  pub append :
      {end p : Ptr} {ys xs : List Cell}
      → Seg link h stop p xs
      → Seg link h end stop ys
      → Apart xs ys
      → Seg link h end p (xs ++ ys)
  append nil t apart = t
  append {ys} (cons {p} {xs} ne e to out s) t apart =
      cons ne e to (not-mem-append p xs ys out (apart p (ground arith)))
        (append s t λ a i. apart a (ground arith))

  pub not-mem_of_none :
      {p : Ptr} {xs : List Cell} (a : Ptr) → Seg link h stop p xs → h a ≡ none → a ∉ xs
  not-mem_of_none a nil unused = refl
  not-mem_of_none a (cons ne e to out s) unused = ground (arith, not-mem_of_none a s unused)

  pub not-mem_null : {p : Ptr} {xs : List Cell} → Seg link h stop p xs → null ∉ xs
  not-mem_null nil = refl
  not-mem_null (cons ne e to out s) = ground (arith, not-mem_null s)

  -- The message at the end of a segment.
  pub last_holds :
      {p : Ptr} {x : Cell} (xs : List Cell)
      → Seg link h stop p (x ∷ xs)
      → (m : Msg) × (h (last x.0 xs) ≡ some m) × (last x.0 xs ≢ null) × (last x.0 xs ∈ (x ∷ xs))
  last_holds [] (cons {m} ne e to out s) = (m, e, ne, ground arith)
  last_holds (y ∷ xs) (cons ne e to out s) =
      let (m, e', ne', i) = last_holds xs s in (m, e', ne', ground arith)

pub split :
    {link : Msg → Ptr} {h : Heap} {stop p : Ptr} (xs ys : List Cell)
    → Seg link h stop p (xs ++ ys)
    → (q : Ptr) × Seg link h q p xs × Seg link h stop q ys × Apart xs ys
split [] ys s = (_, nil, s, λ a i. cc)
split (x ∷ xs) ys (cons {p} ne e to out s) =
    let (q, front, back, apart) = split xs ys s in
    let outs = not-mem-append_inv p xs ys out in
    (q, cons ne e to outs.0 front, back, λ a i. ground (arith, apart a, outs.1))

-- The last message of a segment is made to point at `s` in place of `stop`.
retarget :
    {h : Heap} {stop p q : Ptr} {m : Msg} {xs : List Cell} (s : Ptr) (m' : Msg)
    → p ≢ null
    → h p ≡ some m
    → m.next ≡ q
    → p ∉ xs
    → Seg (λ c. c.next) h stop q xs
    → h (last p xs) ≡ some m'
    → Seg (λ c. c.next) (put h (last p xs) (some (record m' { next = s }))) s p (cell p m ∷ xs)
unfolding put
retarget {p} {m} s m' ne e to out nil e' =
    cons {m = record m { next = s }} ne (ground arith) refl refl nil
retarget {p} {m} s m' ne e to out (cons {p = p₂} {xs = ys} ne₂ e₂ to₂ out₂ rest) e' =
    let (c, e₃, ne₃, i) = last_holds ys (cons ne₂ e₂ to₂ out₂ rest) in
    cons {m = m} ne (ground arith) to out (retarget s m' ne₂ e₂ to₂ out₂ rest e')

pub retarget_lem :
    {h : Heap} {stop p : Ptr} {x : Cell} {xs : List Cell} (s : Ptr) (m' : Msg)
    → Seg (λ c. c.next) h stop p (x ∷ xs)
    → h (last x.0 xs) ≡ some m'
    → Seg (λ c. c.next) (put h (last x.0 xs) (some (record m' { next = s }))) s p (x ∷ xs)
retarget_lem s m' (cons ne e to out rest) e' = retarget s m' ne e to out rest e'
