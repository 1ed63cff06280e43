-- ===== src/Mq/Store.antt =====
-- Messages at addresses, the pool of free ones, and commands over both.
use suscan.Prelude.{ℕ, Option, none, some, ◌==◌, if◌then◌else◌}

abbrev pub Ptr : Type 0
Ptr = ℕ

abbrev pub null : Ptr
null = 0

-- `struct suscan_msg`; `privdata` is a pointer that the queue only hands on.
pub record Msg : Type 0 where
  pub type : ℕ
  pub privdata : Ptr
  pub next : Ptr
  pub free_next : Ptr

abbrev pub Heap : Type 0
Heap = Ptr → Option Msg

-- The messages, and `g_msg_pool`, `g_msg_pool_size` and `g_msg_pool_peak`.
pub record World : Type 0 where
  pub heap : Heap
  pub pool : Ptr
  pub pool_size : ℕ
  pub pool_peak : ℕ

unfoldable pub put : Heap → Ptr → Option Msg → Heap
put h p c a = if a == p then c else h a

-- A run ends with a value, reads through a pointer to no message, or exceeds its fuel.
pub data Run (A : Type 0) : Type 0 where
  done : A → World → Run A
  fault : Run A
  out_of_fuel : Run A

abbrev pub Cmd : Type 0 → Type 0
Cmd A = World → Run A

module _ {A B : Type 0} where
  abbrev pub and_then : Run A → (A → Cmd B) → Run B
  and_then (done a w) k = k a w
  and_then fault k = fault
  and_then out_of_fuel k = out_of_fuel

  infixl 5 ◌>>=◌ ◌>>◌
  abbrev pub ◌>>=◌ : Cmd A → (A → Cmd B) → Cmd B
  ◌>>=◌ m k w = and_then (m w) k

  abbrev pub ◌>>◌ : Cmd A → Cmd B → Cmd B
  ◌>>◌ m k w = and_then (m w) (λ _. k)

abbrev pub pure : {A : Type 0} → A → Cmd A
pure = done

-- `*p`
unfoldable pub load : Ptr → Cmd Msg
load p w = if p == null then fault else elim (w.heap p) [ none ↦ fault | some m ↦ done m w ]

-- The write of a whole message; `none` gives the address back.
abbrev pub store : Ptr → Option Msg → Cmd (Unit {0})
store p c w = done tt (record w { heap = put w.heap p c })

-- `p->next = q`
unfoldable pub set_next : Ptr → Ptr → Cmd (Unit {0})
unfolding load
set_next p q = do m ← load p; store p (some (record m { next = q }))

-- `p->free_next = q`
unfoldable pub set_free_next : Ptr → Ptr → Cmd (Unit {0})
unfolding load
set_free_next p q = do m ← load p; store p (some (record m { free_next = q }))

-- `free (p)`
unfoldable pub free : Ptr → Cmd (Unit {0})
unfolding load
free p = do load p; store p none
