-- ===== src/GrowBuf.antt =====
-- The interface of the byte buffer `grow_buf_t`. Its code is part of the sigutils library, so a
-- buffer is an argument of the development: an unknown type with the calls that the repository
-- makes and the behaviour that it relies on. A byte is a number, a span of bytes a list.
pub mod Plain
use suscan.Prelude.{ℕ, ◌+◌, ◌≤◌, ◌≡◌, List, ◌++◌, length, take, drop}
use suscan.Prelude.Outcome.{ok, err, Errno, Call}

pub record GrowBuf : Type 1 where
  pub Buf : Type 0
  -- all the bytes, read or not
  pub contents : Buf → List ℕ
  -- `grow_buf_current_data` with the `grow_buf_avail` bytes that stand there
  pub unread : Buf → List ℕ
  -- `grow_buf_ptr`
  pub ptr : Buf → ℕ
  -- `grow_buf_init_loan`, of a span with its length for both sizes
  pub loan : List ℕ → Buf
  -- `grow_buf_append`
  pub append : List ℕ → Call Buf (Unit {0})
  -- `grow_buf_append_hollow`, with the bytes that its caller then stores in the room it makes
  pub append_hollow : List ℕ → Call Buf (Unit {0})
  -- `grow_buf_read`: the bytes read
  pub read : ℕ → Call Buf (List ℕ)
  -- `grow_buf_seek` with `SEEK_CUR`
  pub seek_cur : ℕ → Call Buf (Unit {0})
  -- `grow_buf_seek` with `SEEK_SET`
  pub seek_set : ℕ → Call Buf (Unit {0})
  pub unread-loan : (bs : List ℕ) → unread (loan bs) ≡ bs
  pub ptr-loan : (bs : List ℕ) → ptr (loan bs) ≡ 0
  -- An append may fail; one that does not puts the bytes behind those that stand there.
  pub unread-append :
      (bs : List ℕ) (b : Buf) {b' : Buf} → append bs b ≡ (ok tt, b') → unread b' ≡ unread b ++ bs
  -- A read hands out as many bytes as there are, up to those asked for.
  pub read_bytes : (n : ℕ) (b : Buf) → (read n b).0 ≡ ok (take n (unread b))
  pub unread-read : (n : ℕ) (b : Buf) → unread (read n b).1 ≡ drop n (unread b)
  pub ptr-read : (n : ℕ) (b : Buf) → ptr (read n b).1 ≡ ptr b + length (take n (unread b))
  -- A seek within what is unread succeeds.
  pub seek_cur_ok : (n : ℕ) (b : Buf) → n ≤ length (unread b) → (seek_cur n b).0 ≡ ok tt
  pub unread-seek_cur :
      (n : ℕ) (b : Buf) → n ≤ length (unread b) → unread (seek_cur n b).1 ≡ drop n (unread b)
  pub ptr-seek_cur : (n : ℕ) (b : Buf) → n ≤ length (unread b) → ptr (seek_cur n b).1 ≡ ptr b + n
  -- One that fails leaves the buffer as it is.
  pub seek_cur_err : (n : ℕ) (b : Buf) {e : Errno} → (seek_cur n b).0 ≡ err e → (seek_cur n b).1 ≡ b
  -- Room that is made and filled is as good as an append.
  pub unread-append_hollow :
      (bs : List ℕ) (b : Buf) {b' : Buf}
      → append_hollow bs b ≡ (ok tt, b')
      → unread b' ≡ unread b ++ bs
  -- The unread bytes stand behind the position, which is none past the end.
  pub unread-contents : (b : Buf) → unread b ≡ drop (ptr b) (contents b)
  pub ptr-le : (b : Buf) → ptr b ≤ length (contents b)
  -- Reads and seeks change no byte.
  pub contents-read : (n : ℕ) (b : Buf) → contents (read n b).1 ≡ contents b
  pub contents-seek_cur : (n : ℕ) (b : Buf) → contents (seek_cur n b).1 ≡ contents b
  pub contents-seek_set : (n : ℕ) (b : Buf) → contents (seek_set n b).1 ≡ contents b
  -- A seek to a position that is there goes to it.
  pub ptr-seek_set : (n : ℕ) (b : Buf) → n ≤ length (contents b) → ptr (seek_set n b).1 ≡ n
