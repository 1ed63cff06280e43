-- ===== src/GrowBuf/Plain.antt =====
-- A buffer that meets the interface, for tests: the bytes, and how many of them are read.
use suscan.Prelude.{
  ℕ, ◌+◌, ◌≤◌, ◌≡◌, refl, ◌∙◌, sym, ap, List, [], ◌++◌, length, take, drop, arith, leb,
  if◌then◌else◌, le→leb, length-append, length-take, append_assoc, take-append-drop, drop-append,
  Bool-cases, inl, inr,
}
use suscan.Prelude.Outcome.{ok, err, Errno, einval, Call}
use suscan.GrowBuf.{GrowBuf}

-- The position is the length of what is read, so that it is never past the end.
pub record PlainBuf : Type 0 where
  pub done : List ℕ
  pub bytes : List ℕ

abbrev pub plain_append : List ℕ → Call PlainBuf (Unit {0})
plain_append bs b = (ok tt, record b { bytes = b.bytes ++ bs })

abbrev pub forward : ℕ → PlainBuf → PlainBuf
forward n b = record { done = b.done ++ take n b.bytes; bytes = drop n b.bytes }

abbrev pub plain_read : ℕ → Call PlainBuf (List ℕ)
plain_read n b = (ok (take n b.bytes), forward n b)

abbrev pub plain_seek : ℕ → Call PlainBuf (Unit {0})
plain_seek n b = if leb n (length b.bytes) then (ok tt, forward n b) else (err einval, b)

abbrev pub plain_seek_set : ℕ → Call PlainBuf (Unit {0})
plain_seek_set n b =
    if leb n (length (b.done ++ b.bytes))
    then (ok tt, record { done = take n (b.done ++ b.bytes); bytes = drop n (b.done ++ b.bytes) })
    else (err einval, b)

pub unread-plain_append :
    (bs : List ℕ) (b : PlainBuf) {b' : PlainBuf}
    → plain_append bs b ≡ (ok tt, b')
    → b'.bytes ≡ b.bytes ++ bs
unread-plain_append bs b h = cc

pub contents-forward :
    (n : ℕ) (b : PlainBuf) → (b.done ++ take n b.bytes) ++ drop n b.bytes ≡ b.done ++ b.bytes
contents-forward n b = rw (append_assoc, take-append-drop n b.bytes)

module _ (n : ℕ) (b : PlainBuf) (h : n ≤ length b.bytes) where
  pub plain_seek_ok : (plain_seek n b).0 ≡ ok tt
  plain_seek_ok = rw (le→leb n (length b.bytes) h)

  pub unread-plain_seek : (plain_seek n b).1.bytes ≡ drop n b.bytes
  unread-plain_seek = rw (le→leb n (length b.bytes) h)

  pub pos-plain_seek : length (plain_seek n b).1.done ≡ length b.done + n
  pos-plain_seek = rw (le→leb n (length b.bytes) h) (
      length-append b.done (take n b.bytes) ∙ ap (λ k. length b.done + k) (length-take n b.bytes h))

pub plain_seek_err :
    (n : ℕ) (b : PlainBuf) {e : Errno} → (plain_seek n b).0 ≡ err e → (plain_seek n b).1 ≡ b
plain_seek_err n b h = ground arith

pub contents-plain_seek :
    (n : ℕ) (b : PlainBuf) → (plain_seek n b).1.done ++ (plain_seek n b).1.bytes ≡ b.done ++ b.bytes
contents-plain_seek n b = elim (Bool-cases (leb n (length b.bytes))) [
  | inl within ↦ rw within (contents-forward n b)
  | inr past ↦ rw past
]

pub contents-plain_seek_set :
    (n : ℕ) (b : PlainBuf)
    → (plain_seek_set n b).1.done ++ (plain_seek_set n b).1.bytes ≡ b.done ++ b.bytes
contents-plain_seek_set n b = elim (Bool-cases (leb n (length (b.done ++ b.bytes)))) [
  | inl within ↦ rw within (take-append-drop n (b.done ++ b.bytes))
  | inr past ↦ rw past
]

pub pos-plain_seek_set :
    (n : ℕ) (b : PlainBuf) → n ≤ length (b.done ++ b.bytes) → length (plain_seek_set n b).1.done ≡ n
pos-plain_seek_set n b h =
    rw (le→leb n (length (b.done ++ b.bytes)) h) (length-take n (b.done ++ b.bytes) h)

instance abbrev pub plain : GrowBuf
plain = record {
  Buf = PlainBuf;
  contents = λ b. b.done ++ b.bytes;
  unread = λ b. b.bytes;
  ptr = λ b. length b.done;
  loan = λ bs. record { done = []; bytes = bs };
  append = plain_append;
  append_hollow = plain_append;
  read = plain_read;
  seek_cur = plain_seek;
  seek_set = plain_seek_set;
  unread-loan = λ bs. refl;
  ptr-loan = λ bs. refl;
  unread-append = unread-plain_append;
  read_bytes = λ n b. refl;
  unread-read = λ n b. refl;
  ptr-read = λ n b. length-append b.done (take n b.bytes);
  seek_cur_ok = plain_seek_ok;
  unread-seek_cur = unread-plain_seek;
  ptr-seek_cur = pos-plain_seek;
  seek_cur_err = plain_seek_err;
  unread-append_hollow = unread-plain_append;
  unread-contents = λ b. sym (drop-append b.done b.bytes);
  ptr-le = λ b. omega (arith, length-append b.done b.bytes);
  contents-read = contents-forward;
  contents-seek_cur = contents-plain_seek;
  contents-seek_set = contents-plain_seek_set;
  ptr-seek_set = pos-plain_seek_set;
}
