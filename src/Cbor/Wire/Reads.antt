-- ===== src/Cbor/Wire/Reads.antt =====
-- Total correctness of a call on a buffer: it succeeds, and the buffer moves past what it read.
use suscan.Prelude.{
  ℕ, ◌+◌, ◌≤◌, ◌≡◌, refl, sym, ap, ◌∙◌, List, [], ◌++◌, arith, length, length-append, take-append,
  drop-append, append_assoc, append-nil,
}
use suscan.Prelude.Outcome.{Result, ok, err, Call, pure, ◌>>=◌, ◌>>◌, and_then}
use suscan.GrowBuf.{GrowBuf}
use suscan.Cbor.Unpack.{finish, on_loan}

module _ ⦃g : GrowBuf⦄ where
  open g use {
    Buf, unread, ptr, loan, append, read, seek_cur, unread-loan, ptr-loan, unread-append,
    read_bytes, unread-read, ptr-read, seek_cur_ok, unread-seek_cur, ptr-seek_cur,
  }

  -- `m` on `b` returns `a`, and leaves `rest` behind the bytes `used`.
  pub record Reads {A : Type 0} (m : Call Buf A) (b : Buf) (a : A) (used rest : List ℕ)
      : Type 0 where
    pub after : Buf
    pub run : m b ≡ (ok a, after)
    pub left : unread after ≡ rest
    pub moved : ptr after ≡ ptr b + length used

  pub Reads-pure :
      {A : Type 0} (a : A) (b : Buf) {rest : List ℕ} → unread b ≡ rest → Reads (pure a) b a [] rest
  Reads-pure a b h = record { after = b; run = refl; left = h; moved = omega arith }

  pub Reads-bind :
      {A B : Type 0} (k : A → Call Buf B) {m : Call Buf A} {b : Buf} {a : A} {c : B}
      {used more rest rest' : List ℕ}
      → Reads m b a used rest
      → ((b' : Buf) → unread b' ≡ rest → Reads (k a) b' c more rest')
      → Reads (m >>= k) b c (used ++ more) rest'
  Reads-bind k {used} {more} r next =
      let s = next r.after r.left in
      record {
        after = s.after;
        run = ap (λ o. and_then o k) r.run ∙ s.run;
        left = s.left;
        moved = omega (arith, s.moved, r.moved, length-append {0} used more);
      }

  -- The same where the second part reads nothing.
  pub Reads-then :
      {A B : Type 0} (k : A → Call Buf B) {m : Call Buf A} {b : Buf} {a : A} {c : B}
      {used rest rest' : List ℕ}
      → Reads m b a used rest
      → ((b' : Buf) → unread b' ≡ rest → Reads (k a) b' c [] rest')
      → Reads (m >>= k) b c used rest'
  Reads-then k r next =
      let s = next r.after r.left in
      record {
        after = s.after;
        run = ap (λ o. and_then o k) r.run ∙ s.run;
        left = s.left;
        moved = omega (arith, s.moved, r.moved);
      }

  -- The same where the second part hands the value on under a function.
  pub Reads-map :
      {A B : Type 0} (f : A → B) {m : Call Buf A} {b : Buf} {a : A} {c : B} {used rest : List ℕ}
      → f a ≡ c
      → Reads m b a used rest
      → Reads (m >>= λ x. pure (f x)) b c used rest
  Reads-map f e r = record {
    after = r.after;
    run = ap (λ o. and_then o (λ x. pure (f x))) r.run ∙ (λ i. (ok (e i), r.after));
    left = r.left;
    moved = r.moved;
  }

  -- A read of bytes that are there.
  pub Reads-read :
      (used rest : List ℕ) (b : Buf)
      → unread b ≡ used ++ rest
      → Reads (read (length used)) b used used rest
  Reads-read used rest b h = record {
    after = (read (length used) b).1;
    run = λ i. (first i, (read (length used) b).1);
    left = unread-read (length used) b ∙ rw h (drop-append used rest);
    moved = ptr-read (length used) b ∙ rw (h, take-append used rest) refl;
  }
    where
      first : (read (length used) b).0 ≡ ok used
      first = read_bytes (length used) b ∙ rw (h, take-append used rest) refl

  -- A seek over bytes that are there.
  pub Reads-seek_cur :
      (n : ℕ) (used rest : List ℕ) (b : Buf)
      → n ≡ length used
      → unread b ≡ used ++ rest
      → Reads (seek_cur n) b tt used rest
  Reads-seek_cur n used rest b e h = record {
    after = (seek_cur n b).1;
    run = λ i. (seek_cur_ok n b within i, (seek_cur n b).1);
    left = unread-seek_cur n b within ∙ rw (h, e) (drop-append used rest);
    moved = ptr-seek_cur n b within ∙ ap (λ k. ptr b + k) e;
  }
    where
      within : n ≤ length (unread b)
      within = omega (arith, ap length h, length-append {0} used rest)

  -- The end of an unpacker: the buffer moves by what the loan was moved.
  pub Reads-finish :
      {A : Type 0} (a : A) (tmp : Buf) (used rest : List ℕ) (b : Buf)
      → ptr tmp ≡ length used
      → unread b ≡ used ++ rest
      → Reads (finish (ok a, tmp)) b a used rest
  unfolding finish
  Reads-finish a tmp used rest b e h =
      let s = Reads-seek_cur (ptr tmp) used rest b e h in
      record {
        after = s.after;
        run = ap (λ o. and_then o (λ _. pure a)) s.run;
        left = s.left;
        moved = s.moved;
      }

  pub Reads-on_loan :
      {A : Type 0} {m : Call Buf A} {b : Buf} {a : A} (used rest : List ℕ)
      → unread b ≡ used ++ rest
      → ((t : Buf) → unread t ≡ used ++ rest → Reads m t a used rest)
      → Reads (on_loan m) b a used rest
  unfolding on_loan
  Reads-on_loan {m} {b} {a} used rest h body =
      let r = body (loan (unread b)) (unread-loan (unread b) ∙ h) in
      let s = Reads-finish a r.after used rest b (omega (arith, r.moved, ptr-loan (unread b))) h in
      record {
        after = s.after;
        run = ap (λ o. finish o b) r.run ∙ s.run;
        left = s.left;
        moved = s.moved;
      }

  -- Whatever succeeds puts `bs` behind what is there.
  pub record Appends (m : Call Buf (Unit {0})) (bs : List ℕ) : Type 0 where
    pub writes : (b b' : Buf) → m b ≡ (ok tt, b') → unread b' ≡ unread b ++ bs

  pub Appends-append : (bs : List ℕ) → Appends (append bs) bs
  Appends-append bs = record { writes = λ b b' h. unread-append bs b h }

  pub Appends-pure : Appends (pure tt) []
  Appends-pure = record { writes = λ b b' h. sym (append-nil (unread b) ∙ cc) }

  pub Appends-bind :
      {m k : Call Buf (Unit {0})} {bs cs : List ℕ}
      → Appends m bs
      → Appends k cs
      → Appends (m >> k) (bs ++ cs)
  Appends-bind {m} {k} {bs} {cs} first second = record { writes = λ b b' h. go b b' (m b) refl h }
    where
      go :
          (b b' : Buf) (o : Result (Unit {0}) × Buf)
          → m b ≡ o
          → and_then o (λ _. k) ≡ (ok tt, b')
          → unread b' ≡ unread b ++ (bs ++ cs)
      go b b' (ok u, c) e h = second.writes c b' h ∙ rw (first.writes b c e, append_assoc)
      go b b' (err x, c) e h = cc
