-- ===== src/Serial/Codec.antt =====
-- A structure of the analyzer with its serializer and its deserializer, what the two promise, and lists of
-- structures behind their count.
use suscan.Prelude.{
  ◌∙◌, Option, none, some, ℕ, zero, suc, ◌^◌, ◌≡◌, true, false, Bool, List, [], ◌∷◌, ◌++◌, All,
  length, append-nil, if◌then◌else◌, ◌∙◌, sym, refl, ltb, lt→ltb, ◌<◌, ◌*◌, ◌%◌, arith,
}
use suscan.Prelude.Outcome.{Call, pure, fail, su_false, ok, ◌>>=◌, ◌>>◌}
use suscan.GrowBuf.{GrowBuf}
use suscan.Cbor.Unpack.{unpack_bool}
use suscan.Cbor.Items.{Item, bool, encode_all, pack_items, Fits}
use suscan.Cbor.Wire.Reads.{Reads, Appends, Appends-bind, Appends-pure}
use suscan.Cbor.Writes.{Appends-pack_items}
use suscan.Cbor.Success.{Succeeds, bind-Succeeds, pack_items-Succeeds}
use suscan.Serial.Parse.{
  Parses, Parses-pure, Parses-Field, bool-Field, Parses-part, encode_all-append,
}
use suscan.Serial.Keeps.{Keeps, Keeps-unpack_bool, Keeps-pure, Keeps-bind, Keeps-if, Keeps-fail}

-- The items of structures in a row
unfoldable pub items_of : {A : Type 0} → (A → List Item) → List A → List Item
items_of items [] = []
items_of items (v ∷ vs) = items v ++ items_of items vs

-- A part that a flag announces
unfoldable pub optional_items : {A : Type 0} → (A → List Item) → Option A → List Item
optional_items items none = bool false ∷ []
optional_items items (some v) = bool true ∷ items v

-- What holds of the part, where there is one
abbrev pub IfAny : {A : Type 0} → (A → Type 0) → Option A → Type 0
IfAny Good none = Unit {0}
IfAny Good (some v) = Good v

module _ ⦃g : GrowBuf⦄ where
  open g use {Buf, unread}

  -- Nothing that is written to the buffer fails.
  abbrev pub Room : Type 0
  Room = ((bs : List ℕ) → Succeeds (g.append bs)) × ((bs : List ℕ) → Succeeds (g.append_hollow bs))

  -- Where there is room the serializer succeeds, and where it succeeds it has put `bs` behind what is there.
  pub record Sends (m : Call Buf (Unit {0})) (bs : List ℕ) : Type 0 where
    pub appends : Appends m bs
    pub succeeds : Room → Succeeds m

  -- What is written are the items of the structure, and the items are read as the structure.
  pub record Codec {A : Type 0} (Good : A → Type 0) (serialize : A → Call Buf (Unit {0}))
      (deserialize : Call Buf A) (items : A → List Item) : Type 0 where
    pub sends : (v : A) → Good v → Sends (serialize v) (encode_all (items v))
    pub parses : (v : A) → Good v → Parses deserialize v (items v)

  -- The serializer succeeds, and the deserializer gives the structure and leaves nothing unread.
  pub record Delivered {A : Type 0} (serialize : A → Call Buf (Unit {0})) (deserialize : Call Buf A)
      (items : A → List Item) (v : A) (b : Buf) : Type 0 where
    pub sent : Buf
    pub wrote : serialize v b ≡ (ok tt, sent)
    pub reads : Reads deserialize sent v (encode_all (items v)) []

  -- What a serializer writes behind nothing unread, the deserializer reads back.
  pub deliver :
      {A : Type 0} {Good : A → Type 0} {serialize : A → Call Buf (Unit {0})}
      {deserialize : Call Buf A} {items : A → List Item}
      → Codec Good serialize deserialize items
      → (v : A) (b : Buf) → Room
      → Good v
      → unread b ≡ []
      → Delivered serialize deserialize items v b
  deliver {serialize} {items} c v b room h empty =
      let done : serialize v b ≡ (ok tt, (serialize v b).1) =
        λ i. ((c.sends v h).succeeds room b i, (serialize v b).1) in
      record {
        sent = (serialize v b).1;
        wrote = done;
        reads = (c.parses v h).at [] (serialize v b).1 (
            (c.sends v h).appends.writes b (serialize v b).1 done
            ∙ rw (empty, append-nil (encode_all (items v))) refl);
      }

  -- `calloc` of `size` bytes in all
  unfoldable pub calloc : (ℕ → Bool) → ℕ → Call Buf (Unit {0})
  calloc gives size = if gives size then pure tt else fail su_false

  pub Keeps-calloc : (gives : ℕ → Bool) (size : ℕ) → Keeps (calloc gives size)
  unfolding calloc
  Keeps-calloc gives size = Keeps-if (gives size) _ _ (Keeps-pure tt) (Keeps-fail su_false)

  pub Parses-calloc :
      (gives : ℕ → Bool) (mem : (n : ℕ) → gives n ≡ true) (size : ℕ)
      → Parses (calloc gives size) tt []
  unfolding calloc
  Parses-calloc gives mem size = rw (mem size) (Parses-pure tt)

  -- A loop that serializes the structures of a list
  unfoldable pub each : {A : Type 0} → (A → Call Buf (Unit {0})) → List A → Call Buf (Unit {0})
  each serialize [] = pure tt
  each serialize (v ∷ vs) = serialize v >> each serialize vs

  -- A loop that deserializes as many
  unfoldable pub repeat : {A : Type 0} → ℕ → Call Buf A → Call Buf (List A)
  repeat zero deserialize = pure []
  repeat (suc n) deserialize = do v ← deserialize; vs ← repeat n deserialize; pure (v ∷ vs)

  pub Keeps-repeat : {A : Type 0} (n : ℕ) (m : Call Buf A) → Keeps m → Keeps (repeat n m)
  unfolding repeat
  Keeps-repeat zero m p = Keeps-pure []
  Keeps-repeat (suc n) m p =
      Keeps-bind m _ p λ v. Keeps-bind (repeat n m) _ (Keeps-repeat n m p) λ vs. Keeps-pure _

  pub Sends-items : (is : List Item) → All Fits is → Sends (pack_items is) (encode_all is)
  Sends-items is h = record {
    appends = Appends-pack_items is h;
    succeeds = λ room. pack_items-Succeeds room.0 is;
  }

  pub Sends-then :
      {m k : Call Buf (Unit {0})} (is js : List Item)
      → Sends m (encode_all is)
      → Sends k (encode_all js)
      → Sends (m >> k) (encode_all (is ++ js))
  Sends-then {m} {k} is js p q = record {
    appends = rw (encode_all-append is js) (Appends-bind p.appends q.appends);
    succeeds = λ room. bind-Succeeds m k (p.succeeds room) (q.succeeds room);
  }

  pub Sends-none : Sends (pure tt) (encode_all [])
  unfolding encode_all
  Sends-none = record { appends = Appends-pure; succeeds = λ room b. refl }

  pub Sends-each :
      {A : Type 0} (Good : A → Type 0) (serialize : A → Call Buf (Unit {0})) (items : A → List Item)
      → ((v : A) → Good v → Sends (serialize v) (encode_all (items v)))
      → (vs : List A) → All Good vs
      → Sends (each serialize vs) (encode_all (items_of items vs))
  unfolding each items_of
  Sends-each Good serialize items sends [] h = Sends-none
  Sends-each Good serialize items sends (v ∷ vs) h =
      Sends-then (items v) (items_of items vs) (sends v h.0)
        (Sends-each Good serialize items sends vs h.1)

  pub Parses-repeat :
      {A : Type 0} (Good : A → Type 0) (deserialize : Call Buf A) (items : A → List Item)
      → ((v : A) → Good v → Parses deserialize v (items v))
      → (vs : List A) → All Good vs
      → Parses (repeat (length vs) deserialize) vs (items_of items vs)
  unfolding repeat items_of
  Parses-repeat Good deserialize items parses [] h = Parses-pure []
  Parses-repeat Good deserialize items parses (v ∷ vs) h = Parses-part _ (parses v h.0) (
      rw (sym (append-nil (items_of items vs)))
        (Parses-part _ (Parses-repeat Good deserialize items parses vs h.1) (Parses-pure (v ∷ vs))))

  pub Parses-last :
      {A B : Type 0} {m : Call Buf A} (k : A → Call Buf B) {a : A} {c : B} {is : List Item}
      → Parses m a is
      → Parses (k a) c []
      → Parses (m >>= k) c is
  Parses-last k {is} p q = rw (sym (append-nil is)) (Parses-part k p q)

  pub Parses-after :
      {A B : Type 0} {m : Call Buf A} (k : A → Call Buf B) {a : A} {c : B} {is : List Item}
      → Parses m a []
      → Parses (k a) c is
      → Parses (m >>= k) c is
  Parses-after k p q = Parses-part k p q

  -- What follows the start of a map that holds structures, one pointer to each
  unfoldable pub counted : {A : Type 0} → (ℕ → Bool) → Call Buf A → ℕ × Bool → Call Buf (List A)
  unfolding calloc repeat
  counted gives deserialize (nelem, true) = fail su_false
  counted gives deserialize (nelem, false) =
      if ltb 0 (nelem % 2 ^ 32)
      then calloc gives (nelem * 8) >> repeat (nelem % 2 ^ 32) deserialize
      else pure []

  pub Keeps-counted :
      {A : Type 0} (gives : ℕ → Bool) (m : Call Buf A) (start : ℕ × Bool)
      → Keeps m
      → Keeps (counted gives m start)
  unfolding counted
  Keeps-counted gives m (nelem, true) p = Keeps-fail su_false
  Keeps-counted gives m (nelem, false) p =
      Keeps-if (ltb 0 (nelem % 2 ^ 32)) _ _
        (Keeps-bind (calloc gives (nelem * 8)) _ (Keeps-calloc gives _) λ _. Keeps-repeat _ m p)
        (Keeps-pure [])

  pub Parses-counted :
      {A : Type 0} (gives : ℕ → Bool) (mem : (n : ℕ) → gives n ≡ true) (Good : A → Type 0)
      (deserialize : Call Buf A) (items : A → List Item)
      → ((v : A) → Good v → Parses deserialize v (items v))
      → (vs : List A) → All Good vs
      → length vs < 2 ^ 32
      → Parses (counted gives deserialize (length vs, false)) vs (items_of items vs)
  unfolding counted items_of
  Parses-counted gives mem Good deserialize items parses [] h short = Parses-pure []
  Parses-counted gives mem Good deserialize items parses (v ∷ vs) h short =
      let fits : length (v ∷ vs) % 2 ^ 32 ≡ length (v ∷ vs) = omega (arith, short) in
      rw (fits, lt→ltb 0 (length (v ∷ vs)) (omega arith))
        (Parses-after _ (Parses-calloc gives mem (length (v ∷ vs) * 8))
          (Parses-repeat Good deserialize items parses (v ∷ vs) h))

  -- What follows the flag
  unfoldable pub announced : {A : Type 0} → Call Buf A → Bool → Call Buf (Option A)
  announced deserialize true = do v ← deserialize; pure (some v)
  announced deserialize false = pure none

  unfoldable pub optional : {A : Type 0} → Call Buf A → Call Buf (Option A)
  unfolding announced
  optional deserialize = do present ← unpack_bool; announced deserialize present

  Keeps-announced :
      {A : Type 0} (m : Call Buf A) (present : Bool) → Keeps m → Keeps (announced m present)
  unfolding announced
  Keeps-announced m true p = Keeps-bind m _ p λ v. Keeps-pure (some v)
  Keeps-announced m false p = Keeps-pure none

  pub Keeps-optional : {A : Type 0} (m : Call Buf A) → Keeps m → Keeps (optional m)
  unfolding optional
  Keeps-optional m p =
      Keeps-bind unpack_bool _ Keeps-unpack_bool λ present. Keeps-announced m present p

  pub Parses-optional :
      {A : Type 0} (Good : A → Type 0) (deserialize : Call Buf A) (items : A → List Item)
      → ((v : A) → Good v → Parses deserialize v (items v))
      → (v : Option A) → IfAny Good v
      → Parses (optional deserialize) v (optional_items items v)
  unfolding optional announced optional_items
  Parses-optional Good deserialize items parses none h =
      Parses-Field _ (bool-Field false) (Parses-pure none)
  Parses-optional Good deserialize items parses (some v) h =
      Parses-Field _ (bool-Field true) (Parses-last _ (parses v h) (Parses-pure (some v)))

  pub Sends-optional :
      {A : Type 0} (Good : A → Type 0) (items : A → List Item)
      → ((v : A) → Good v → All Fits (items v))
      → (v : Option A) → IfAny Good v
      → Sends (pack_items (optional_items items v)) (encode_all (optional_items items v))
  unfolding optional_items
  Sends-optional Good items fits none h = Sends-items _ (tt, tt)
  Sends-optional Good items fits (some v) h = Sends-items _ (tt, fits v h)

  -- A test whose failure fails the deserializer
  pub Parses-check : (c : Bool) → c ≡ true → Parses (if c then pure tt else fail su_false) tt []
  Parses-check c h = rw h (Parses-pure tt)
