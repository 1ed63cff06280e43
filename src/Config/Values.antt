-- ===== src/Config/Values.antt =====
-- Fields by name and values by index (util/cfg.c).
use suscan.Prelude.{
  ℕ, zero, suc, ◌<◌, ◌≡◌, ◌≢◌, refl, ap, sym, Bool, true, false, List, [], ◌∷◌, Option, none, some,
  if◌then◌else◌, ◌==◌, ==→eq, ◌&&◌, length, arith, inl, inr, ◌⊎◌,
}
use suscan.Config.{Field, FieldValue, same_text, lookup_field_id, next, entry, store}

and-split : (x y : Bool) → (x && y) ≡ true → (x ≡ true) × (y ≡ true)
and-split true y h = (refl, h)
and-split false y h = absurd (ground arith)

pub some-inj : {A : Type 0} (a b : A) → some a ≡ some b → a ≡ b
some-inj a b h = cc

pub same_text→eq : (s t : List ℕ) → same_text s t ≡ true → s ≡ t
unfolding same_text
same_text→eq [] [] h = refl
same_text→eq [] (b ∷ t) h = absurd (ground arith)
same_text→eq (a ∷ s) [] h = absurd (ground arith)
same_text→eq (a ∷ s) (b ∷ t) h =
    let p = and-split (a == b) (same_text s t) h in rw (==→eq a b p.0, same_text→eq s t p.1) refl

pub entry-store :
    (id : ℕ) (change : FieldValue → FieldValue) (vs : List FieldValue) (v : FieldValue)
    → entry vs id ≡ some v
    → entry (store id change vs) id ≡ some (change v)
unfolding entry store
entry-store id change [] v h = absurd (ground arith)
entry-store zero change (w ∷ vs) v h = ap (λ x. some (change x)) (some-inj w v h)
entry-store (suc id) change (w ∷ vs) v h = entry-store id change vs v h

pub entry-store_other :
    (i j : ℕ) (change : FieldValue → FieldValue) (vs : List FieldValue)
    → i ≢ j
    → entry (store j change vs) i ≡ entry vs i
unfolding entry store
entry-store_other i j change [] ne = refl
entry-store_other zero zero change (w ∷ vs) ne = absurd (ne refl)
entry-store_other zero (suc j) change (w ∷ vs) ne = refl
entry-store_other (suc i) zero change (w ∷ vs) ne = refl
entry-store_other (suc i) (suc j) change (w ∷ vs) ne =
    entry-store_other i j change vs λ e. ne (ap suc e)

pub length-store :
    (id : ℕ) (change : FieldValue → FieldValue) (vs : List FieldValue)
    → length (store id change vs) ≡ length vs
unfolding store
length-store id change [] = refl
length-store zero change (w ∷ vs) = refl
length-store (suc id) change (w ∷ vs) = ap suc (length-store id change vs)

-- An index of the list has an entry.
pub entry_there :
    {A : Type 0} (xs : List A) (id : ℕ) → id < length xs → (x : A) × (entry xs id ≡ some x)
unfolding entry
entry_there [] id h = absurd (omega arith)
entry_there (x ∷ xs) zero h = (x, refl)
entry_there (x ∷ xs) (suc id) h = entry_there xs id (omega arith)

-- What a lookup that succeeds says of the first field
found_first :
    (here : Bool) (rest : Option ℕ) (id : ℕ)
    → (if here then some 0 else next rest) ≡ some id
    → ((here ≡ true) × (id ≡ 0)) ⊎ ((k : ℕ) × (rest ≡ some k) × (id ≡ suc k))
unfolding next
found_first true rest id h = inl (refl, sym (some-inj 0 id h))
found_first false none id h = absurd (ground arith)
found_first false (some k) id h = inr (k, refl, sym (some-inj (suc k) id h))

-- The field that is found has the name.
pub lookup_field_id-found :
    (fs : List Field) (name : List ℕ) (id : ℕ)
    → lookup_field_id fs name ≡ some id
    → (f : Field) × (entry fs id ≡ some f) × (f.name ≡ name) × (id < length fs)
unfolding lookup_field_id entry next
lookup_field_id-found [] name id h = absurd (ground arith)
lookup_field_id-found (f ∷ fs) name id h =
    elim (found_first (same_text f.name name) (lookup_field_id fs name) id h) [
      | inl (here, e) ↦ (f, rw e refl, same_text→eq f.name name here, omega (arith, e))
      | inr (k, there, e) ↦
          let r = lookup_field_id-found fs name k there in
          (r.0, rw e (r.1), r.2, omega (arith, e, r.3))
    ]
