-- ===== src/Config/Fields.antt =====
-- Finding the fields of a descriptor one after the other, as a deserializer meets them (util/cfg.c).
use suscan.Prelude.{ℕ, ◌≡◌, refl, ap, true, false, List, [], ◌∷◌, ◌++◌, some, length, eq→==, arith}
use suscan.Config.{
  Field, FieldValue, FieldType, field_type_string, field_type_integer, field_type_float,
  field_type_file, field_type_boolean, same_text, same_type, lookup_field_id, next, entry, store,
}

pub same_text_refl : (s : List ℕ) → same_text s s ≡ true
unfolding same_text
same_text_refl [] = refl
same_text_refl (a ∷ s) = rw (eq→== a a refl, same_text_refl s) refl

pub same_type_refl : (t : FieldType) → same_type t t ≡ true
unfolding same_type
same_type_refl field_type_string = refl
same_type_refl field_type_integer = refl
same_type_refl field_type_float = refl
same_type_refl field_type_file = refl
same_type_refl field_type_boolean = refl

pub same_type→eq : (s t : FieldType) → same_type s t ≡ true → s ≡ t
unfolding same_type
same_type→eq field_type_string field_type_string h = refl
same_type→eq field_type_string field_type_integer h = absurd (ground arith)
same_type→eq field_type_string field_type_float h = absurd (ground arith)
same_type→eq field_type_string field_type_file h = absurd (ground arith)
same_type→eq field_type_string field_type_boolean h = absurd (ground arith)
same_type→eq field_type_integer field_type_string h = absurd (ground arith)
same_type→eq field_type_integer field_type_integer h = refl
same_type→eq field_type_integer field_type_float h = absurd (ground arith)
same_type→eq field_type_integer field_type_file h = absurd (ground arith)
same_type→eq field_type_integer field_type_boolean h = absurd (ground arith)
same_type→eq field_type_float field_type_string h = absurd (ground arith)
same_type→eq field_type_float field_type_integer h = absurd (ground arith)
same_type→eq field_type_float field_type_float h = refl
same_type→eq field_type_float field_type_file h = absurd (ground arith)
same_type→eq field_type_float field_type_boolean h = absurd (ground arith)
same_type→eq field_type_file field_type_string h = absurd (ground arith)
same_type→eq field_type_file field_type_integer h = absurd (ground arith)
same_type→eq field_type_file field_type_float h = absurd (ground arith)
same_type→eq field_type_file field_type_file h = refl
same_type→eq field_type_file field_type_boolean h = absurd (ground arith)
same_type→eq field_type_boolean field_type_string h = absurd (ground arith)
same_type→eq field_type_boolean field_type_integer h = absurd (ground arith)
same_type→eq field_type_boolean field_type_float h = absurd (ground arith)
same_type→eq field_type_boolean field_type_file h = absurd (ground arith)
same_type→eq field_type_boolean field_type_boolean h = refl

-- No field has the name.
abbrev pub Absent : List ℕ → List Field → Type 0
Absent name [] = Unit {0}
Absent name (f ∷ fs) = (same_text name f.name ≡ false) × Absent name fs

-- No two fields have one name.
abbrev pub Distinct : List Field → Type 0
Distinct [] = Unit {0}
Distinct (f ∷ fs) = Absent f.name fs × Distinct fs

Absent-there :
    (name : List ℕ) (ds : List Field) (f : Field) (fs : List Field)
    → Absent name (ds ++ (f ∷ fs))
    → same_text name f.name ≡ false
Absent-there name [] f fs h = h.0
Absent-there name (d ∷ ds) f fs h = Absent-there name ds f fs h.1

-- A field is found under its name at its index.
pub lookup_here :
    (ds : List Field) (f : Field) (fs : List Field)
    → Distinct (ds ++ (f ∷ fs))
    → lookup_field_id (ds ++ (f ∷ fs)) f.name ≡ some (length ds)
unfolding lookup_field_id next
lookup_here [] f fs h = rw (same_text_refl f.name) refl
lookup_here (d ∷ ds) f fs h = rw (Absent-there d.name ds f fs h.0, lookup_here ds f fs h.1) refl

pub entry_here :
    {A : Type 0} (xs : List A) (y : A) (ys : List A) → entry (xs ++ (y ∷ ys)) (length xs) ≡ some y
unfolding entry
entry_here [] y ys = refl
entry_here (x ∷ xs) y ys = entry_here xs y ys

pub store_here :
    (xs : List FieldValue) (y : FieldValue) (ys : List FieldValue)
    (change : FieldValue → FieldValue)
    → store (length xs) change (xs ++ (y ∷ ys)) ≡ xs ++ (change y ∷ ys)
unfolding store
store_here [] y ys change = refl
store_here (x ∷ xs) y ys change = ap (λ vs. x ∷ vs) (store_here xs y ys change)
