-- ===== src/Config/Lookup.antt =====
-- What the lookups of util/cfg.c find: the first descriptor of a name, and the first field of a name, whose type
-- the setters test.
use suscan.Prelude.{
  ℕ, suc, ◌≡◌, ◌≢◌, refl, ap, ◌∙◌, Bool, true, false, List, [], ◌∷◌, Option, none, some, Bool-cases,
  inl, inr, ◌⊎◌,
}
use suscan.Config.{
  Field, FieldType, Desc, same_text, same_type, lookup_field_id, next, entry, checked, checked_at,
}
use suscan.Config.Values.{same_text→eq}
use suscan.Config.Fields.{same_text_refl, same_type_refl, same_type→eq}
use suscan.Config.Registry.{desc_lookup}

-- The descriptor is the first of its name.
abbrev pub IsRegistered : Desc → List Desc → Type 0
IsRegistered desc [] = ⊥
IsRegistered desc (d ∷ registry) =
    (d ≡ desc) ⊎ ((d.global_name ≢ desc.global_name) × IsRegistered desc registry)

-- The first field of the name has the type.
abbrev pub Has : FieldType → List ℕ → List Field → Type 0
Has type name [] = ⊥
Has type name (f ∷ fs) = ((f.name ≡ name) × (f.type ≡ type)) ⊎ ((f.name ≢ name) × Has type name fs)

-- The first field of the name, where there is one, has another type.
abbrev pub Lacks : FieldType → List ℕ → List Field → Type 0
Lacks type name [] = Unit {0}
Lacks type name (f ∷ fs) =
    ((f.name ≡ name) × (f.type ≢ type)) ⊎ ((f.name ≢ name) × Lacks type name fs)

same_text-ne : (s t : List ℕ) → s ≢ t → same_text s t ≡ false
same_text-ne s t ne = elim (Bool-cases (same_text s t)) [
  | inl e ↦ absurd (ne (same_text→eq s t e))
  | inr e ↦ e
]

no_true : (b : Bool) → b ≡ false → b ≡ true → ⊥
no_true b e h = absurd (cc)

ne-same_text : (s t : List ℕ) → same_text s t ≡ false → s ≢ t
ne-same_text s t e same = no_true (same_text s s) (ap (same_text s) same ∙ e) (same_text_refl s)

ne-same_type : (s t : FieldType) → same_type s t ≡ false → s ≢ t
ne-same_type s t e same = no_true (same_type s s) (ap (same_type s) same ∙ e) (same_type_refl s)

pub lookup_registered :
    (desc : Desc) (registry : List Desc)
    → IsRegistered desc registry
    → desc_lookup registry desc.global_name ≡ some desc
unfolding desc_lookup
lookup_registered desc [] h = absurd h
lookup_registered desc (d ∷ registry) (inl e) =
    rw
      (ap (λ (x : Desc). same_text x.global_name desc.global_name) e
        ∙ same_text_refl desc.global_name)
      (ap some e)
lookup_registered desc (d ∷ registry) (inr h) =
    rw (same_text-ne d.global_name desc.global_name h.0, lookup_registered desc registry h.1) refl

checked-next :
    (type : FieldType) (o : Option Field) (id : ℕ)
    → checked type o (suc id) ≡ next (checked type o id)
unfolding checked next
checked-next type none id = refl
checked-next type (some f) id = elim (Bool-cases (same_type f.type type)) [
  | inl e ↦ rw e refl
  | inr e ↦ rw e refl
]

checked_at-next :
    (type : FieldType) (f : Field) (fs : List Field) (o : Option ℕ)
    → checked_at type (f ∷ fs) (next o) ≡ next (checked_at type fs o)
unfolding checked_at next entry
checked_at-next type f fs none = refl
checked_at-next type f fs (some id) = checked-next type (entry fs id) id

-- What a setter finds: the type and the name of a field, or not.
abbrev pub Found : FieldType → List ℕ → List Field → Option ℕ → Type 0
Found type name fs o =
    (Lacks type name fs × (o ≡ none)) ⊎ (Has type name fs × ((id : ℕ) × (o ≡ some id)))

Found-later :
    (type : FieldType) (name : List ℕ) (f : Field) (fs : List Field) (o : Option ℕ)
    → f.name ≢ name
    → Found type name fs o
    → Found type name (f ∷ fs) (next o)
unfolding next
Found-later type name f fs o ne (inl (l, e)) = inl (inr (ne, l), rw e refl)
Found-later type name f fs o ne (inr (h, r)) = inr (inr (ne, h), (suc r.0, rw (r.1) refl))

Found-first :
    (type : FieldType) (name : List ℕ) (f : Field) (fs : List Field)
    → f.name ≡ name
    → Found type name (f ∷ fs) (checked type (some f) 0)
unfolding checked
Found-first type name f fs n = elim (Bool-cases (same_type f.type type)) [
  | inl e ↦ inr (inl (n, same_type→eq f.type type e), (0, rw e refl))
  | inr e ↦ inl (inl (n, ne-same_type f.type type e), rw e refl)
]

pub checked_at-Found :
    (type : FieldType) (name : List ℕ) (fs : List Field)
    → Found type name fs (checked_at type fs (lookup_field_id fs name))
unfolding lookup_field_id checked_at entry
checked_at-Found type name [] = inl (tt, refl)
checked_at-Found type name (f ∷ fs) = elim (Bool-cases (same_text f.name name)) [
  | inl e ↦ rw e (Found-first type name f fs (same_text→eq f.name name e))
  | inr e ↦
      rw (e, checked_at-next type f fs (lookup_field_id fs name))
        (Found-later type name f fs _ (ne-same_text f.name name e) (checked_at-Found type name fs))
]
