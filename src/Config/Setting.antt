-- ===== src/Config/Setting.antt =====
-- What the setters of util/cfg.c do to a configuration.
use suscan.Prelude.{
  ℕ, zero, suc, ◌+◌, ◌*◌, ◌≡◌, ◌≢◌, refl, ap, sym, ◌∙◌, Bool, true, false, List, [], ◌∷◌, Option,
  none, some, ltb, ◌&&◌, not, length, arith, Bool-cases, inl, inr, ◌⊎◌,
}
use suscan.Cbor.Pack.{strlen}
use suscan.Config.{
  Field, FieldValue, FieldType, field_type_string, field_type_integer, field_type_float,
  field_type_file, field_type_boolean, Content, as_int, as_bool, as_float, as_string, Desc, Config,
  same_type, lookup_field_id, entry, store, stored, checked, checked_at, value_at, typed_field,
  set_content, keep_flag, set_text, text_of, get_value, zeros, new_values, with_value, with_desc,
  config_init, set_integer, set_bool, set_float, set_string, set_file,
}
use suscan.Config.Fields.{same_type→eq}
use suscan.Config.Lookup.{Has, Lacks, checked_at-Found}
use suscan.Config.Values.{entry-store, entry-store_other, lookup_field_id-found, some-inj}

-- The content is the member of the union that the type of the field says.
unfoldable pub has_content : FieldType → Content → Bool
has_content field_type_string (as_string s) = true
has_content field_type_file (as_string s) = true
has_content field_type_integer (as_int n) = true
has_content field_type_float (as_float n) = true
has_content field_type_boolean (as_bool b) = true
has_content _ _ = false

-- A value for each field, of its type
abbrev pub Typed : List Field → List FieldValue → Type 0
Typed [] [] = Unit {0}
Typed (f ∷ fs) (v ∷ vs) = (has_content f.type v.content ≡ true) × Typed fs vs
Typed _ _ = ⊥

abbrev pub IsConfig : Config → Type 0
IsConfig cfg = Typed cfg.of.field_list cfg.values

-- A call of one of the setters
pub data Setting : Type 0 where
  integer : ℕ → Setting
  boolean : Bool → Setting
  float : ℕ → Setting
  string : List ℕ → Setting
  file : List ℕ → Setting

unfoldable pub apply : (gives : ℕ → Bool) → Config → List ℕ → Setting → Option Config
apply gives cfg name (integer n) = set_integer cfg name n
apply gives cfg name (boolean b) = set_bool cfg name b
apply gives cfg name (float n) = set_float cfg name n
apply gives cfg name (string s) = set_string gives cfg name s
apply gives cfg name (file s) = set_file gives cfg name s

unfoldable pub setting_type : Setting → FieldType
setting_type (integer n) = field_type_integer
setting_type (boolean b) = field_type_boolean
setting_type (float n) = field_type_float
setting_type (string s) = field_type_string
setting_type (file s) = field_type_file

unfoldable pub content_of : Setting → Content
content_of (integer n) = as_int n
content_of (boolean b) = as_bool b
content_of (float n) = as_float n
content_of (string s) = as_string s
content_of (file s) = as_string s

unfoldable pub change_of : Setting → FieldValue → FieldValue
unfolding content_of set_content keep_flag
change_of (float n) v = keep_flag (as_float n) v
change_of s v = set_content (content_of s) v

content-change_of : (s : Setting) (v : FieldValue) → (change_of s v).content ≡ content_of s
unfolding change_of set_content keep_flag content_of
content-change_of (integer n) v = refl
content-change_of (boolean b) v = refl
content-change_of (float n) v = refl
content-change_of (string s) v = refl
content-change_of (file s) v = refl

has_content-content_of : (s : Setting) → has_content (setting_type s) (content_of s) ≡ true
unfolding has_content setting_type content_of
has_content-content_of (integer n) = refl
has_content-content_of (boolean b) = refl
has_content-content_of (float n) = refl
has_content-content_of (string s) = refl
has_content-content_of (file s) = refl

and-not : (x y : Bool) → y ≡ true → (x && not y) ≡ false
and-not true y h = rw h refl
and-not false y h = refl

no_some : {A : Type 0} (a : A) → none ≡ some a → ⊥
no_some a h = absurd (ground arith)

set_text-stored :
    (gives : ℕ → Bool) (mem : (n : ℕ) → gives n ≡ true) (cfg : Config) (value : List ℕ)
    (o : Option ℕ)
    → set_text gives cfg value o ≡ stored cfg (set_content (as_string value)) o
unfolding set_text stored
set_text-stored gives mem cfg value none = refl
set_text-stored gives mem cfg value (some id) =
    let room : (ltb (strlen (text_of (entry cfg.values id))) (strlen value)
          && not (gives (24 + (strlen value + 1))))
        ≡ false =
      and-not _ _ (mem _) in
    rw room refl

pub apply-stored :
    (gives : ℕ → Bool) (mem : (n : ℕ) → gives n ≡ true) (cfg : Config) (name : List ℕ) (s : Setting)
    → apply gives cfg name s ≡ stored cfg (change_of s) (typed_field cfg (setting_type s) name)
unfolding apply change_of setting_type content_of set_integer set_bool set_float set_string set_file
apply-stored gives mem cfg name (integer n) = refl
apply-stored gives mem cfg name (boolean b) = refl
apply-stored gives mem cfg name (float n) = refl
apply-stored gives mem cfg name (string s) = set_text-stored gives mem cfg s _
apply-stored gives mem cfg name (file s) = set_text-stored gives mem cfg s _

Typed-entry :
    (fs : List Field) (vs : List FieldValue) (id : ℕ) (f : Field)
    → Typed fs vs
    → entry fs id ≡ some f
    → (v : FieldValue) × (entry vs id ≡ some v)
unfolding entry
Typed-entry [] vs id f h e = absurd (ground arith)
Typed-entry (g ∷ fs) [] id f h e = absurd h
Typed-entry (g ∷ fs) (v ∷ vs) zero f h e = (v, refl)
Typed-entry (g ∷ fs) (v ∷ vs) (suc id) f h e = Typed-entry fs vs id f h.1 e

Typed-store :
    (change : FieldValue → FieldValue) (fs : List Field) (vs : List FieldValue) (id : ℕ) (f : Field)
    → Typed fs vs
    → entry fs id ≡ some f
    → ((v : FieldValue) → has_content f.type (change v).content ≡ true)
    → Typed fs (store id change vs)
unfolding entry store
Typed-store change [] [] id f h e p = absurd (ground arith)
Typed-store change [] (v ∷ vs) id f h e p = absurd h
Typed-store change (g ∷ fs) [] id f h e p = absurd h
Typed-store change (g ∷ fs) (v ∷ vs) zero f h e p = (rw (some-inj g f e) (p v), h.1)
Typed-store change (g ∷ fs) (v ∷ vs) (suc id) f h e p = (h.0, Typed-store change fs vs id f h.1 e p)

Option-cases : {A : Type 0} (o : Option A) → (o ≡ none) ⊎ ((a : A) × (o ≡ some a))
Option-cases none = inl refl
Option-cases (some a) = inr (a, refl)

found_checked :
    (t : FieldType) (f : Field) (j id : ℕ)
    → checked t (some f) j ≡ some id
    → (j ≡ id) × (same_type f.type t ≡ true)
unfolding checked
found_checked t f j id h = elim (Bool-cases (same_type f.type t)) [
  | inl e ↦ (some-inj j id (rw e at h), e)
  | inr e ↦ absurd (no_some id (rw e at h))
]

-- What a name and a type find
typed_field-found :
    (cfg : Config) (t : FieldType) (name : List ℕ) (id : ℕ)
    → typed_field cfg t name ≡ some id
    → (f : Field) × (lookup_field_id cfg.of.field_list name ≡ some id)
      × (entry cfg.of.field_list id ≡ some f)
      × (f.name ≡ name)
      × (f.type ≡ t)
unfolding typed_field checked_at
typed_field-found cfg t name id h = elim (Option-cases (lookup_field_id cfg.of.field_list name)) [
  | inl e ↦ absurd (no_some id (rw e at h))
  | inr (j, e) ↦
      let r = lookup_field_id-found cfg.of.field_list name j e in
      let c = found_checked t r.0 j id (rw (e, r.1) at h) in
      (
        r.0,
        e ∙ ap some c.0,
        ap (entry cfg.of.field_list) (sym c.0) ∙ r.1,
        r.2,
        same_type→eq r.0.type t c.1,
      )
]

-- What a setter that succeeds has done: the configuration has the new content under the name, is well formed,
-- has the same descriptor, and every other name has the value it had.
pub record IsUpdated (cfg : Config) (name : List ℕ) (s : Setting) (after : Config) : Type 0 where
  pub kept : IsConfig after
  pub same : after.of ≡ cfg.of
  pub value : FieldValue
  pub got : get_value after name ≡ some value
  pub content : value.content ≡ content_of s
  pub others : (other : List ℕ) → other ≢ name → get_value after other ≡ get_value cfg other

changed : Config → Setting → ℕ → Config
unfolding change_of
changed cfg s id = record cfg { values = store id (change_of s) cfg.values }

others_same :
    (cfg : Config) (name : List ℕ) (s : Setting) (id : ℕ) (f : Field)
    → entry cfg.of.field_list id ≡ some f
    → f.name ≡ name
    → (other : List ℕ) → other ≢ name
    → get_value (changed cfg s id) other ≡ get_value cfg other
unfolding get_value value_at changed
others_same cfg name s id f e n other ne =
    elim (Option-cases (lookup_field_id cfg.of.field_list other)) [
      | inl missing ↦ rw missing refl
      | inr (j, at) ↦
          let r = lookup_field_id-found cfg.of.field_list other j at in
          let apart : j ≢ id = λ same. ne (
            sym r.2
            ∙ ap (λ g. g.name) (some-inj r.0 f (sym r.1 ∙ ap (entry cfg.of.field_list) same ∙ e))
            ∙ n) in
          rw at (entry-store_other j id (change_of s) cfg.values apart)
    ]

set_field :
    (cfg : Config) (name : List ℕ) (s : Setting) (id : ℕ)
    → IsConfig cfg
    → typed_field cfg (setting_type s) name ≡ some id
    → IsUpdated cfg name s (changed cfg s id)
unfolding changed get_value value_at
set_field cfg name s id h found =
    let r = typed_field-found cfg (setting_type s) name id found in
    let v = Typed-entry cfg.of.field_list cfg.values id r.0 h r.2 in
    record {
      kept =
          Typed-store (change_of s) cfg.of.field_list cfg.values id r.0 h r.2
            λ w. rw (r.4, content-change_of s w) (has_content-content_of s);
      same = refl;
      value = change_of s v.0;
      got = rw (r.1) (entry-store id (change_of s) cfg.values v.0 v.1);
      content = content-change_of s v.0;
      others = others_same cfg name s id r.0 r.2 r.3;
    }

-- With memory at hand, a setter on a well-formed configuration fails where no field has the name, or the first one
-- that has it is not of the setter's type. Otherwise it succeeds, the name then has the new content, every other
-- name has the value it had, and the configuration is well formed with the same descriptor.
pub apply_lem :
    (gives : ℕ → Bool) (mem : (n : ℕ) → gives n ≡ true) (cfg : Config) (name : List ℕ) (s : Setting)
    → IsConfig cfg
    → (Lacks (setting_type s) name cfg.of.field_list × (apply gives cfg name s ≡ none))
      ⊎ (Has (setting_type s) name cfg.of.field_list
          × (after : Config) × (apply gives cfg name s ≡ some after)
          × IsUpdated cfg name s after)
unfolding typed_field stored changed
apply_lem gives mem cfg name s h = elim (checked_at-Found (setting_type s) name cfg.of.field_list) [
  | inl (l, e) ↦ inl (l, apply-stored gives mem cfg name s ∙ rw e refl)
  | inr (k, (id, e)) ↦ inr (
    k,
    changed cfg s id,
    apply-stored gives mem cfg name s ∙ rw e refl,
    set_field cfg name s id h e,
  )
]

has_content-zeros : (t : FieldType) → has_content t (zeros t) ≡ true
unfolding has_content zeros
has_content-zeros field_type_string = refl
has_content-zeros field_type_integer = refl
has_content-zeros field_type_float = refl
has_content-zeros field_type_file = refl
has_content-zeros field_type_boolean = refl

new_values-Typed :
    (gives : ℕ → Bool) (mem : (n : ℕ) → gives n ≡ true) (fs : List Field)
    → (vs : List FieldValue) × (new_values gives fs ≡ some vs) × Typed fs vs
unfolding new_values with_value
new_values-Typed gives mem [] = ([], refl, tt)
new_values-Typed gives mem (f ∷ fs) =
    let r = new_values-Typed gives mem fs in
    (
      record { set = false; content = zeros f.type } ∷ r.0,
      rw (mem 24, r.1) refl,
      (has_content-zeros f.type, r.2),
    )

-- With memory at hand a configuration for any descriptor is made, of that descriptor and well formed: it has a value
-- for each field, of its type.
pub config_init-IsConfig :
    (gives : ℕ → Bool) (mem : (n : ℕ) → gives n ≡ true) (desc : Desc)
    → (cfg : Config) × (config_init gives desc ≡ some cfg) × IsConfig cfg × (cfg.of ≡ desc)
unfolding config_init with_desc
config_init-IsConfig gives mem desc =
    let r = new_values-Typed gives mem desc.field_list in
    (record { of = desc; values = r.0 }, rw (mem (length desc.field_list * 8), r.1) refl, r.2, refl)
