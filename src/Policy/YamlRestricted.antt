-- ===== src/Policy/YamlRestricted.antt =====
-- JSON values of bounded depth whose objects have safe and distinct keys, and the steps of the parser
-- of packages/policy/src/index.ts that keep them so.
use ai_software_engineering.Prelude.{
  is_there, ℕ, zero, suc, String, ◌≡◌, refl, ap, subst, inl, inr, Bool, true, false, not, ◌||◌,
  Option, none, some, arith, ◌==◌, eq_iff, some-injective, Option-cases, includes, ok,
  throw_if-eq-ok, require-eq-ok, ok-injective,
}
use ai_software_engineering.Contracts.Json.{
  Json, null, bool, num, str, arr, obj, Items, nil, cons, Fields, end, field, get_field,
}
use ai_software_engineering.Contracts.Canonical.{Runtime}
use ai_software_engineering.Policy.Values.{protected_keys}
use ai_software_engineering.Policy.YamlText.{
  Readers, mapping_key, split_colon, parse_scalar, split_mapping,
}
use ai_software_engineering.Policy.Yaml.{put_last, put_entries}

abbrev mutual
  -- Arrays and objects are nested at most so deep; a key has the syntax of a mapping key, is not
  -- protected and occurs once.
  pub IsRestricted : ℕ → Json → Type 0
  IsRestricted n null = Unit {0}
  IsRestricted n (bool b) = Unit {0}
  IsRestricted n (num q) = Unit {0}
  IsRestricted n (str s) = Unit {0}
  IsRestricted zero (arr vs) = ⊥
  IsRestricted (suc n) (arr vs) = ItemsRestricted n vs
  IsRestricted zero (obj fs) = ⊥
  IsRestricted (suc n) (obj fs) = FieldsRestricted n fs

  pub ItemsRestricted : ℕ → Items → Type 0
  ItemsRestricted n nil = Unit {0}
  ItemsRestricted n (cons v vs) = IsRestricted n v × ItemsRestricted n vs

  pub FieldsRestricted : ℕ → Fields → Type 0
  FieldsRestricted n end = Unit {0}
  FieldsRestricted n (field k v fs) =
      (mapping_key k ≡ true)
      × (includes k protected_keys ≡ false)
      × (get_field k fs ≡ none)
      × IsRestricted n v
      × FieldsRestricted n fs

absent-put_last :
    (j k : String) (v : Json) (fs : Fields)
    → get_field j fs ≡ none
    → (k == j) ≡ false
    → get_field j (put_last fs k v) ≡ none
unfolding get_field put_last
absent-put_last j k v end h ne = ground arith
absent-put_last j k v (field i u fs) h ne = ground (arith, absent-put_last j k v fs)

pub put_last-FieldsRestricted :
    (n : ℕ) (k : String) (v : Json) (fs : Fields)
    → mapping_key k ≡ true
    → includes k protected_keys ≡ false
    → get_field k fs ≡ none
    → IsRestricted n v
    → FieldsRestricted n fs
    → FieldsRestricted n (put_last fs k v)
unfolding put_last get_field
put_last-FieldsRestricted n k v end key safe absent ok_v h = (key, safe, refl, ok_v, tt)
put_last-FieldsRestricted n k v (field j u fs) key safe absent ok_v h =
    let apart : (k == j) ≡ false = ground (arith, eq_iff k j, eq_iff j k) in
    let later : get_field k fs ≡ none = ground (arith, eq_iff j k) in
    (
      h.0,
      h.1,
      absent-put_last j k v fs h.2 apart,
      h.3,
      put_last-FieldsRestricted n k v fs key safe later ok_v h.4,
    )

pub entries-FieldsRestricted :
    (n : ℕ) (more fs : Fields) {whole : Fields}
    → put_entries fs more ≡ some whole
    → FieldsRestricted n fs
    → FieldsRestricted n more
    → FieldsRestricted n whole
unfolding put_entries
entries-FieldsRestricted n end fs h hf hm = subst (FieldsRestricted n) (some-injective h) hf
entries-FieldsRestricted n (field k v more) fs h hf hm = elim (Option-cases (get_field k fs)) [
  | inl absent ↦
      entries-FieldsRestricted n more (put_last fs k v) (ground arith)
        (put_last-FieldsRestricted n k v fs hm.0 hm.1 absent hm.3 hf) hm.4
  | inr (old, present) ↦ absurd (ground arith)
]

neither : (a b : Bool) → (not a || b) ≡ false → (a ≡ true) × (b ≡ false)
neither a b h = ground arith

pub split_mapping-safe :
    (runtime : Runtime) (content : String) (line : ℕ) {key source : String}
    → split_mapping runtime content line ≡ ok (key, source)
    → (mapping_key key ≡ true) × (includes key protected_keys ≡ false)
unfolding split_mapping
split_mapping-safe runtime content line h =
    let (parts, _, h1) = require-eq-ok (split_colon content) _ _ h in
    let (_, h2) = throw_if-eq-ok _ _ _ h1 in
    let (fine, h3) = throw_if-eq-ok _ _ _ h2 in
    let (_, h4) = throw_if-eq-ok _ _ _ h3 in
    subst (λ (k : String). (mapping_key k ≡ true) × (includes k protected_keys ≡ false))
      (ap (λ (p : String × String). p.0) (ok-injective h4))
      (neither (mapping_key parts.0) (includes parts.0 protected_keys) fine)

pub not_there : {A : Type 0} (o : Option A) → is_there o ≡ false → o ≡ none
not_there none h = refl
not_there (some a) h = cc h

abbrev is_scalar : Json → Bool
is_scalar (arr vs) = false
is_scalar (obj fs) = false
is_scalar _ = true

is_scalar-IsRestricted : (n : ℕ) (v : Json) → is_scalar v ≡ true → IsRestricted n v
is_scalar-IsRestricted n (arr vs) h = cc h
is_scalar-IsRestricted n (obj fs) h = cc h
is_scalar-IsRestricted n null h = tt
is_scalar-IsRestricted n (bool b) h = tt
is_scalar-IsRestricted n (num q) h = tt
is_scalar-IsRestricted n (str s) h = tt

scalar-is_scalar :
    (runtime : Runtime) (readers : Readers) (source : String) (line bound : ℕ) {v : Json}
    → parse_scalar runtime readers source line bound ≡ ok v
    → is_scalar v ≡ true
unfolding parse_scalar
scalar-is_scalar runtime readers source line bound {v} h = ground arith

pub scalar-IsRestricted :
    (runtime : Runtime) (readers : Readers) (source : String) (line bound n : ℕ) {v : Json}
    → parse_scalar runtime readers source line bound ≡ ok v
    → IsRestricted n v
scalar-IsRestricted runtime readers source line bound n {v} h =
    is_scalar-IsRestricted n v (scalar-is_scalar runtime readers source line bound h)
