-- ===== src/Platform/Control/Prefix.antt =====
-- `header.slice` after `startsWith`, as packages/platform/src/server.ts uses them: a text has a prefix
-- just when it is the prefix and a rest.
use Prim.Native.Char.{Char, code}
use Prim.Native.String.{◌++◌ as append}
use text.Mathlib.TextEquality.{Char-path}
use text.Mathlib.TextLemmas.{nil-append, cons-append}
use ai_software_engineering.Prelude.{
  String, ◌≡◌, refl, sym, ap, ◌∙◌, ◌↔◌, some, arith, some-injective,
}
use ai_software_engineering.Policy.Condition.{strip_prefix}

strip_prefix-eq : (p s t : String) → strip_prefix p s ≡ some t → s ≡ append p t
unfolding strip_prefix
strip_prefix-eq String.[] s t h = some-injective h ∙ sym (nil-append t)
strip_prefix-eq (String.◌∷◌ c p) String.[] t h = cc h
strip_prefix-eq (String.◌∷◌ c p) (String.◌∷◌ d s) t h =
    let same : code c ≡ code d = ground arith in
    let rest : strip_prefix p s ≡ some t = ground arith in
    ap (λ (x : Char). String.◌∷◌ x s) (sym (Char-path c d same))
    ∙ ap (String.◌∷◌ c) (strip_prefix-eq p s t rest)
    ∙ sym (cons-append c p t)

strip_prefix-append : (p t : String) → strip_prefix p (append p t) ≡ some t
unfolding strip_prefix
strip_prefix-append String.[] t = rw (nil-append t) refl
strip_prefix-append (String.◌∷◌ c p) t =
    rw (cons-append c p t) (ground (arith, strip_prefix-append p t))

pub strip_prefix-exact : (p s t : String) → (strip_prefix p s ≡ some t) ↔ (s ≡ append p t)
strip_prefix-exact p s t =
    (strip_prefix-eq p s t, λ h. ap (strip_prefix p) h ∙ strip_prefix-append p t)
