-- ===== src/Config/Hidden.antt =====
-- That an accepted configuration holds no secret, at any depth: `_reject_embedded_secrets` and
-- `validate_config` of config.py.
use coinbase_amoled_terminal.Prelude.{
  ℕ, zero, suc, ◌≡◌, refl, subst, Bool, true, false, not, Option, none, some, List, [], ◌∷◌, ◌++◌,
  map, arith, ok, Bool-cases, Option-cases, inl, inr, >>-ok, raise_if, raise_if-ok, list_eq, nat_eq,
  all,
}
use coinbase_amoled_terminal.Prelude.Text.{Text, to_upper}
use coinbase_amoled_terminal.Prelude.Slices.{strip_prefix, strip_prefix-eq}
use coinbase_amoled_terminal.Prelude.Json.{
  Json, Items, Fields, null, boolean, integer, real, text, array, object, nil, cons, get,
  field_names, end, field,
}
use coinbase_amoled_terminal.Symbols.{SymbolSpec, is_base, is_base_char}
use coinbase_amoled_terminal.Symbols.Normal.{
  symbols_of, Distinct, is_base-chars, is_base_char-facts,
}
use coinbase_amoled_terminal.Config.Secrets.{
  reject_secrets, reject_fields, reject_items, has_infix, key_marker, is_key_material,
  is_forbidden_key, embedded_secret,
}
use coinbase_amoled_terminal.Config.Places.{reject_fields-get}
use coinbase_amoled_terminal.Config.Validate.{items_of}

all-part : (p : ℕ → Bool) (s r : Text) → all p (s ++ r) ≡ true → all p s ≡ true
all-part p [] r h = refl
all-part p (c ∷ s) r h = ground (arith, all-part p s r)

-- The characters of an infix are those of the text.
all-infix :
    (p : ℕ → Bool) (part s : Text) → has_infix part s ≡ true → all p s ≡ true → all p part ≡ true
unfolding has_infix
all-infix p part [] h k = ground arith
all-infix p part (c ∷ s) h k = elim (Option-cases (strip_prefix part (c ∷ s))) [
  | inl e ↦ all-infix p part s (ground arith) (ground arith)
  | inr (r, e) ↦
      all-part p part r (subst (λ t. all p t ≡ true) (strip_prefix-eq part (c ∷ s) r e) k)
]

all_base-upper : (s : Text) → all is_base_char s ≡ true → all is_base_char (map to_upper s) ≡ true
all_base-upper [] h = refl
all_base-upper (c ∷ s) h = ground (arith, is_base_char-facts c, all_base-upper s)

-- The marker has a blank, which a symbol has not.
base_hidden : (s : Text) → is_base s ≡ true → is_key_material s ≡ false
unfolding is_key_material is_base_char
base_hidden s h = elim (Bool-cases (has_infix key_marker (map to_upper s))) [
  | inl e ↦
      let bad =
        all-infix is_base_char key_marker (map to_upper s) e
          (all_base-upper s (is_base-chars s h)) in
      cc
  | inr e ↦ e
]

pub symbols-hidden :
    (quote : Text) (seen : List Text) (specs : List SymbolSpec)
    → Distinct quote seen specs
    → reject_items (items_of (symbols_of specs)) ≡ ok tt
unfolding Distinct reject_items items_of
symbols-hidden quote seen [] d = refl
symbols-hidden quote seen (spec ∷ specs) (n, (_, d)) =
    rw (base_hidden spec.symbol n.base) (symbols-hidden quote (spec.symbol ∷ seen) specs d)

-- A way into a JSON value.
pub data Step : Type 0 where
  member : Text → Step
  index : ℕ → Step

abbrev pub item : ℕ → Items → Option Json
item n nil = none
item zero (cons v l) = some v
item (suc n) (cons v l) = item n l

abbrev pub enter : Step → Json → Option Json
enter (member k) (object d) = get k d
enter (index n) (array l) = item n l
enter _ _ = none

abbrev pub at_path : List Step → Json → Option Json
at_path [] v = some v
at_path (step ∷ path) v = elim (enter step v) [ none ↦ none | some w ↦ at_path path w ]

-- The value is no key material, and none of its fields has the name of a secret.
abbrev pub IsHarmless : Json → Type 0
IsHarmless (text s) = is_key_material s ≡ false
IsHarmless (object d) = all (λ k. not (is_forbidden_key k)) (field_names d) ≡ true
IsHarmless _ = Unit

fields_harmless :
    (d : Fields)
    → reject_fields d ≡ ok tt
    → all (λ k. not (is_forbidden_key k)) (field_names d) ≡ true
unfolding reject_fields
fields_harmless end h = refl
fields_harmless (field k v d) h =
    let (good, rest) = (>>-ok (raise_if (is_forbidden_key k) embedded_secret) _ tt).0 h in
    let (_, tail) = (>>-ok (reject_secrets v) (reject_fields d) tt).0 rest in
    rw ((raise_if-ok (is_forbidden_key k) embedded_secret).0 good, fields_harmless d tail) refl

clean_here : (v : Json) → reject_secrets v ≡ ok tt → IsHarmless v
unfolding reject_secrets
clean_here null h = tt
clean_here (boolean b) h = tt
clean_here (integer n) h = tt
clean_here (real r) h = tt
clean_here (text s) h = (raise_if-ok (is_key_material s) embedded_secret).0 h
clean_here (array l) h = tt
clean_here (object d) h = fields_harmless d h

item_clean :
    (n : ℕ) (l : Items) (v : Json)
    → item n l ≡ some v
    → reject_items l ≡ ok tt
    → reject_secrets v ≡ ok tt
unfolding reject_items
item_clean n nil v h clean = cc
item_clean zero (cons w l) v h clean =
    let (first, _) = (>>-ok (reject_secrets w) (reject_items l) tt).0 clean in ground (arith, first)
item_clean (suc n) (cons w l) v h clean =
    let (_, tail) = (>>-ok (reject_secrets w) (reject_items l) tt).0 clean in
    item_clean n l v h tail

enter_clean :
    (step : Step) (v w : Json)
    → enter step v ≡ some w
    → reject_secrets v ≡ ok tt
    → reject_secrets w ≡ ok tt
unfolding reject_secrets
enter_clean (member k) (object d) w h clean = reject_fields-get k w d h clean
enter_clean (index n) (array l) w h clean = item_clean n l w h clean
enter_clean (member k) null w h clean = cc
enter_clean (member k) (boolean _) w h clean = cc
enter_clean (member k) (integer _) w h clean = cc
enter_clean (member k) (real _) w h clean = cc
enter_clean (member k) (text _) w h clean = cc
enter_clean (member k) (array _) w h clean = cc
enter_clean (index k) null w h clean = cc
enter_clean (index k) (boolean _) w h clean = cc
enter_clean (index k) (integer _) w h clean = cc
enter_clean (index k) (real _) w h clean = cc
enter_clean (index k) (text _) w h clean = cc
enter_clean (index k) (object _) w h clean = cc

pub path_clean :
    (path : List Step) (v w : Json)
    → at_path path v ≡ some w
    → reject_secrets v ≡ ok tt
    → IsHarmless w
path_clean [] v w h clean = subst IsHarmless (ground arith) (clean_here v clean)
path_clean (step ∷ path) v w h clean = elim (Option-cases (enter step v)) [
  | inl e ↦ let bad = rw (e, at_path) at h in cc
  | inr (u, e) ↦ path_clean path u w (rw (e, at_path) at h) (enter_clean step v u e clean)
]
