-- ===== src/Credentials/Stable.antt =====
-- That `from_values` of auth.py takes the credentials that it made as they are.
use mathlib.Core.List.{reverse, reverse-reverse}
use coinbase_amoled_terminal.Prelude.Chars.{all-reverse_aux}
use coinbase_amoled_terminal.Prelude.{
  ℕ, ◌≡◌, refl, ◌∙◌, ap, Bool, true, false, [], ◌∷◌, ◌++◌, all, ok, arith, Bool-cases, inl, inr,
  list_eq, nat_eq,
}
use coinbase_amoled_terminal.Prelude.Text.{Text, codes, strip, lstrip, is_space}
use coinbase_amoled_terminal.Credentials.Values.{
  Credentials, is_byte_space, lstrip_bytes, keep_byte, rstrip_bytes, strip_bytes, is_name_char,
  is_bad_name, from_values,
}

is_name_char-not_space : (c : ℕ) → is_name_char c ≡ true → is_space c ≡ false
unfolding is_name_char
is_name_char-not_space c h = ground arith

lstrip_name : (s : Text) → all is_name_char s ≡ true → lstrip s ≡ s
unfolding lstrip
lstrip_name [] h = refl
lstrip_name (c ∷ s) h = ground (arith, is_name_char-not_space c)

-- A name without blanks has none to strip.
strip_name : (s : Text) → all is_name_char s ≡ true → strip s ≡ s
unfolding strip
strip_name s h =
    rw (lstrip_name s h)
      (rw (lstrip_name (reverse s) (all-reverse_aux is_name_char s [] h refl)) (reverse-reverse s))

-- No blank at the start.
abbrev Starts : Text → Type 0
Starts [] = Unit
Starts (c ∷ s) = is_byte_space c ≡ false

lstrip_bytes-Starts : (s : Text) → Starts (lstrip_bytes s)
unfolding lstrip_bytes
lstrip_bytes-Starts [] = tt
lstrip_bytes-Starts (c ∷ s) = elim (Bool-cases (is_byte_space c)) [
  | inl e ↦ rw e (lstrip_bytes-Starts s)
  | inr e ↦ rw e e
]

keep_byte-Starts : (c : ℕ) (s : Text) → is_byte_space c ≡ false → Starts (keep_byte c s)
unfolding keep_byte
keep_byte-Starts c [] h = rw h h
keep_byte-Starts c (d ∷ s) h = h

rstrip_bytes-Starts : (s : Text) → Starts s → Starts (rstrip_bytes s)
unfolding rstrip_bytes
rstrip_bytes-Starts [] h = tt
rstrip_bytes-Starts (c ∷ s) h = keep_byte-Starts c (rstrip_bytes s) h

rstrip-keep_byte :
    (c : ℕ) (s : Text) → rstrip_bytes s ≡ s → rstrip_bytes (keep_byte c s) ≡ keep_byte c s
unfolding rstrip_bytes keep_byte
rstrip-keep_byte c [] h = elim (Bool-cases (is_byte_space c)) [
  | inl e ↦ rw e refl
  | inr e ↦ rw e (rw e refl)
]
rstrip-keep_byte c (d ∷ s) h = ap (keep_byte c) h

rstrip_again : (s : Text) → rstrip_bytes (rstrip_bytes s) ≡ rstrip_bytes s
unfolding rstrip_bytes
rstrip_again [] = refl
rstrip_again (c ∷ s) = rstrip-keep_byte c (rstrip_bytes s) (rstrip_again s)

rstrip-newline : (s : Text) → rstrip_bytes (s ++ codes "\n") ≡ rstrip_bytes s
unfolding rstrip_bytes keep_byte is_byte_space
rstrip-newline [] = refl
rstrip-newline (c ∷ s) = ap (keep_byte c) (rstrip-newline s)

-- The newline at the end is stripped with the rest.
strip_started : (s : Text) → Starts s → rstrip_bytes s ≡ s → strip_bytes (s ++ codes "\n") ≡ s
unfolding strip_bytes lstrip_bytes rstrip_bytes is_byte_space
strip_started [] h same = refl
strip_started (c ∷ s) h same = rw h (rstrip-newline (c ∷ s) ∙ same)

strip_bytes_again : (s : Text) → strip_bytes (strip_bytes s ++ codes "\n") ≡ strip_bytes s
unfolding strip_bytes
strip_bytes_again s =
    strip_started (rstrip_bytes (lstrip_bytes s))
      (rstrip_bytes-Starts (lstrip_bytes s) (lstrip_bytes-Starts s)) (rstrip_again (lstrip_bytes s))

module _ (encode_utf8 : Text → Text) (is_signing_key : Text → Bool) where
  good_name-chars :
      (name : Text)
      → is_bad_name encode_utf8 is_signing_key name ≡ false
      → all is_name_char name ≡ true
  unfolding is_bad_name
  good_name-chars name h = ground arith

  -- What the two tests leave.
  pub from_values-passed :
      (key_name private_key_pem source : Text) (c : Credentials)
      → from_values encode_utf8 is_signing_key key_name private_key_pem source ≡ ok c
      → (is_bad_name encode_utf8 is_signing_key (strip key_name) ≡ false)
        × (is_signing_key (strip_bytes private_key_pem ++ codes "\n") ≡ true)
        × (c ≡ record {
          key_name = strip key_name;
          private_key_pem = strip_bytes private_key_pem ++ codes "\n";
          source = source;
        })
  unfolding from_values
  from_values-passed key_name private_key_pem source c h = ground arith

  pub from_values_again :
      (key_name private_key_pem source : Text) (c : Credentials) (source' : Text)
      → from_values encode_utf8 is_signing_key key_name private_key_pem source ≡ ok c
      → from_values encode_utf8 is_signing_key c.key_name c.private_key_pem source'
        ≡ ok (record c { source = source' })
  unfolding from_values
  from_values_again key_name private_key_pem source c source' h =
      let (named, signs, same) = from_values-passed key_name private_key_pem source c h in
      rw same (
        rw
          (
            strip_name (strip key_name) (good_name-chars (strip key_name) named),
            strip_bytes_again private_key_pem,
            named,
            signs,
          )
          refl)
