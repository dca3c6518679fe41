-- ===== src/Credentials/Values.antt =====
-- `Credentials` and `Credentials.from_values` of auth.py. The key name is text, the private key is bytes.
-- The test of a blank in the name is that of ASCII; the PEM parser, which accepts the P-256 keys, and
-- UTF-8 are Python's.
use coinbase_amoled_terminal.Prelude.{
  ℕ, Bool, not, ◌&&◌, ◌||◌, [], ◌∷◌, ◌++◌, ◌==◌, all, ltb, leb, eqb, if◌then◌else◌, length, Result,
  ok, err, list_eq, nat_eq,
}
use coinbase_amoled_terminal.Prelude.Text.{Text, codes, strip, is_space}
use coinbase_amoled_terminal.Credentials.Slots.{
  CredentialError, invalid_key_name, invalid_private_key,
}

pub record Credentials : Type 0 where
  pub key_name : Text
  pub private_key_pem : Text
  pub source : Text

abbrev pub max_key_name_bytes : ℕ
max_key_name_bytes = 2048

-- The blanks of `bytes.strip`: tab, newline, vertical tab, form feed, return and the space.
unfoldable pub is_byte_space : ℕ → Bool
is_byte_space c = leb 9 c && leb c 13 || eqb c 32

unfoldable pub lstrip_bytes : Text → Text
unfolding is_byte_space
lstrip_bytes [] = []
lstrip_bytes (c ∷ s) = let rest = lstrip_bytes s in if is_byte_space c then rest else c ∷ s

-- A byte before what is left of the rest.
unfoldable pub keep_byte : ℕ → Text → Text
unfolding is_byte_space
keep_byte c [] = if is_byte_space c then [] else c ∷ []
keep_byte c (d ∷ s) = c ∷ d ∷ s

unfoldable pub rstrip_bytes : Text → Text
unfolding keep_byte
rstrip_bytes [] = []
rstrip_bytes (c ∷ s) = keep_byte c (rstrip_bytes s)

-- `private_key_pem.strip()`
unfoldable pub strip_bytes : Text → Text
unfolding lstrip_bytes rstrip_bytes
strip_bytes s = rstrip_bytes (lstrip_bytes s)

-- No control character and no blank.
unfoldable pub is_name_char : ℕ → Bool
unfolding is_space
is_name_char c = not (ltb c 0x20 || is_space c)

module _ (encode_utf8 : Text → Text) (is_signing_key : Text → Bool) where
  -- The test of the name.
  unfoldable pub is_bad_name : Text → Bool
  unfolding is_name_char
  is_bad_name name =
      name == []
      || (ltb max_key_name_bytes (length (encode_utf8 name)) || not (all is_name_char name))

  unfoldable pub from_values : Text → Text → Text → Result CredentialError Credentials
  unfolding is_bad_name strip_bytes
  from_values key_name private_key_pem source =
      let clean_name = strip key_name in
      let normalized = strip_bytes private_key_pem ++ codes "\n" in
      if is_bad_name clean_name
      then err invalid_key_name
      else if not (is_signing_key normalized)
      then err invalid_private_key
      else ok (record { key_name = clean_name; private_key_pem = normalized; source = source })
