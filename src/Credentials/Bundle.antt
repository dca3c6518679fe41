-- ===== src/Credentials/Bundle.antt =====
-- The credential bundle of auth.py, `_encode_credential_bundle` and `_read_credential_bundle`: one
-- file with the key name and the private key, each behind its length. Bytes are numbers below 256.
use coinbase_amoled_terminal.Prelude.{
  ℕ, ◌+◌, ◌*◌, ◌/◌, ◌%◌, ◌≤◌, ◌<◌, ◌≡◌, refl, ap, Bool, Option, false, ◌∙◌, true, not, ◌&&◌, ◌||◌,
  none, some, [], ◌∷◌, ◌++◌, ltb, leb, eqb, if◌then◌else◌, length, take, drop, Result, ok, err,
  ◌>>=◌, arith, length-append, take-append, drop-append,
}
use coinbase_amoled_terminal.Prelude.Text.{Text, codes, strip}
use coinbase_amoled_terminal.Prelude.Slices.{strip_prefix}
use coinbase_amoled_terminal.Credentials.Values.{
  Credentials, max_key_name_bytes, from_values, is_bad_name, strip_bytes,
}
use coinbase_amoled_terminal.Credentials.Stable.{from_values-passed, from_values_again}
use coinbase_amoled_terminal.Credentials.Slots.{CredentialError, invalid_bundle, struct_error}

abbrev pub magic : Text
magic = codes "CBATCRD1"

abbrev pub max_private_key_bytes : ℕ
max_private_key_bytes = 65536

-- `struct.pack(">I", n)` and its inverse
unfoldable pub pack : ℕ → Result CredentialError Text
pack n =
    if ltb n 0x100000000
    then ok (n / 0x1000000 % 256 ∷ n / 0x10000 % 256 ∷ n / 0x100 % 256 ∷ n % 256 ∷ [])
    else err struct_error

unfoldable pub unpack : ℕ → ℕ → ℕ → ℕ → ℕ
unpack a b c d = a * 0x1000000 + (b * 0x10000 + (c * 0x100 + d))

-- `magic + struct.pack(">II", …) + name + private_key`
unfoldable pub join_bundle : Text → Text → Result CredentialError Text
unfolding pack
join_bundle name private_key = do
  n ← pack (length name)
  k ← pack (length private_key)
  ok (magic ++ (n ++ (k ++ (name ++ private_key))))

-- The key name and the private key behind the two lengths.
unfoldable pub split_body : ℕ → ℕ → Text → Result CredentialError (Text × Text)
split_body name_length key_length body =
    if ltb name_length 1
      || (ltb max_key_name_bytes name_length
          || (ltb key_length 1
              || (ltb max_private_key_bytes key_length
                  || not (eqb (name_length + key_length) (length body)))))
    then err invalid_bundle
    else ok (take name_length body, drop name_length body)

-- The bytes behind the magic.
unfoldable pub split_header : Text → Result CredentialError (Text × Text)
unfolding unpack split_body
split_header (a ∷ b ∷ c ∷ d ∷ e ∷ f ∷ g ∷ h ∷ body) =
    split_body (unpack a b c d) (unpack e f g h) body
split_header _ = err invalid_bundle

-- `_read_credential_bundle` up to the two byte strings that it decodes and validates.
unfoldable pub split_bundle : Text → Result CredentialError (Text × Text)
unfolding split_header
split_bundle payload =
    if not (
      leb 1 (length payload)
      && leb (length payload) (max_key_name_bytes + max_private_key_bytes + 64))
    then err invalid_bundle
    else elim (strip_prefix magic payload) [
      | none ↦ err invalid_bundle
      | some rest ↦ split_header rest
    ]

abbrev pub found_or : {A : Type 0} → CredentialError → Option A → Result CredentialError A
found_or e none = err e
found_or e (some a) = ok a

-- UTF-8 is Python's, and the PEM parser is that of `cryptography`.
module _ (encode_utf8 : Text → Text) (decode_utf8 : Text → Option Text)
    (is_signing_key : Text → Bool) where
  unfoldable pub encode_bundle : Credentials → Result CredentialError Text
  unfolding join_bundle
  encode_bundle c = join_bundle (encode_utf8 c.key_name) c.private_key_pem

  -- `_read_credential_bundle` on the bytes of the file.
  unfoldable pub decode_bundle : Text → Result CredentialError Credentials
  unfolding split_bundle from_values
  decode_bundle payload = do
    (name, private_key) ← split_bundle payload
    key_name ← found_or invalid_bundle (decode_utf8 name)
    from_values encode_utf8 is_signing_key key_name private_key (codes "local_setup")

unpack_pack :
    (n : ℕ)
    → n < 0x100000000
    → unpack (n / 0x1000000 % 256) (n / 0x10000 % 256) (n / 0x100 % 256) (n % 256) ≡ n
unfolding unpack
unpack_pack n h = omega arith

split_body-append :
    (name key : Text)
    → 1 ≤ length name
    → length name ≤ max_key_name_bytes
    → 1 ≤ length key
    → length key ≤ max_private_key_bytes
    → split_body (length name) (length key) (name ++ key) ≡ ok (name, key)
unfolding split_body
split_body-append name key a b c d =
    rw (length-append name key, take-append name key, drop-append name key) (ground arith)

fits_word : (n : ℕ) → n < 0x100000000 → ltb n 0x100000000 ≡ true
fits_word n h = ground arith

abbrev packed : ℕ → Text
packed n = n / 0x1000000 % 256 ∷ n / 0x10000 % 256 ∷ n / 0x100 % 256 ∷ n % 256 ∷ []

split_packed :
    (name key : Text)
    → 1 ≤ length name
    → length name ≤ max_key_name_bytes
    → 1 ≤ length key
    → length key ≤ max_private_key_bytes
    → split_header (packed (length name) ++ (packed (length key) ++ (name ++ key))) ≡ ok (name, key)
unfolding split_header
split_packed name key a b c d =
    rw (unpack_pack (length name) (omega (arith, b)), unpack_pack (length key) (omega (arith, d)))
      (split_body-append name key a b c d)

split_bundle-packed :
    (name key : Text)
    → 1 ≤ length name
    → length name ≤ max_key_name_bytes
    → 1 ≤ length key
    → length key ≤ max_private_key_bytes
    → split_bundle (magic ++ (packed (length name) ++ (packed (length key) ++ (name ++ key))))
      ≡ ok (name, key)
unfolding split_bundle strip_prefix
split_bundle-packed name key a b c d =
    ground (arith, length-append name key, split_packed name key a b c d)

-- The bytes of two strings of allowed lengths.
join-split :
    (name key : Text)
    → 1 ≤ length name
    → length name ≤ max_key_name_bytes
    → 1 ≤ length key
    → length key ≤ max_private_key_bytes
    → (payload : Text) × (join_bundle name key ≡ ok payload)
      × (split_bundle payload ≡ ok (name, key))
unfolding join_bundle
join-split name key a b c d =
    let payload = magic ++ (packed (length name) ++ (packed (length key) ++ (name ++ key))) in
    (
      payload,
      rw (fits_word (length name) (omega (arith, b)), fits_word (length key) (omega (arith, d)))
          refl,
      split_bundle-packed name key a b c d,
    )

module _ (encode_utf8 : Text → Text) (decode_utf8 : Text → Option Text)
    (is_signing_key : Text → Bool) where
  decode_split :
      (payload name key key_name : Text)
      → split_bundle payload ≡ ok (name, key)
      → decode_utf8 name ≡ some key_name
      → decode_bundle encode_utf8 decode_utf8 is_signing_key payload
        ≡ from_values encode_utf8 is_signing_key key_name key (codes "local_setup")
  unfolding decode_bundle
  decode_split payload name key key_name h k = rw (h, k) refl

  good_name-length :
      (name : Text)
      → is_bad_name encode_utf8 is_signing_key name ≡ false
      → length (encode_utf8 name) ≤ max_key_name_bytes
  unfolding is_bad_name
  good_name-length name h = ground arith

  good_name-nonempty :
      (name : Text) → is_bad_name encode_utf8 is_signing_key name ≡ false → 1 ≤ length name
  unfolding is_bad_name
  good_name-nonempty name h = ground arith

  newline-length : (s : Text) → 1 ≤ length (s ++ codes "\n")
  newline-length s = rw (length-append s (codes "\n")) (omega arith)

  -- If UTF-8 gives back the text that it encoded, in at least one byte unless the text is empty, then
  -- the credentials that `from_values` makes of any key name and private key, the key not above its
  -- largest size, are encoded, and reading the bundle gives them back, as those of the local setup.
  pub decode-encode_bundle :
      ((s : Text) → decode_utf8 (encode_utf8 s) ≡ some s)
      → ((s : Text) → 1 ≤ length s → 1 ≤ length (encode_utf8 s))
      → (key_name private_key source : Text) (c : Credentials)
      → from_values encode_utf8 is_signing_key key_name private_key source ≡ ok c
      → length c.private_key_pem ≤ max_private_key_bytes
      → (payload : Text) × (encode_bundle encode_utf8 decode_utf8 is_signing_key c ≡ ok payload)
        × (decode_bundle encode_utf8 decode_utf8 is_signing_key payload
            ≡ ok (record c { source = codes "local_setup" }))
  unfolding encode_bundle
  decode-encode_bundle back some_byte key_name private_key source c h fits =
      let (named, _, same) =
        from_values-passed encode_utf8 is_signing_key key_name private_key source c h in
      let name_is : c.key_name ≡ strip key_name = ap (λ (d : Credentials). d.key_name) same in
      let key_is : c.private_key_pem ≡ strip_bytes private_key ++ codes "\n" =
        ap (λ (d : Credentials). d.private_key_pem) same in
      let (payload, joined, split) =
        join-split (encode_utf8 c.key_name) c.private_key_pem
          (rw name_is (some_byte (strip key_name) (good_name-nonempty (strip key_name) named)))
          (rw name_is (good_name-length (strip key_name) named))
          (rw key_is (newline-length (strip_bytes private_key))) fits in
      (
        payload,
        joined,
        decode_split payload (encode_utf8 c.key_name) c.private_key_pem c.key_name split
              (back c.key_name)
            ∙ from_values_again encode_utf8 is_signing_key key_name private_key source c
                (codes "local_setup") h,
      )
