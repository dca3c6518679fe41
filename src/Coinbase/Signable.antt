-- ===== src/Coinbase/Signable.antt =====
-- Every path that the client may request passes the guards of `JWTSigner.sign`.
use coinbase_amoled_terminal.Prelude.{
  ℕ, ◌≤◌, ◌≡◌, refl, ap, subst, Bool, true, false, ◌&&◌, ◌||◌, some, List, [], ◌∷◌, ◌++◌, map, ltb,
  leb, eqb, length, all, ok, arith, length-append, list_eq, nat_eq, ℕ_discrete, suc,
}
use coinbase_amoled_terminal.Prelude.Text.{Text, codes, is_digit, is_upper, to_lower}
use coinbase_amoled_terminal.Prelude.Chars.{all-append, all_mono, contains_of_all}
use coinbase_amoled_terminal.Prelude.Slices.{strip_prefix}
use coinbase_amoled_terminal.Symbols.{is_product, is_base_char}
use coinbase_amoled_terminal.Coinbase.Path.{
  api_prefix, is_lower_hex, uuid_shape, has_shape, valid_uuid, validate_path, check_signable,
}
use coinbase_amoled_terminal.Coinbase.Allowlist.{
  Endpoint, accounts, key_permissions, cfm_positions, cfm_balance, portfolios, product, candles,
  intx_positions, intx_portfolio, path_of, IsProper, is_product_char, product_text,
  validate_path_iff,
}

-- The characters that the paths are made of.
is_path_char : ℕ → Bool
unfolding is_digit
is_path_char c =
    is_digit c
    || (leb b'a' c && leb c b'z'
        || (leb b'A' c && leb c b'Z' || (eqb c b'-' || (eqb c b'_' || eqb c b'/'))))

product_path_char : (c : ℕ) → is_product_char c ≡ true → is_path_char c ≡ true
unfolding is_path_char is_product_char is_base_char is_upper is_digit
product_path_char c h = ground arith

hex_path_char : (c : ℕ) → is_lower_hex (to_lower c) ≡ true → is_path_char c ≡ true
unfolding is_path_char is_lower_hex is_digit to_lower is_upper
hex_path_char c h = ground arith

dash_path_char : (c : ℕ) → eqb (to_lower c) b'-' ≡ true → is_path_char c ≡ true
unfolding is_path_char to_lower is_upper
dash_path_char c h = ground arith

has_shape_chars :
    (shape : List Bool) (s : Text)
    → has_shape shape (map to_lower s) ≡ true
    → (all is_path_char s ≡ true) × (length s ≡ length shape)
unfolding has_shape
has_shape_chars [] [] h = (refl, refl)
has_shape_chars [] (c ∷ s) h = cc
has_shape_chars (true ∷ shape) [] h = cc
has_shape_chars (false ∷ shape) [] h = cc
has_shape_chars (true ∷ shape) (c ∷ s) h =
    let (chars, n) = has_shape_chars shape s (ground arith) in
    (ground (arith, hex_path_char c), ap suc n)
has_shape_chars (false ∷ shape) (c ∷ s) h =
    let (chars, n) = has_shape_chars shape s (ground arith) in
    (ground (arith, dash_path_char c), ap suc n)

uuid_text : (u : Text) → valid_uuid u ≡ true → (all is_path_char u ≡ true) × (length u ≡ 36)
unfolding valid_uuid
uuid_text u h = has_shape_chars uuid_shape u h

product_path : (p : Text) → is_product p ≡ true → (all is_path_char p ≡ true) × (length p ≤ 21)
product_path p h =
    let (n, chars) = product_text p h in
    (all_mono is_product_char is_path_char p product_path_char chars, n)

endpoint_text :
    (e : Endpoint) → IsProper e → (all is_path_char (path_of e) ≡ true) × (length (path_of e) ≤ 80)
unfolding is_path_char is_digit
endpoint_text accounts h = (refl, omega arith)
endpoint_text key_permissions h = (refl, omega arith)
endpoint_text cfm_positions h = (refl, omega arith)
endpoint_text cfm_balance h = (refl, omega arith)
endpoint_text portfolios h = (refl, omega arith)
endpoint_text (product p) h = let (chars, n) = product_path p h in (chars, omega (arith, n))
endpoint_text (candles p) h =
    let (chars, n) = product_path p h in
    (
      all-append is_path_char p (codes "/candles") chars refl,
      omega (arith, n, length-append p (codes "/candles")),
    )
endpoint_text (intx_positions u) h = let (chars, n) = uuid_text u h in (chars, omega (arith, n))
endpoint_text (intx_portfolio u) h = let (chars, n) = uuid_text u h in (chars, omega (arith, n))

path_char_ascii : (c : ℕ) → is_path_char c ≡ true → ltb c 128 ≡ true
unfolding is_path_char is_digit
path_char_ascii c h = ground arith

no_question : is_path_char b'?' ≡ false
unfolding is_path_char is_digit
no_question = refl

no_hash : is_path_char b'#' ≡ false
unfolding is_path_char is_digit
no_hash = refl

-- Where the prefix is there, the other guards are about the characters and the length.
signable :
    (path : Text)
    → (rest : Text) × (strip_prefix (api_prefix ++ codes "/") path ≡ some rest)
    → all is_path_char path ≡ true
    → length path ≤ 80
    → check_signable (codes "GET") path ≡ ok tt
unfolding check_signable list_eq nat_eq ℕ_discrete
signable path (rest, at) chars n =
    rw
      (
        at,
        contains_of_all is_path_char path b'?' chars no_question,
        contains_of_all is_path_char path b'#' chars no_hash,
        all_mono is_path_char (λ c. ltb c 128) path path_char_ascii chars,
      )
      (ground (arith, n))

prefixed :
    (e : Endpoint)
    → (rest : Text) × (strip_prefix (api_prefix ++ codes "/") (path_of e) ≡ some rest)
unfolding strip_prefix
prefixed accounts = (_, refl)
prefixed key_permissions = (_, refl)
prefixed cfm_positions = (_, refl)
prefixed cfm_balance = (_, refl)
prefixed portfolios = (_, refl)
prefixed (product p) = (_, refl)
prefixed (candles p) = (_, refl)
prefixed (intx_positions u) = (_, refl)
prefixed (intx_portfolio u) = (_, refl)

-- A path that the client may request is signed: `sign` refuses none of them for a GET.
pub allowed_signable :
    (path : Text) (fields : List Text)
    → validate_path path ≡ ok fields
    → check_signable (codes "GET") path ≡ ok tt
allowed_signable path fields h =
    let (e, proper, at, _) = (validate_path_iff path fields).0 h in
    let (chars, n) = endpoint_text e proper in
    subst (λ p. check_signable (codes "GET") p ≡ ok tt) at
      (signable (path_of e) (prefixed e) chars n)
