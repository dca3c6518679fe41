-- ===== src/Installer/Setup.antt =====
-- The setup partition of installer/firmware_installer.py, which hands the setup session to the device:
-- `build_setup_partition` and `parse_setup_partition`. Bytes are numbers below 256.
pub mod Framing
use coinbase_amoled_terminal.Prelude.{
  ℕ, ◌+◌, ◌-◌, ◌*◌, ◌/◌, ◌%◌, Bool, true, false, not, ◌&&◌, ◌||◌, Option, none, some, List, [], ◌∷◌,
  ◌++◌, map, ◌==◌, ltb, leb, eqb, if◌then◌else◌, length, take, drop, replicate, all, Result, ok,
  err, ◌>>=◌, ◌>>◌, raise_if, list_eq, nat_eq, option_eq,
}
use coinbase_amoled_terminal.Prelude.Text.{Text, codes, to_lower, is_lower, is_upper, is_digit}
use coinbase_amoled_terminal.Prelude.Int.{ℤ, pos}
use coinbase_amoled_terminal.Prelude.Slices.{strip_prefix}
use coinbase_amoled_terminal.Prelude.Json.{
  Json, Fields, boolean, integer, text, object, end, field, get, field_names, has_exactly,
  equals_int,
}
use coinbase_amoled_terminal.Config.Secrets.{has_infix}

pub data SetupError : Type 0 where
  invalid_metadata invalid_url invalid_bridge invalid_expiry unsafe_material too_large : SetupError
  invalid_image checksum_failed trailing_data invalid_payload semantic_failed : SetupError

abbrev pub onboarding_size : ℕ
onboarding_size = 0x2000

abbrev pub onboarding_magic : Text
onboarding_magic = codes "CBATST01"

abbrev pub forbidden_markers : List Text
forbidden_markers =
    codes "privateKey"
    ∷ codes "apiKey"
    ∷ codes "apiSecret"
    ∷ codes "PRIVATE KEY-----"
    ∷ codes "coinbase_api"
    ∷ []

-- The values are as the caller or the JSON of an image has them.
pub record SetupMetadata : Type 0 where
  pub session_id : Json
  pub setup_token : Json
  pub csrf_token : Json
  pub endpoint_url : Json
  pub local_page_url : Json
  pub bridge_url : Json
  pub expires_at : Json

-- What `urlsplit` shows.
pub record Url : Type 0 where
  pub scheme : Text
  pub hostname : Option Text
  pub port : Option ℕ
  pub username : Option Text
  pub password : Option Text
  pub query : Text
  pub fragment : Text
  pub path : Text

is_token_char : ℕ → Bool
unfolding is_lower is_upper is_digit
is_token_char c = is_lower c || (is_upper c || (is_digit c || (eqb c b'_' || eqb c b'-')))

-- One of the three values that are tokens.
unfoldable pub check_token : Json → Result SetupError Text
unfolding is_token_char
check_token (text s) =
    if leb 20 (length s) && (leb (length s) 128 && all is_token_char s)
    then ok s
    else err invalid_metadata
check_token _ = err invalid_metadata

abbrev is_set : Option Text → Bool
is_set none = false
is_set (some s) = not (s == [])

abbrev has_port : Option ℕ → Bool
has_port none = false
has_port (some n) = not (eqb n 0)

-- User, password, query or fragment.
abbrev has_extras : Url → Bool
has_extras u =
    is_set u.username || (is_set u.password || (not (u.query == []) || not (u.fragment == [])))

unfoldable pub is_local : Url → Bool
is_local u =
    u.scheme == codes "http"
    && (u.hostname == some (codes "127.0.0.1") && (has_port u.port && not (has_extras u)))

unfoldable pub check_local : Url → Url → Text → Result SetupError (Unit {0})
unfolding is_local
check_local endpoint local_page session_id = do
  raise_if (not (is_local endpoint && is_local local_page)) invalid_url
  raise_if
      (not (endpoint.path == codes "/v1/onboarding")
        || (not (local_page.path == codes "/setup/" ++ session_id)
            || (not (endpoint.hostname == local_page.hostname)
                || not (endpoint.port == local_page.port))))
      invalid_url

abbrev fits : Json → Bool
fits (text s) = leb (length s) 255
fits _ = false

unfoldable pub is_bridge : Url → Json → Bool
is_bridge u value =
    (u.scheme == codes "http" || u.scheme == codes "https")
    && (is_set u.hostname
        && (not (has_extras u) && (u.path == codes "/v1/device-feed" && fits value)))

-- `isinstance(value, int) and value > 0`, where `True` is 1
abbrev is_positive : Json → Bool
is_positive (integer (pos n)) = leb 1 n
is_positive (boolean b) = b
is_positive _ = false

-- The JSON object of the payload, with its keys sorted.
abbrev pub payload_fields : SetupMetadata → Fields
payload_fields m = field (codes "bridge_url") m.bridge_url (
    field (codes "csrf_token") m.csrf_token (
      field (codes "endpoint_url") m.endpoint_url (
        field (codes "expires_at") m.expires_at (
          field (codes "local_page_url") m.local_page_url (
            field (codes "schema_version") (integer (pos 2)) (
              field (codes "session_id") m.session_id
                (field (codes "setup_token") m.setup_token end)))))))

abbrev pub payload_names : List Text
payload_names =
    codes "schema_version"
    ∷ codes "session_id"
    ∷ codes "setup_token"
    ∷ codes "csrf_token"
    ∷ codes "endpoint_url"
    ∷ codes "local_page_url"
    ∷ codes "bridge_url"
    ∷ codes "expires_at"
    ∷ []

unfoldable pub has_marker : Text → Bool
unfolding has_infix
has_marker payload =
    not (
      all (λ marker. not (has_infix (map to_lower marker) (map to_lower payload)))
        forbidden_markers)

-- `struct.pack("<I", n)` and its inverse
unfoldable pub pack : ℕ → Text
pack n = n % 256 ∷ n / 0x100 % 256 ∷ n / 0x10000 % 256 ∷ n / 0x1000000 % 256 ∷ []

unfoldable pub unpack : ℕ → ℕ → ℕ → ℕ → ℕ
unpack a b c d = a + (b * 0x100 + (c * 0x10000 + d * 0x1000000))

-- The fields with their image.
abbrev pub tagged : Fields → Result SetupError Text → Result SetupError (Fields × Text)
tagged d (ok image) = ok (d, image)
tagged d (err _) = err invalid_payload

-- The digest is SHA-256; `urlsplit` and JSON are Python's.
module _ (sha256 : Text → Text) (urlsplit : Json → Option Url) (dumps : Json → Text)
    (loads : Text → Option Json) where
  -- The image of a payload, with the digest and the fill.
  unfoldable pub frame : Text → Result SetupError Text
  unfolding pack
  frame payload =
      let image =
        onboarding_magic ++ (pack 1 ++ (pack (length payload) ++ (sha256 payload ++ payload))) in
      if ltb onboarding_size (length image)
      then err too_large
      else ok (image ++ replicate (onboarding_size - length image) 0xFF)

  abbrev pub split : SetupError → Json → Result SetupError Url
  split e value = elim (urlsplit value) [ none ↦ err e | some u ↦ ok u ]

  -- The checks of `build_setup_partition`, in their order.
  unfoldable pub check_metadata : SetupMetadata → Result SetupError (Unit {0})
  unfolding check_token check_local is_bridge
  check_metadata m = do
    session_id ← check_token m.session_id
    setup_token ← check_token m.setup_token
    csrf_token ← check_token m.csrf_token
    endpoint ← split invalid_url m.endpoint_url
    local_page ← split invalid_url m.local_page_url
    check_local endpoint local_page session_id
    bridge ← split invalid_bridge m.bridge_url
    raise_if (not (is_bridge bridge m.bridge_url)) invalid_bridge
    raise_if (not (is_positive m.expires_at)) invalid_expiry

  unfoldable pub build : SetupMetadata → Result SetupError Text
  unfolding check_metadata has_marker frame
  build m = do
    check_metadata m
    let payload = dumps (object (payload_fields m))
    raise_if (has_marker payload) unsafe_material
    frame payload

  -- The payload behind the header, whose digest and fill are right.
  unfoldable pub check_body : ℕ → ℕ → Text → Result SetupError Text
  check_body version count body = do
    raise_if (not (eqb version 1 && (leb 1 count && leb count (onboarding_size - 48))))
        invalid_image
    let digest = take 32 body
    let payload = take count (drop 32 body)
    raise_if (not (sha256 payload == digest)) checksum_failed
    raise_if (not (drop count (drop 32 body) == replicate (onboarding_size - 48 - count) 0xFF))
        trailing_data
    ok payload

  unfoldable pub split_header : Text → Result SetupError Text
  unfolding unpack check_body
  split_header (a ∷ b ∷ c ∷ d ∷ e ∷ f ∷ g ∷ h ∷ body) =
      check_body (unpack a b c d) (unpack e f g h) body
  split_header _ = err invalid_image

  unfoldable pub unframe : Text → Result SetupError Text
  unfolding split_header
  unframe image = do
    raise_if (not (eqb (length image) onboarding_size)) invalid_image
    elim (strip_prefix onboarding_magic image) [
      | none ↦ err invalid_image
      | some rest ↦ split_header rest
    ]

  abbrev required : Text → Fields → Result SetupError Json
  required name d = elim (get name d) [ none ↦ err invalid_payload | some v ↦ ok v ]

  -- The metadata of the fields.
  unfoldable pub metadata_of : Fields → Result SetupError SetupMetadata
  metadata_of d = do
    session_id ← required (codes "session_id") d
    setup_token ← required (codes "setup_token") d
    csrf_token ← required (codes "csrf_token") d
    endpoint_url ← required (codes "endpoint_url") d
    local_page_url ← required (codes "local_page_url") d
    bridge_url ← required (codes "bridge_url") d
    expires_at ← required (codes "expires_at") d
    ok (record {
      session_id = session_id;
      setup_token = setup_token;
      csrf_token = csrf_token;
      endpoint_url = endpoint_url;
      local_page_url = local_page_url;
      bridge_url = bridge_url;
      expires_at = expires_at;
    })

  abbrev has_version : Fields → Bool
  has_version d = elim (get (codes "schema_version") d) [
    | none ↦ false
    | some v ↦ equals_int v (pos 2)
  ]

  -- The image again from its payload.
  unfoldable pub rebuild : Option Json → Result SetupError (Fields × Text)
  rebuild (some (object d)) = do
    raise_if (not (has_exactly (field_names d) payload_names && has_version d)) invalid_payload
    m ← metadata_of d
    tagged d (build m)
  rebuild _ = err invalid_payload

  unfoldable pub parse : Text → Result SetupError Fields
  parse image = do
    payload ← unframe image
    (d, rebuilt) ← rebuild (loads payload)
    raise_if (not (rebuilt == image)) semantic_failed
    ok d
