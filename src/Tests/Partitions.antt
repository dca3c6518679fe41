-- ===== src/Tests/Partitions.antt =====
-- A setup partition at concrete inputs, with a digest of zeros and a document that is one blank.
use coinbase_amoled_terminal.Prelude.Text.{to_lower}
use coinbase_amoled_terminal.Prelude.Slices.{strip_prefix}
use coinbase_amoled_terminal.Prelude.{option_eq}
use coinbase_amoled_terminal.Prelude.{
  ◌≡◌, ◌↔◌, refl, Option, none, some, [], ◌∷◌, ◌++◌, replicate, ok, err, arith, list_eq, nat_eq,
  ℕ_discrete,
}
use coinbase_amoled_terminal.Prelude.Text.{Text, codes}
use coinbase_amoled_terminal.Prelude.Int.{pos}
use coinbase_amoled_terminal.Prelude.Json.{Json, integer, text, object}
use coinbase_amoled_terminal.Installer.Setup.{
  SetupMetadata, Url, payload_fields, build, parse, invalid_url,
}
use coinbase_amoled_terminal.Installer.Setup.Framing.{parse-build_iff}

abbrev digest : Text → Text
digest s = replicate 32 0

abbrev written : Json → Text
written v = 32 ∷ []

abbrev session : Text
session = replicate 24 b's'

abbrev url : Text → Url
url path = record {
  scheme = codes "http";
  hostname = some (codes "127.0.0.1");
  port = some 8000;
  username = none;
  password = none;
  query = [];
  fragment = [];
  path = path;
}

abbrev split_text : Json → Option Url
split_text (text s) = some (url s)
split_text _ = none

abbrev metadata : SetupMetadata
metadata = record {
  session_id = text session;
  setup_token = text session;
  csrf_token = text session;
  endpoint_url = text (codes "/v1/onboarding");
  local_page_url = text (codes "/setup/" ++ session);
  bridge_url = text (codes "/v1/device-feed");
  expires_at = integer (pos 99);
}

abbrev read_back : Text → Option Json
read_back s = some (object (payload_fields metadata))

abbrev image : Text
image =
    codes "CBATST01"
    ++ ((1 ∷ 0 ∷ 0 ∷ 0 ∷ 1 ∷ 0 ∷ 0 ∷ 0 ∷ [])
        ++ (replicate 32 0 ++ ((32 ∷ []) ++ replicate 8143 0xFF)))

parse-build_iff_example :
    (build digest split_text written read_back metadata ≡ ok image)
    ↔ (parse digest split_text written read_back image ≡ ok (payload_fields metadata))
parse-build_iff_example =
    parse-build_iff digest split_text written read_back metadata image refl (omega arith) refl

built : build digest split_text written read_back metadata ≡ ok image
unfolding build list_eq nat_eq ℕ_discrete option_eq strip_prefix to_lower
built = refl

remote_refused :
    build digest split_text written read_back
      (record metadata { endpoint_url = text (codes "/v1/other") })
    ≡ err invalid_url
unfolding build list_eq nat_eq ℕ_discrete option_eq
remote_refused = refl
