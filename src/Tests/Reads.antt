-- ===== src/Tests/Reads.antt =====
-- A request to the server at concrete inputs, with a digest that reverses the token.
use mathlib.Core.List.{reverse}
use coinbase_amoled_terminal.Prelude.{
  ◌≡◌, refl, true, false, some, [], ◌∷◌, ◌++◌, ok, eqb, replicate, list_eq, nat_eq, option_eq,
  ℕ_discrete,
}
use coinbase_amoled_terminal.Prelude.Text.{Text, codes, is_space}
use coinbase_amoled_terminal.Prelude.Dict.{lookup}
use coinbase_amoled_terminal.Prelude.Slices.{strip_prefix}
use coinbase_amoled_terminal.RateLimit.{Limiter, allow}
use coinbase_amoled_terminal.Devices.Manager.{authenticate, is_device_id, is_device_token}
use coinbase_amoled_terminal.Server.Read.{Request, App, feed, feed_path, check_request, handle_read}
use coinbase_amoled_terminal.Server.Gates.{IsEntitled, Grants, handle_read-IsEntitled}

abbrev limiter : Limiter
limiter = record {
  rate_per_minute = 60;
  burst = 2;
  max_entries = 8;
  buckets = [];
  next_cleanup = 100;
}

abbrev token : Text
token = codes "cbat_" ++ replicate 43 b'A'

abbrev app : App
app = record {
  free_slots = 4;
  ip_limiter = limiter;
  device_limiter = limiter;
  devices =
      (
        codes "display-0001",
        record {
          token_sha256 = reverse token;
          enabled = true;
          created_at = [];
          updated_at = [];
          label = [];
        },
      )
      ∷ [];
  ready = true;
}

abbrev request : Request
request = record {
  remote = codes "a";
  target_length = 15;
  header_size = 200;
  hosts = 1;
  content_lengths = [];
  has_transfer_encoding = false;
  has_expect = false;
  has_extras = false;
  path = feed_path;
  authorizations = (codes "Bearer " ++ token) ∷ [];
  device_ids = codes "display-0001" ∷ [];
}

handle_read_test : (handle_read 1 reverse (some (codes "{}")) app request 1).0 ≡ feed (codes "{}")
unfolding handle_read allow lookup list_eq nat_eq ℕ_discrete authenticate is_device_id strip_prefix
    is_space is_device_token
handle_read_test = refl

handle_read-IsEntitled_example :
    (eqb 4 0 ≡ false)
    × IsEntitled 1 reverse app request 1
    × Grants 1 limiter (codes "a") 1
    × (check_request request ≡ ok tt)
    × (feed_path ≡ feed_path)
    × (some (codes "{}") ≡ some (codes "{}"))
handle_read-IsEntitled_example =
    handle_read-IsEntitled 1 reverse (some (codes "{}")) app request 1 (codes "{}") handle_read_test
