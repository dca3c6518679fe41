-- ===== src/Coinbase/Client.antt =====
-- The requests of coinbase.py: `_get`, the methods that build requests, and the paging of
-- `list_accounts`. The signer and the transport answer as they like: what a request gets is an argument.
use coinbase_amoled_terminal.Prelude.{
  ℕ, zero, suc, ◌-◌, ◌*◌, ◌%◌, min, max, Bool, true, false, not, ◌&&◌, ◌||◌, Option, none, some,
  List, [], ◌∷◌, ◌++◌, ◌==◌, contains, ltb, leb, eqb, if◌then◌else◌, length, all, Result, ok, err,
  ◌>>=◌, ◌>>◌, raise_if, list_eq, nat_eq, option_eq,
}
use coinbase_amoled_terminal.Prelude.Text.{Text, codes}
use coinbase_amoled_terminal.Prelude.Dict.{Dict, keys}
use coinbase_amoled_terminal.Prelude.Int.{ℤ, pos, negsuc, minus, int_eq}
use coinbase_amoled_terminal.Prelude.Json.{
  Json, null, boolean, integer, real, text, array, object, nil, cons, Fields, end, get, to_list,
}
use coinbase_amoled_terminal.Coinbase.Path.{
  ClientError, read_only_violation, unsafe_credential, value_error, api_error, validate_path,
  check_signable,
}

-- `TransportResponse`: the body by its length and by what `json.loads` reads from it, the header
-- `retry-after` by what `int` reads from it.
pub record Response : Type 0 where
  pub status : ℕ
  pub retry_after : Option ℤ
  pub size : ℕ
  pub body : Option Json

-- `min(max(parsed, 1), 3600)`, after `int(value or "")`.
unfoldable pub clamp_retry_after : Option ℤ → Option ℕ
clamp_retry_after none = none
clamp_retry_after (some (pos n)) = some (min (max n 1) 3600)
clamp_retry_after (some (negsuc n)) = some 1

-- `_http_error`
unfoldable pub http_error : Response → ClientError
unfolding clamp_retry_after
http_error r =
    let code =
      if eqb r.status 401
      then codes "upstream_auth_failed"
      else if eqb r.status 403
      then codes "upstream_forbidden"
      else if eqb r.status 404
      then codes "upstream_not_found"
      else if eqb r.status 429
      then codes "upstream_rate_limited"
      else if leb 500 r.status && leb r.status 599
      then codes "upstream_server_error"
      else codes "upstream_http_error" in
    api_error code (some r.status) (clamp_retry_after r.retry_after)

abbrev pub Params : Type 0
Params = Dict Text Text

-- A query value that is short and has no control characters.
unfoldable pub is_safe_value : Text → Bool
is_safe_value value = leb (length value) 512 && all (leb 0x20) value

unfoldable pub all_safe : Params → Bool
unfolding is_safe_value
all_safe [] = true
all_safe ((_, value) ∷ params) = is_safe_value value && all_safe params

-- The checks of `_get` up to the request that it sends.
unfoldable pub check_request : Text → Params → Result ClientError (Unit {0})
unfolding all_safe
check_request path params = do
  allowed ← validate_path path
  raise_if (not (all (contains allowed) (keys params))) read_only_violation
  raise_if (not (all_safe params)) read_only_violation
  check_signable (codes "GET") path

-- The rest of `_get`, on the response.
unfoldable pub read_response : Response → Result ClientError Fields
unfolding http_error
read_response r =
    if not (eqb r.status 200)
    then err (http_error r)
    else if ltb 2000000 r.size
    then err (api_error (codes "upstream_response_too_large") none none)
    else elim r.body [
      | none ↦ err (api_error (codes "invalid_upstream_json") none none)
      | some (object d) ↦ ok d
      | some _ ↦ err (api_error (codes "invalid_upstream_shape") none none)
    ]

-- `_get(path, params)`, with the transport as a function of the path and the query.
unfoldable pub send : (Text → Params → Response) → Text → Params → Result ClientError Fields
unfolding check_request read_response
send transport path params = do check_request path params; read_response (transport path params)

-- `d.get(name) is True`
unfoldable pub is_true : Text → Fields → Bool
is_true name d = elim (get name d) [ some (boolean b) ↦ b | _ ↦ false ]

-- `assert_view_only`, on the answer of `key_permissions`.
unfoldable pub check_view_only : Fields → Result ClientError (Unit {0})
unfolding is_true
check_view_only d =
    raise_if
      (not (is_true (codes "can_view") d)
        || (is_true (codes "can_trade") d || is_true (codes "can_transfer") d))
      unsafe_credential

-- `bool(value)`
unfoldable pub truthy : Json → Bool
truthy null = false
truthy (boolean b) = b
truthy (integer n) = not (n == pos 0)
truthy (real (some n)) = not (n == pos 0)
truthy (real none) = true
truthy (text s) = not (s == [])
truthy (array nil) = false
truthy (array (cons _ _)) = true
truthy (object end) = false
truthy (object _) = true

-- `[item for item in items if isinstance(item, dict)]`
unfoldable pub objects : List Json → List Json
objects [] = []
objects (object d ∷ items) = object d ∷ objects items
objects (_ ∷ items) = objects items

abbrev api_failure : Text → ClientError
api_failure code = api_error code none none

-- `payload.get("accounts", [])` with its check.
unfoldable pub accounts_of : Fields → Result ClientError (List Json)
unfolding objects
accounts_of d = elim (get (codes "accounts") d) [
  | none ↦ ok []
  | some (array items) ↦ ok (objects (to_list items))
  | some _ ↦ err (api_failure (codes "invalid_accounts_shape"))
]

unfoldable pub has_next : Fields → Bool
unfolding truthy
has_next d = elim (get (codes "has_next") d) [ none ↦ false | some v ↦ truthy v ]

-- The cursor of the next page, if it is a new one.
unfoldable pub next_cursor : List Text → Fields → Result ClientError Text
next_cursor seen d = elim (get (codes "cursor") d) [
  | some (text cursor) ↦
      if cursor == [] || contains seen cursor
      then err (api_failure (codes "invalid_accounts_cursor"))
      else ok cursor
  | _ ↦ err (api_failure (codes "invalid_accounts_cursor"))
]

-- The loop of `list_accounts`: the pages that may still be asked for, the cursor and the cursors
-- that were seen. `fetch` answers a request for one page. The result stands beside the cursors
-- that were sent, in order; the first page is asked for with no cursor, which is written `[]`.
unfoldable pub pages :
    (Text → Result ClientError Fields)
    → ℕ
    → Text
    → List Text
    → List Json
    → List Text × Result ClientError (List Json)
unfolding accounts_of has_next next_cursor
pages fetch zero cursor seen found = ([], err (api_failure (codes "accounts_page_limit_exceeded")))
pages fetch (suc n) cursor seen found = elim (fetch cursor) [
  | err e ↦ (cursor ∷ [], err e)
  | ok d ↦ elim (accounts_of d) [
    | err e ↦ (cursor ∷ [], err e)
    | ok page ↦ elim (has_next d) [
      | false ↦ (cursor ∷ [], ok (found ++ page))
      | true ↦ elim (next_cursor seen d) [
        | err e ↦ (cursor ∷ [], err e)
        | ok next ↦
            let rest = pages fetch n next (next ∷ seen) (found ++ page) in (cursor ∷ rest.0, rest.1)
      ]
    ]
  ]
]

unfoldable pub list_accounts :
    (Text → Result ClientError Fields) → List Text × Result ClientError (List Json)
unfolding pages
list_accounts fetch = pages fetch 4 [] [] []

-- The window of `get_candles`: the start, and the end on a full minute.
unfoldable pub candle_window : ℕ → ℕ → Result ClientError (ℤ × ℕ)
candle_window end_epoch lookback_minutes =
    if not (leb 30 lookback_minutes && leb lookback_minutes 350)
    then err value_error
    else (let last = end_epoch - end_epoch % 60 in ok (minus last (lookback_minutes * 60), last))
