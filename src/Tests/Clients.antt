-- ===== src/Tests/Clients.antt =====
-- The Coinbase client of coinbase.py at concrete inputs.
use coinbase_amoled_terminal.Prelude.Json.{get}
use coinbase_amoled_terminal.Prelude.Slices.{split_first}
use coinbase_amoled_terminal.Prelude.{
  ◌≡◌, ◌≤◌, ◌⊎◌, ◌↔◌, refl, true, List, [], ◌∷◌, ok, err, length, Result, list_eq, nat_eq,
  ℕ_discrete,
}
use coinbase_amoled_terminal.Prelude.Text.{Text, codes}
use coinbase_amoled_terminal.Prelude.Json.{
  Json, boolean, text, array, object, nil, cons, Fields, field, end,
}
use coinbase_amoled_terminal.Symbols.{is_product}
use coinbase_amoled_terminal.Coinbase.Path.{
  read_only_violation, ClientError, validate_path, check_signable,
}
use coinbase_amoled_terminal.Coinbase.Allowlist.{Accepts, product, validate_path_iff}
use coinbase_amoled_terminal.Coinbase.Signable.{allowed_signable}
use coinbase_amoled_terminal.Coinbase.Client.{list_accounts, Response, Params, send, read_response}
use coinbase_amoled_terminal.Coinbase.Requests.{IsAllowed, send_cases}
use coinbase_amoled_terminal.Coinbase.Pages.{Chain, StartsAt, list_accounts_iff}

abbrev bitcoin : Text
bitcoin = codes "/api/v3/brokerage/products/BTC-USD"

product_test : is_product (codes "BTC-USD") ≡ true
unfolding is_product split_first
product_test = refl

validate_path_iff_example : (validate_path bitcoin ≡ ok []) ↔ Accepts bitcoin []
validate_path_iff_example = validate_path_iff bitcoin []

bitcoin_allowed : validate_path bitcoin ≡ ok []
bitcoin_allowed =
    (validate_path_iff bitcoin []).1 (product (codes "BTC-USD"), product_test, refl, refl)

allowed_signable_example : check_signable (codes "GET") bitcoin ≡ ok tt
allowed_signable_example = allowed_signable bitcoin [] bitcoin_allowed

abbrev account : Text → Json
account name = object (field (codes "name") (text name) end)

-- Two pages.
abbrev upstream : Text → Result ClientError Fields
upstream [] = ok (
    field (codes "accounts") (array (cons (account (codes "a")) nil))
      (field (codes "has_next") (boolean true) (field (codes "cursor") (text (codes "x")) end)))
upstream _ = ok (field (codes "accounts") (array (cons (account (codes "b")) nil)) end)

abbrev cursors : List Text
cursors = [] ∷ codes "x" ∷ []

list_accounts_iff_example :
    (list_accounts upstream ≡ (cursors, ok (account (codes "a") ∷ account (codes "b") ∷ []))) ↔ (
      Chain upstream cursors (account (codes "a") ∷ account (codes "b") ∷ [])
      × (length cursors ≤ 4)
      × StartsAt [] [] cursors)
list_accounts_iff_example =
    list_accounts_iff upstream cursors (account (codes "a") ∷ account (codes "b") ∷ [])

list_accounts_test :
    list_accounts upstream ≡ (cursors, ok (account (codes "a") ∷ account (codes "b") ∷ []))
unfolding list_accounts get list_eq nat_eq ℕ_discrete
list_accounts_test = refl

send_cases_example :
    (IsAllowed bitcoin []
      × ((transport : Text → Params → Response)
          → send transport bitcoin [] ≡ read_response (transport bitcoin [])))
    ⊎ ((transport : Text → Params → Response) → send transport bitcoin [] ≡ err read_only_violation)
send_cases_example = send_cases bitcoin []
