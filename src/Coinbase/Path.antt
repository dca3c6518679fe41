-- ===== src/Coinbase/Path.antt =====
-- The paths that coinbase.py may request, `_validate_path`, and the test that `JWTSigner.sign` of
-- auth.py makes of a path before it signs it.
use coinbase_amoled_terminal.Prelude.{
  ℕ, Bool, true, false, not, ◌&&◌, ◌||◌, Option, none, some, List, [], ◌∷◌, ◌++◌, map, ◌==◌,
  contains, ltb, leb, eqb, if◌then◌else◌, length, all, replicate, Result, ok, err, ◌>>◌, raise_if,
  list_eq, nat_eq,
}
use coinbase_amoled_terminal.Prelude.Text.{Text, codes, is_digit, to_lower}
use coinbase_amoled_terminal.Prelude.Dict.{Dict, lookup}
use coinbase_amoled_terminal.Prelude.Slices.{strip_prefix, strip_suffix}
use coinbase_amoled_terminal.Symbols.{is_product}

-- `CoinbaseAPIError` carries its code, the status and the seconds to wait.
pub data ClientError : Type 0 where
  read_only_violation unsafe_credential value_error : ClientError
  api_error : Text → Option ℕ → Option ℕ → ClientError

abbrev pub api_prefix : Text
api_prefix = codes "/api/v3/brokerage"

unfoldable pub is_lower_hex : ℕ → Bool
unfolding is_digit
is_lower_hex c = is_digit c || leb b'a' c && leb c b'f'

-- The characters of `str(uuid.UUID(...))`: a hexadecimal digit for `true`, a dash for `false`.
abbrev pub uuid_shape : List Bool
uuid_shape =
    replicate 8 true
    ++ (false
        ∷ (replicate 4 true
            ++ (false
                ∷ (replicate 4 true
                    ++ (false ∷ (replicate 4 true ++ (false ∷ replicate 12 true)))))))

unfoldable pub has_shape : List Bool → Text → Bool
unfolding is_lower_hex
has_shape [] [] = true
has_shape (true ∷ shape) (c ∷ s) = let rest = has_shape shape s in is_lower_hex c && rest
has_shape (false ∷ shape) (c ∷ s) = let rest = has_shape shape s in eqb c b'-' && rest
has_shape _ _ = false

-- `str(uuid.UUID(value)) == value.lower()`: the lower-case value is in the canonical form, which
-- `uuid.UUID` always reads.
unfoldable pub valid_uuid : Text → Bool
unfolding has_shape
valid_uuid value = has_shape uuid_shape (map to_lower value)

abbrev pub candle_fields : List Text
candle_fields = codes "start" ∷ codes "end" ∷ codes "granularity" ∷ codes "limit" ∷ []

-- The dictionary `exact`, with the query fields of each path.
abbrev pub exact : Dict Text (List Text)
exact =
    (api_prefix ++ codes "/accounts", codes "limit" ∷ codes "cursor" ∷ [])
    ∷ (api_prefix ++ codes "/key_permissions", [])
    ∷ (api_prefix ++ codes "/cfm/positions", [])
    ∷ (api_prefix ++ codes "/cfm/balance_summary", [])
    ∷ (api_prefix ++ codes "/portfolios", codes "portfolio_type" ∷ [])
    ∷ []

abbrev pub product_prefix : Text
product_prefix = api_prefix ++ codes "/products/"

-- The suffix of a product path.
unfoldable pub product_fields : Text → Option (List Text)
product_fields suffix = elim (strip_suffix (codes "/candles") suffix) [
  | some product_id ↦ if is_product product_id then some candle_fields else none
  | none ↦ if is_product suffix then some [] else none
]

-- The loop over the two prefixes at the end.
unfoldable pub intx_fields : List Text → Text → Option (List Text)
intx_fields [] path = none
intx_fields (prefix ∷ prefixes) path =
    let rest = intx_fields prefixes path in
    elim (strip_prefix prefix path) [
      | some value ↦ if valid_uuid value then some [] else rest
      | none ↦ rest
    ]

abbrev pub intx_prefixes : List Text
intx_prefixes =
    (api_prefix ++ codes "/intx/positions/") ∷ (api_prefix ++ codes "/intx/portfolio/") ∷ []

abbrev or_refuse : Option (List Text) → Result ClientError (List Text)
or_refuse none = err read_only_violation
or_refuse (some fields) = ok fields

unfoldable pub validate_path : Text → Result ClientError (List Text)
unfolding product_fields intx_fields
validate_path path = elim (lookup path exact) [
  | some fields ↦ ok fields
  | none ↦
      let intx = or_refuse (intx_fields intx_prefixes path) in
      elim (strip_prefix product_prefix path) [
        | none ↦ intx
        | some suffix ↦ elim (product_fields suffix) [ some fields ↦ ok fields | none ↦ intx ]
      ]
]

is_none {ℓ} : {A : Type ℓ} → Option A → Bool
is_none none = true
is_none (some _) = false

-- The guards of `sign(method, request_path)`.
unfoldable pub check_signable : Text → Text → Result ClientError (Unit {0})
unfolding is_none
check_signable method request_path = do
  raise_if (not (method == codes "GET")) read_only_violation
  raise_if
      (is_none (strip_prefix (api_prefix ++ codes "/") request_path)
        || (contains request_path b'?'
            || (contains request_path b'#' || ltb 512 (length request_path))))
      read_only_violation
  raise_if (not (all (λ c. ltb c 128) request_path)) read_only_violation
