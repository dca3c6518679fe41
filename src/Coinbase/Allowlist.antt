-- ===== src/Coinbase/Allowlist.antt =====
-- The endpoints that the client knows, and that `_validate_path` accepts exactly their paths.
use coinbase_amoled_terminal.Prelude.{
  ℕ, ◌≤◌, ◌≡◌, refl, sym, ap, inl, inr, ◌⊎◌, ◌↔◌, Bool, true, false, ◌||◌, none, some, List, [],
  ◌∷◌, ◌++◌, eqb, length, all, ok, arith, Bool-cases, Option-cases, length-append, list_eq, nat_eq,
  ℕ_discrete,
}
use coinbase_amoled_terminal.Prelude.Text.{Text, codes, is_digit, is_upper}
use coinbase_amoled_terminal.Prelude.Dict.{Dict, lookup}
use coinbase_amoled_terminal.Prelude.Chars.{contains-append, contains_of_all, all-append, all_mono}
use coinbase_amoled_terminal.Prelude.Slices.{
  strip_prefix, strip_suffix, split_first, strip_prefix-eq, strip_suffix-eq, strip_suffix-append,
  split_first-eq,
}
use coinbase_amoled_terminal.Symbols.{is_product, is_base_char, matches_class}
use coinbase_amoled_terminal.Coinbase.Path.{
  valid_uuid, exact, product_prefix, product_fields, intx_fields, intx_prefixes, validate_path,
}

pub data Endpoint : Type 0 where
  accounts key_permissions cfm_positions cfm_balance portfolios : Endpoint
  product candles intx_positions intx_portfolio : Text → Endpoint

abbrev pub path_of : Endpoint → Text
path_of accounts = codes "/api/v3/brokerage/accounts"
path_of key_permissions = codes "/api/v3/brokerage/key_permissions"
path_of cfm_positions = codes "/api/v3/brokerage/cfm/positions"
path_of cfm_balance = codes "/api/v3/brokerage/cfm/balance_summary"
path_of portfolios = codes "/api/v3/brokerage/portfolios"
path_of (product p) = codes "/api/v3/brokerage/products/" ++ p
path_of (candles p) = codes "/api/v3/brokerage/products/" ++ (p ++ codes "/candles")
path_of (intx_positions u) = codes "/api/v3/brokerage/intx/positions/" ++ u
path_of (intx_portfolio u) = codes "/api/v3/brokerage/intx/portfolio/" ++ u

abbrev pub query_of : Endpoint → List Text
query_of accounts = codes "limit" ∷ codes "cursor" ∷ []
query_of portfolios = codes "portfolio_type" ∷ []
query_of (candles _) = codes "start" ∷ codes "end" ∷ codes "granularity" ∷ codes "limit" ∷ []
query_of _ = []

-- The argument of the endpoint is a product or a UUID.
abbrev pub IsProper : Endpoint → Type 0
IsProper (product p) = is_product p ≡ true
IsProper (candles p) = is_product p ≡ true
IsProper (intx_positions u) = valid_uuid u ≡ true
IsProper (intx_portfolio u) = valid_uuid u ≡ true
IsProper _ = Unit

abbrev pub Accepts : Text → List Text → Type 0
Accepts path fields = (e : Endpoint) × IsProper e × (path_of e ≡ path) × (query_of e ≡ fields)

-- The entry of the dictionary that is found.
Entry : Text → List Text → Dict Text (List Text) → Type 0
Entry path fields [] = ⊥
Entry path fields ((k, v) ∷ d) = ((k ≡ path) × (v ≡ fields)) ⊎ Entry path fields d

lookup-Entry :
    (path : Text) (fields : List Text) (d : Dict Text (List Text))
    → lookup path d ≡ some fields
    → Entry path fields d
unfolding lookup Entry
lookup-Entry path fields [] h = cc
lookup-Entry path fields ((k, v) ∷ d) h = ground (arith, lookup-Entry path fields d)

exact_found :
    (path : Text) (fields : List Text) → lookup path exact ≡ some fields → Accepts path fields
unfolding Entry
exact_found path fields h = elim (lookup-Entry path fields exact h) [
  | inl (p, q) ↦ (accounts, tt, p, q)
  | inr (inl (p, q)) ↦ (key_permissions, tt, p, q)
  | inr (inr (inl (p, q))) ↦ (cfm_positions, tt, p, q)
  | inr (inr (inr (inl (p, q)))) ↦ (cfm_balance, tt, p, q)
  | inr (inr (inr (inr (inl (p, q))))) ↦ (portfolios, tt, p, q)
  | inr (inr (inr (inr (inr absurd)))) ↦ elim absurd [ ]
]

product_Accepts :
    (path suffix : Text) (fields : List Text)
    → path ≡ product_prefix ++ suffix
    → product_fields suffix ≡ some fields
    → Accepts path fields
unfolding product_fields
product_Accepts path suffix fields at h =
    elim (Option-cases (strip_suffix (codes "/candles") suffix)) [
      | inl e ↦ (product suffix, ground arith, sym at, ground arith)
      | inr (p, e) ↦ (
        candles p,
        ground arith,
        ground (arith, strip_suffix-eq (codes "/candles") suffix p),
        ground arith,
      )
    ]

-- The prefix that fits, with the UUID behind it.
Fits : Text → List Text → List Text → Type 0
Fits path fields [] = ⊥
Fits path fields (prefix ∷ prefixes) =
    ((u : Text) × (valid_uuid u ≡ true) × (prefix ++ u ≡ path) × ([] ≡ fields))
    ⊎ Fits path fields prefixes

intx_fields-Fits :
    (prefixes : List Text) (path : Text) (fields : List Text)
    → intx_fields prefixes path ≡ some fields
    → Fits path fields prefixes
unfolding intx_fields Fits
intx_fields-Fits [] path fields h = cc
intx_fields-Fits (prefix ∷ prefixes) path fields h =
    elim (Option-cases (strip_prefix prefix path)) [
      | inl e ↦ inr (intx_fields-Fits prefixes path fields (ground arith))
      | inr (u, e) ↦ elim (Bool-cases (valid_uuid u)) [
        | inl good ↦ inl (u, good, sym (strip_prefix-eq prefix path u e), ground arith)
        | inr bad ↦ inr (intx_fields-Fits prefixes path fields (ground arith))
      ]
    ]

intx_Accepts :
    (path : Text) (fields : List Text)
    → intx_fields intx_prefixes path ≡ some fields
    → Accepts path fields
unfolding Fits
intx_Accepts path fields h = elim (intx_fields-Fits intx_prefixes path fields h) [
  | inl (u, good, p, q) ↦ (intx_positions u, good, p, q)
  | inr (inl (u, good, p, q)) ↦ (intx_portfolio u, good, p, q)
  | inr (inr absurd) ↦ elim absurd [ ]
]

validate_path_sound :
    (path : Text) (fields : List Text) → validate_path path ≡ ok fields → Accepts path fields
unfolding validate_path
validate_path_sound path fields h = elim (Option-cases (lookup path exact)) [
  | inr (found, e) ↦ exact_found path fields (ground arith)
  | inl e ↦ elim (Option-cases (strip_prefix product_prefix path)) [
    | inl none_here ↦ intx_Accepts path fields (ground arith)
    | inr (suffix, at) ↦ elim (Option-cases (product_fields suffix)) [
      | inl no_product ↦ intx_Accepts path fields (ground arith)
      | inr (found, yes_product) ↦
          product_Accepts path suffix fields (strip_prefix-eq product_prefix path suffix at)
            (ground arith)
    ]
  ]
]

-- A product has letters, digits and dashes only.
unfoldable pub is_product_char : ℕ → Bool
is_product_char c = is_base_char c || eqb c b'-'

class_length :
    (least most : ℕ) (s : Text)
    → matches_class least most s ≡ true
    → (length s ≤ most) × (all is_base_char s ≡ true)
unfolding matches_class
class_length least most s h = ground arith

base_char_product : (c : ℕ) → is_base_char c ≡ true → is_product_char c ≡ true
unfolding is_product_char
base_char_product c h = ground arith

dash : is_product_char b'-' ≡ true
unfolding is_product_char is_base_char is_upper is_digit
dash = refl

pub product_text :
    (p : Text) → is_product p ≡ true → (length p ≤ 21) × (all is_product_char p ≡ true)
unfolding is_product
product_text p h = elim (Option-cases (split_first b'-' p)) [
  | inl e ↦ ground arith
  | inr ((base, quote), e) ↦
      let (n, one) = class_length 2 12 base (ground arith) in
      let (m, two) = class_length 2 8 quote (ground arith) in
      rw (split_first-eq b'-' p base quote e) (
        omega (arith, n, m, length-append base (b'-' ∷ quote)),
        all-append is_product_char base (b'-' ∷ quote)
            (all_mono is_base_char is_product_char base base_char_product one)
            (ground
              (arith, dash, all_mono is_base_char is_product_char quote base_char_product two)),
      )
]

no_slash : is_product_char b'/' ≡ false
unfolding is_product_char is_base_char is_upper is_digit
no_slash = refl

not_candles : (p : Text) → is_product p ≡ true → strip_suffix (codes "/candles") p ≡ none
not_candles p h = elim (Option-cases (strip_suffix (codes "/candles") p)) [
  | inl e ↦ e
  | inr (r, e) ↦ ground (
    arith,
    strip_suffix-eq (codes "/candles") p r e,
    contains-append r (codes "candles") b'/',
    contains_of_all is_product_char p b'/' (product_text p h).1 no_slash,
  )
]

validate_path_complete : (e : Endpoint) → IsProper e → validate_path (path_of e) ≡ ok (query_of e)
unfolding validate_path lookup list_eq nat_eq ℕ_discrete product_fields intx_fields strip_prefix
validate_path_complete accounts h = refl
validate_path_complete key_permissions h = refl
validate_path_complete cfm_positions h = refl
validate_path_complete cfm_balance h = refl
validate_path_complete portfolios h = refl
validate_path_complete (product p) h = rw (validate_path, product_fields, not_candles p h, h) refl
validate_path_complete (candles p) h =
    rw (validate_path, product_fields, strip_suffix-append (codes "/candles") p, h) refl
validate_path_complete (intx_positions u) h = rw h refl
validate_path_complete (intx_portfolio u) h = rw h refl

-- The client may request a path, with some query fields, exactly if it is the path of an endpoint
-- whose product or UUID is well formed, and these are the query fields of the endpoint.
pub validate_path_iff :
    (path : Text) (fields : List Text) → (validate_path path ≡ ok fields) ↔ Accepts path fields
validate_path_iff path fields = (
  validate_path_sound path fields,
  λ (e, proper, at, q). rw (sym at, validate_path_complete e proper) (ap ok q),
)
