-- ===== src/Coinbase/Requests.antt =====
-- What `_get` of coinbase.py lets out.
use coinbase_amoled_terminal.Prelude.{
  ◌≡◌, refl, inl, inr, ◌⊎◌, true, contains, all, ok, err, arith, Bool-cases, Result-cases, list_eq,
  nat_eq,
}
use coinbase_amoled_terminal.Prelude.Text.{Text}
use coinbase_amoled_terminal.Prelude.Dict.{keys}
use coinbase_amoled_terminal.Coinbase.Path.{ClientError, read_only_violation, validate_path}
use coinbase_amoled_terminal.Coinbase.Allowlist.{
  Endpoint, IsProper, path_of, query_of, validate_path_iff,
}
use coinbase_amoled_terminal.Coinbase.Signable.{allowed_signable}
use coinbase_amoled_terminal.Coinbase.Client.{
  Response, Params, all_safe, check_request, read_response, send,
}

-- A request to a known endpoint, with query fields of that endpoint and safe values.
abbrev pub IsAllowed : Text → Params → Type 0
IsAllowed path params =
    (e : Endpoint) × IsProper e
    × (path_of e ≡ path)
    × (all (contains (query_of e)) (keys params) ≡ true)
    × (all_safe params ≡ true)

-- `_validate_path` raises nothing else.
validate_path_refusal :
    (path : Text) (e : ClientError) → validate_path path ≡ err e → e ≡ read_only_violation
unfolding validate_path
validate_path_refusal path e h = ground arith

check_request_cases :
    (path : Text) (params : Params)
    → (IsAllowed path params × (check_request path params ≡ ok tt))
      ⊎ (check_request path params ≡ err read_only_violation)
unfolding check_request
check_request_cases path params = elim (Result-cases (validate_path path)) [
  | inr (e, refused) ↦
      inr (rw (refused, check_request) (ground (arith, validate_path_refusal path e refused)))
  | inl (fields, allowed) ↦
      let (e, proper, at, query) = (validate_path_iff path fields).0 allowed in
      elim (Bool-cases (all (contains fields) (keys params))) [
        | inr bad ↦ inr (rw (allowed, check_request) (rw bad refl))
        | inl known ↦ elim (Bool-cases (all_safe params)) [
          | inr bad ↦ inr (rw (allowed, check_request) (rw (known, bad) refl))
          | inl safe ↦ inl (
            (e, proper, at, rw query known, safe),
            rw (allowed, check_request) (rw (known, safe) (allowed_signable path fields allowed)),
          )
        ]
      ]
]

-- A request is for a known endpoint, with the query fields of that endpoint and safe values, and then
-- the answer is what the transport's response is read as; or it is refused as a violation of the
-- read-only rule, whatever the transport would answer.
pub send_cases :
    (path : Text) (params : Params)
    → (IsAllowed path params
        × ((transport : Text → Params → Response)
            → send transport path params ≡ read_response (transport path params)))
      ⊎ ((transport : Text → Params → Response)
          → send transport path params ≡ err read_only_violation)
unfolding send
send_cases path params = elim (check_request_cases path params) [
  | inl (allowed, checked) ↦ inl (allowed, λ transport. rw (send, checked) refl)
  | inr refused ↦ inr (λ transport. rw (send, refused) refl)
]
