-- ===== src/Config/Places.antt =====
-- Reading and replacing the fields of a JSON object, for the proofs on config.py.
use coinbase_amoled_terminal.Prelude.{
  ◌≡◌, some, ◌==◌, if◌then◌else◌, arith, ok, Bool-cases, inl, inr, >>-ok, raise_if, list_eq, nat_eq,
}
use coinbase_amoled_terminal.Prelude.Text.{Text}
use coinbase_amoled_terminal.Prelude.Json.{Json, Fields, end, field, get, field_names}
use coinbase_amoled_terminal.Config.Secrets.{
  put, embedded_secret, is_forbidden_key, reject_secrets, reject_fields,
}

pub get-put :
    (j k : Text) (v : Json) (d : Fields) → get j (put k v d) ≡ (if j == k then some v else get j d)
unfolding get put
get-put j k v end = ground arith
get-put j k v (field i w d) = ground (arith, get-put j k v d)

pub put_same : (k : Text) (v : Json) (d : Fields) → get k d ≡ some v → put k v d ≡ d
unfolding get put
put_same k v end h = cc
put_same k v (field i w d) h = ground (arith, put_same k v d)

pub field_names-put :
    (k : Text) (v w : Json) (d : Fields)
    → get k d ≡ some w
    → field_names (put k v d) ≡ field_names d
unfolding get put
field_names-put k v w end h = cc
field_names-put k v w (field i u d) h = elim (Bool-cases (k == i)) [
  | inl e ↦ ground (arith, e)
  | inr e ↦ ground (arith, e, field_names-put k v w d)
]

pub reject_fields-put :
    (k : Text) (v w : Json) (d : Fields)
    → get k d ≡ some w
    → reject_secrets v ≡ ok tt
    → reject_fields d ≡ ok tt
    → reject_fields (put k v d) ≡ ok tt
unfolding get put reject_fields
reject_fields-put k v w end h clean all_clean = cc
reject_fields-put k v w (field i u d) h clean all_clean =
    let (name_ok, rest) =
      (>>-ok (raise_if (is_forbidden_key i) embedded_secret) _ tt).0 all_clean in
    let (first, tail) = (>>-ok (reject_secrets u) (reject_fields d) tt).0 rest in
    elim (Bool-cases (k == i)) [
      | inl e ↦ rw (e, name_ok, clean) tail
      | inr e ↦ rw (e, name_ok, first) (reject_fields-put k v w d (ground arith) clean tail)
    ]

pub reject_fields-get :
    (k : Text) (v : Json) (d : Fields)
    → get k d ≡ some v
    → reject_fields d ≡ ok tt
    → reject_secrets v ≡ ok tt
unfolding get reject_fields
reject_fields-get k v end h clean = cc
reject_fields-get k v (field i u d) h clean =
    let (_, rest) = (>>-ok (raise_if (is_forbidden_key i) embedded_secret) _ tt).0 clean in
    let (first, tail) = (>>-ok (reject_secrets u) (reject_fields d) tt).0 rest in
    elim (Bool-cases (k == i)) [
      | inl e ↦ ground (arith, first)
      | inr e ↦ reject_fields-get k v d (ground arith) tail
    ]

pub get-put_same : (k : Text) (v : Json) (d : Fields) → get k (put k v d) ≡ some v
get-put_same k v d = ground (arith, get-put k k v d)
