-- ===== src/Coinbase/Pages.antt =====
-- What `list_accounts` of coinbase.py asks for and returns.
use coinbase_amoled_terminal.Prelude.{
  ℕ, zero, suc, ◌≤◌, ◌≡◌, refl, sym, ap, subst, inl, inr, ◌↔◌, true, false, some, List, [], ◌∷◌,
  ◌++◌, ◌==◌, contains, length, Result, ok, arith, Bool-cases, Result-cases, list_eq, nat_eq,
}
use coinbase_amoled_terminal.Prelude.Text.{Text, codes}
use coinbase_amoled_terminal.Prelude.Json.{Json, Fields, text, get}
use coinbase_amoled_terminal.Coinbase.Path.{ClientError}
use coinbase_amoled_terminal.Coinbase.Client.{
  accounts_of, has_next, next_cursor, pages, list_accounts,
}

-- The pages from the first cursor on: each page names the next cursor, and the last has no next page.
unfoldable pub Chain : (Text → Result ClientError Fields) → List Text → List Json → Type 0
Chain fetch [] items = ⊥
Chain fetch (c ∷ []) items =
    (d : Fields) × (fetch c ≡ ok d) × (accounts_of d ≡ ok items) × (has_next d ≡ false)
Chain fetch (c ∷ (next ∷ cs)) items =
    (d : Fields) × (page : List Json) × (more : List Json) × (fetch c ≡ ok d)
    × (accounts_of d ≡ ok page)
    × (has_next d ≡ true)
    × (get (codes "cursor") d ≡ some (text next))
    × Chain fetch (next ∷ cs) more
    × (items ≡ page ++ more)

-- Cursors that are not empty, none of them twice or among those that were seen.
unfoldable pub Fresh : List Text → List Text → Type 0
Fresh seen [] = Unit
Fresh seen (c ∷ cs) = ((c == []) ≡ false) × (contains seen c ≡ false) × Fresh (c ∷ seen) cs

unfoldable pub StartsAt : Text → List Text → List Text → Type 0
unfolding Fresh
StartsAt cursor seen [] = ⊥
StartsAt cursor seen (c ∷ cs) = (cursor ≡ c) × Fresh seen cs

next_cursor_iff :
    (seen : List Text) (d : Fields) (c : Text)
    → (next_cursor seen d ≡ ok c)
      ↔ ((get (codes "cursor") d ≡ some (text c)) × ((c == []) ≡ false) × (contains seen c ≡ false))
unfolding next_cursor
next_cursor_iff seen d c = (λ h. ground arith, λ h. ground arith)

-- A run of the loop that returns.
Returned :
    (Text → Result ClientError Fields)
    → ℕ
    → Text
    → List Text
    → List Json
    → List Text
    → List Json
    → Type 0
Returned fetch n cursor seen found asked items =
    (rest : List Json) × Chain fetch asked rest
    × (items ≡ found ++ rest)
    × (length asked ≤ n)
    × StartsAt cursor seen asked

append_assoc : (a b c : List Json) → (a ++ b) ++ c ≡ a ++ (b ++ c)
append_assoc [] b c = refl
append_assoc (x ∷ a) b c = ap (λ l. x ∷ l) (append_assoc a b c)

joined :
    (found page more rest items : List Json)
    → items ≡ found ++ rest
    → rest ≡ page ++ more
    → items ≡ (found ++ page) ++ more
joined found page more rest items e f = ground (arith, append_assoc found page more)

rejoined :
    (found page more items : List Json)
    → items ≡ (found ++ page) ++ more
    → items ≡ found ++ (page ++ more)
rejoined found page more items e = ground (arith, append_assoc found page more)

pages_complete :
    (fetch : Text → Result ClientError Fields) (n : ℕ) (cursor : Text) (seen : List Text)
    (found : List Json) (asked : List Text) (items : List Json)
    → Returned fetch n cursor seen found asked items
    → pages fetch n cursor seen found ≡ (asked, ok items)
unfolding pages Returned Chain StartsAt
pages_complete fetch zero cursor seen found [] items (rest, chain, e, n, start) = elim chain [ ]
pages_complete fetch zero cursor seen found (c ∷ cs) items (rest, chain, e, n, start) = ground arith
pages_complete fetch (suc n) cursor seen found [] items (rest, chain, e, k, start) = elim chain [ ]
pages_complete fetch (suc n) cursor seen found (c ∷ []) items
      (rest, (d, a, b, last), e, k, (same, _)) =
    rw (pages, same, a, b, last) (ground arith)
pages_complete fetch (suc n) cursor seen found (c ∷ (next ∷ cs)) items
      (rest, (d, page, more, a, b, on, at, chain, f), e, k, (same, (full, new, fresh))) =
    let named = (next_cursor_iff seen d next).1 (at, full, new) in
    let ih =
      pages_complete fetch n next (next ∷ seen) (found ++ page) (next ∷ cs) items
        (more, chain, joined found page more rest items e f, omega (arith, k), (refl, fresh)) in
    rw (pages, same, a, b, on, named, ih) (ap (λ (x : Text). (x ∷ (next ∷ cs), ok items)) same)

sound_step :
    (fetch : Text → Result ClientError Fields) (n : ℕ) (cursor : Text) (seen : List Text)
    (found : List Json) (d : Fields) (page : List Json) (next : Text) (asked : List Text)
    (items : List Json)
    → fetch cursor ≡ ok d
    → accounts_of d ≡ ok page
    → has_next d ≡ true
    → (get (codes "cursor") d ≡ some (text next))
      × ((next == []) ≡ false)
      × (contains seen next ≡ false)
    → Returned fetch n next (next ∷ seen) (found ++ page) asked items
    → Returned fetch (suc n) cursor seen found (cursor ∷ asked) items
unfolding Returned Chain StartsAt
sound_step fetch n cursor seen found d page next [] items a b on facts (rest, chain, _, _, _) =
    elim chain [ ]
sound_step fetch n cursor seen found d page next (c ∷ cs) items a b on (at, full, new)
      (rest, chain, e, k, (same, fresh)) =
    (
      page ++ rest,
      (d, page, rest, a, b, on, rw (sym same) at, chain, refl),
      rejoined found page rest items e,
      omega (arith, k),
      (refl, (rw (sym same) full, rw (sym same) new, rw (sym same) fresh)),
    )

pages_sound :
    (fetch : Text → Result ClientError Fields) (n : ℕ) (cursor : Text) (seen : List Text)
    (found : List Json) (asked : List Text) (items : List Json)
    → pages fetch n cursor seen found ≡ (asked, ok items)
    → Returned fetch n cursor seen found asked items
unfolding pages Returned Chain StartsAt
pages_sound fetch zero cursor seen found asked items h = ground arith
pages_sound fetch (suc n) cursor seen found asked items h = elim (Result-cases (fetch cursor)) [
  | inr (x, a) ↦ ground arith
  | inl (d, a) ↦ elim (Result-cases (accounts_of d)) [
    | inr (x, b) ↦ ground arith
    | inl (page, b) ↦ elim (Bool-cases (has_next d)) [
      | inr last ↦
          let all_asked : cursor ∷ [] ≡ asked = ground arith in
          let result : found ++ page ≡ items = ground arith in
          subst (λ l. Returned fetch (suc n) cursor seen found l items) all_asked
            (page, (d, a, b, last), sym result, omega arith, (refl, tt))
      | inl on ↦ elim (Result-cases (next_cursor seen d)) [
        | inr (x, c) ↦ ground arith
        | inl (next, c) ↦
            let rest = pages fetch n next (next ∷ seen) (found ++ page) in
            let all_asked : cursor ∷ rest.0 ≡ asked = ground arith in
            let result : rest.1 ≡ ok items = ground arith in
            subst (λ l. Returned fetch (suc n) cursor seen found l items) all_asked
              (sound_step fetch n cursor seen found d page next rest.0 items a b on
                ((next_cursor_iff seen d next).0 c)
                (pages_sound fetch n next (next ∷ seen) (found ++ page) rest.0 items
                  (ap (λ r. (rest.0, r)) result)))
      ]
    ]
  ]
]

-- `list_accounts` returns exactly if the upstream's pages, each naming the next cursor, come to an
-- end within four pages and no cursor is empty or comes twice. It then has asked for each page once,
-- in order, and returns the accounts of all pages, in order.
pub list_accounts_iff :
    (fetch : Text → Result ClientError Fields) (asked : List Text) (items : List Json)
    → (list_accounts fetch ≡ (asked, ok items))
      ↔ (Chain fetch asked items × (length asked ≤ 4) × StartsAt [] [] asked)
unfolding list_accounts Returned
list_accounts_iff fetch asked items = (
  λ h.
      let (rest, chain, e, n, start) = pages_sound fetch 4 [] [] [] asked items h in
      (rw e chain, n, start),
  λ (chain, n, start). pages_complete fetch 4 [] [] [] asked items (items, chain, refl, n, start),
)
