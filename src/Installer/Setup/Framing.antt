-- ===== src/Installer/Setup/Framing.antt =====
-- Building and parsing a setup partition are inverse, installer/firmware_installer.py.
use coinbase_amoled_terminal.Prelude.{
  ℕ, ◌+◌, ◌-◌, ◌/◌, ◌%◌, ◌≤◌, ◌<◌, ◌≡◌, ◌↔◌, refl, sym, ap, subst, ◌∙◌, false, not, ◌&&◌, Option,
  none, some, [], ◌∷◌, ◌++◌, ◌==◌, ltb, leb, length, take, drop, replicate, ok, raise_if,
  raise_if-ok, arith, list_eq, nat_eq, ℕ_discrete, length-append, length-replicate, take-append,
  drop-append, >>=-eq-ok, Bool-cases, Result-cases, inl, inr, ok-injective,
}
use coinbase_amoled_terminal.Prelude.Text.{Text}
use coinbase_amoled_terminal.Prelude.Int.{int_eq}
use coinbase_amoled_terminal.Prelude.Slices.{strip_prefix}
use coinbase_amoled_terminal.Prelude.Json.{
  Json, Fields, null, boolean, integer, real, text, array, object, field_names, has_exactly, get,
}
use coinbase_amoled_terminal.Installer.Setup.{
  tagged, unsafe_material, invalid_payload, semantic_failed, onboarding_size, onboarding_magic,
  SetupMetadata, Url, pack, unpack, payload_fields, payload_names, has_marker, frame,
  check_metadata, build, check_body, split_header, unframe, metadata_of, has_version, rebuild,
  parse,
}

append_assoc : (a b c : Text) → (a ++ b) ++ c ≡ a ++ (b ++ c)
append_assoc [] b c = refl
append_assoc (x ∷ a) b c = ap (λ l. x ∷ l) (append_assoc a b c)

take_exact : (n : ℕ) (a b : Text) → length a ≡ n → take n (a ++ b) ≡ a
take_exact n a b h = subst (λ k. take k (a ++ b) ≡ a) h (take-append a b)

drop_exact : (n : ℕ) (a b : Text) → length a ≡ n → drop n (a ++ b) ≡ b
drop_exact n a b h = subst (λ k. drop k (a ++ b) ≡ b) h (drop-append a b)

unpack-pack :
    (n : ℕ)
    → n < 0x100000000
    → unpack (n % 256) (n / 0x100 % 256) (n / 0x10000 % 256) (n / 0x1000000 % 256) ≡ n
unfolding unpack
unpack-pack n h = omega (arith, h)

too_long : (n m : ℕ) → ltb n m ≡ false → m ≤ n
too_long n m h = ground arith

in_range :
    (n : ℕ)
    → 1 ≤ n
    → n ≤ onboarding_size - 48
    → not (leb 1 n && leb n (onboarding_size - 48)) ≡ false
in_range n h k = ground arith

refused_not : (a b : Text) → a ≡ b → not (a == b) ≡ false
refused_not a b h = ground arith

equal_of : (a b : Text) → not (a == b) ≡ false → a ≡ b
equal_of a b h = ground arith

module _ (sha256 : Text → Text) (urlsplit : Json → Option Url) (dumps : Json → Text)
    (loads : Text → Option Json) where
  -- The bytes behind the two numbers of the header.
  check_body_found :
      (payload fill : Text)
      → length (sha256 payload) ≡ 32
      → 1 ≤ length payload
      → length payload ≤ onboarding_size - 48
      → fill ≡ replicate (onboarding_size - 48 - length payload) 0xFF
      → check_body sha256 urlsplit dumps loads 1
          (length payload)
          ((sha256 payload ++ payload) ++ fill)
        ≡ ok payload
  unfolding check_body
  check_body_found payload fill size some_byte few filled =
      let body = (sha256 payload ++ payload) ++ fill in
      let whole = append_assoc (sha256 payload) payload fill in
      let head = ap (take 32) whole ∙ take_exact 32 (sha256 payload) (payload ++ fill) size in
      let rest = ap (drop 32) whole ∙ drop_exact 32 (sha256 payload) (payload ++ fill) size in
      let found = ap (take (length payload)) rest ∙ take-append payload fill in
      let tail = ap (drop (length payload)) rest ∙ drop-append payload fill in
      rw
        (
          in_range (length payload) some_byte few,
          refused_not (sha256 (take (length payload) (drop 32 body))) (take 32 body)
              (ap sha256 found ∙ sym head),
          refused_not (drop (length payload) (drop 32 body))
              (replicate (onboarding_size - 48 - length payload) 0xFF) (tail ∙ filled),
          check_body,
        )
        (ap ok found)

  abbrev headed : Text → Text
  headed payload =
      onboarding_magic ++ (pack 1 ++ (pack (length payload) ++ (sha256 payload ++ payload)))

  length-headed :
      (payload : Text)
      → length (sha256 payload) ≡ 32
      → length (headed payload) ≡ 48 + length payload
  unfolding pack
  length-headed payload size = omega (arith, size, length-append (sha256 payload) payload)

  unframe_of :
      (image rest payload : Text)
      → length image ≡ onboarding_size
      → strip_prefix onboarding_magic image ≡ some rest
      → split_header sha256 urlsplit dumps loads rest ≡ ok payload
      → unframe sha256 urlsplit dumps loads image ≡ ok payload
  unfolding unframe
  unframe_of image rest payload size found inner = rw (size, found) inner

  header_of :
      (payload fill : Text)
      → length payload < 0x100000000
      → check_body sha256 urlsplit dumps loads 1
          (length payload)
          ((sha256 payload ++ payload) ++ fill)
        ≡ ok payload
      → split_header sha256 urlsplit dumps loads
          ((pack 1 ++ (pack (length payload) ++ (sha256 payload ++ payload))) ++ fill)
        ≡ ok payload
  unfolding split_header pack unpack
  header_of payload fill short inner =
      subst
        (λ k.
          check_body sha256 urlsplit dumps loads 1 k ((sha256 payload ++ payload) ++ fill)
          ≡ ok payload)
        (sym (unpack-pack (length payload) short)) inner

  unframe-headed :
      (payload : Text)
      → length (sha256 payload) ≡ 32
      → 1 ≤ length payload
      → length (headed payload) ≤ onboarding_size
      → unframe sha256 urlsplit dumps loads
          (headed payload ++ replicate (onboarding_size - length (headed payload)) 0xFF)
        ≡ ok payload
  unfolding strip_prefix
  unframe-headed payload size some_byte fits =
      let fill = replicate (onboarding_size - length (headed payload)) 0xFF in
      let long = length-headed payload size in
      let filled : fill ≡ replicate (onboarding_size - 48 - length payload) 0xFF =
        ap (λ (k : ℕ). replicate k 0xFF) (omega (arith, long)) in
      unframe_of (headed payload ++ fill)
        ((pack 1 ++ (pack (length payload) ++ (sha256 payload ++ payload))) ++ fill) payload
        (length-append (headed payload) fill
          ∙ omega (
            arith,
            length-replicate {A = ℕ} (onboarding_size - length (headed payload)) 0xFF,
            fits,
          ))
        refl
        (header_of payload fill (omega (arith, long, fits))
          (check_body_found payload fill size some_byte (omega (arith, long, fits)) filled))

  unframe-frame :
      (payload image : Text)
      → length (sha256 payload) ≡ 32
      → 1 ≤ length payload
      → frame sha256 urlsplit dumps loads payload ≡ ok image
      → unframe sha256 urlsplit dumps loads image ≡ ok payload
  unfolding frame unframe split_header strip_prefix
  unframe-frame payload image size some_byte h =
      elim (Bool-cases (ltb onboarding_size (length (headed payload)))) [
        | inl e ↦ let bad = rw (e, frame) at h in cc
        | inr e ↦
            let fits = too_long _ _ e in
            subst (λ i. unframe sha256 urlsplit dumps loads i ≡ ok payload)
              (ok-injective _ image (rw (e, frame) at h))
              (unframe-headed payload size some_byte fits)
      ]

  payload_accepted :
      (m : SetupMetadata)
      → not (
          has_exactly (field_names (payload_fields m)) payload_names
          && has_version sha256 urlsplit dumps loads (payload_fields m))
        ≡ false
  unfolding get list_eq nat_eq ℕ_discrete has_exactly int_eq
  payload_accepted m = refl

  metadata_of_payload :
      (m : SetupMetadata) → metadata_of sha256 urlsplit dumps loads (payload_fields m) ≡ ok m
  unfolding metadata_of get list_eq nat_eq ℕ_discrete
  metadata_of_payload m = refl

  -- The fields of a payload are those of its metadata.
  rebuild_of :
      (m : SetupMetadata) (image : Text)
      → build sha256 urlsplit dumps loads m ≡ ok image
      → rebuild sha256 urlsplit dumps loads (some (object (payload_fields m)))
        ≡ ok (payload_fields m, image)
  unfolding rebuild
  rebuild_of m image h =
      rw (payload_accepted m, metadata_of_payload m) (ap (tagged (payload_fields m)) h)

  build-payload :
      (m : SetupMetadata) (image : Text)
      → build sha256 urlsplit dumps loads m ≡ ok image
      → frame sha256 urlsplit dumps loads (dumps (object (payload_fields m))) ≡ ok image
  unfolding build
  build-payload m image h =
      let (_, _, h₁) = >>=-eq-ok (check_metadata sha256 urlsplit dumps loads m) _ h in
      let (_, _, h₂) =
        >>=-eq-ok (raise_if (has_marker (dumps (object (payload_fields m)))) unsafe_material) _
          h₁ in
      h₂

  rebuild-found :
      (o : Option Json) (d : Fields) (image : Text)
      → rebuild sha256 urlsplit dumps loads o ≡ ok (d, image)
      → (m : SetupMetadata) × (metadata_of sha256 urlsplit dumps loads d ≡ ok m)
        × (build sha256 urlsplit dumps loads m ≡ ok image)
  unfolding rebuild
  rebuild-found none d image h = cc
  rebuild-found (some null) d image h = cc
  rebuild-found (some (boolean _)) d image h = cc
  rebuild-found (some (integer _)) d image h = cc
  rebuild-found (some (real _)) d image h = cc
  rebuild-found (some (text _)) d image h = cc
  rebuild-found (some (array _)) d image h = cc
  rebuild-found (some (object e)) d image h =
      let bad =
        not (
          has_exactly (field_names e) payload_names && has_version sha256 urlsplit dumps loads e) in
      let (_, _, h₁) = >>=-eq-ok (raise_if bad invalid_payload) _ h in
      let (m, found, h₂) = >>=-eq-ok (metadata_of sha256 urlsplit dumps loads e) _ h₁ in
      elim (Result-cases (build sha256 urlsplit dumps loads m)) [
        | inl (made, b) ↦
            let same = ok-injective (e, made) (d, image) (rw b at h₂) in
            (
              m,
              ap (metadata_of sha256 urlsplit dumps loads)
                    (sym (ap (λ (p : Fields × Text). p.0) same))
                  ∙ found,
              b ∙ ap ok (ap (λ (p : Fields × Text). p.1) same),
            )
        | inr (_, b) ↦ let wrong = rw b at h₂ in cc
      ]

  parse_of_build :
      (m : SetupMetadata) (image : Text)
      → length (sha256 (dumps (object (payload_fields m)))) ≡ 32
      → 1 ≤ length (dumps (object (payload_fields m)))
      → loads (dumps (object (payload_fields m))) ≡ some (object (payload_fields m))
      → build sha256 urlsplit dumps loads m ≡ ok image
      → parse sha256 urlsplit dumps loads image ≡ ok (payload_fields m)
  unfolding parse
  parse_of_build m image size some_byte reads h =
      let payload = dumps (object (payload_fields m)) in
      let framed = unframe-frame payload image size some_byte (build-payload m image h) in
      rw (framed, reads, rebuild_of m image h, refused_not image image refl) refl

  build_of_parse :
      (d : Fields) (image : Text)
      → parse sha256 urlsplit dumps loads image ≡ ok d
      → (m : SetupMetadata) × (metadata_of sha256 urlsplit dumps loads d ≡ ok m)
        × (build sha256 urlsplit dumps loads m ≡ ok image)
  unfolding parse
  build_of_parse d image h =
      let (payload, _, h₁) = >>=-eq-ok (unframe sha256 urlsplit dumps loads image) _ h in
      let ((e, made), built, h₂) =
        >>=-eq-ok (rebuild sha256 urlsplit dumps loads (loads payload)) _ h₁ in
      let (_, same, h₃) = >>=-eq-ok (raise_if (not (made == image)) semantic_failed) _ h₂ in
      let (m, fields, b) = rebuild-found (loads payload) e made built in
      let exact =
        equal_of made image ((raise_if-ok (not (made == image)) semantic_failed).0 same) in
      (
        m,
        ap (metadata_of sha256 urlsplit dumps loads) (sym (ok-injective e d h₃)) ∙ fields,
        b ∙ ap ok exact,
      )

  -- An image is built from some metadata exactly if it parses to the fields of this metadata, where
  -- the digest of the payload has 32 bytes and its document is not empty and is read back.
  pub parse-build_iff :
      (m : SetupMetadata) (image : Text)
      → length (sha256 (dumps (object (payload_fields m)))) ≡ 32
      → 1 ≤ length (dumps (object (payload_fields m)))
      → loads (dumps (object (payload_fields m))) ≡ some (object (payload_fields m))
      → (build sha256 urlsplit dumps loads m ≡ ok image)
        ↔ (parse sha256 urlsplit dumps loads image ≡ ok (payload_fields m))
  parse-build_iff m image size some_byte reads = (
    parse_of_build m image size some_byte reads,
    λ h.
        let (found, fields, made) = build_of_parse (payload_fields m) image h in
        let same = ok-injective m found (sym (metadata_of_payload m) ∙ fields) in
        ap (build sha256 urlsplit dumps loads) same ∙ made,
  )
