-- ===== src/Node/Service/Author.antt =====
-- What `decode_author` of node/src/service.rs accepts, and the key that it generates.
use crain.Prelude.{
  ◌≡◌, refl, ap, ◌⊎◌, inl, inr, Bool-cases, true, false, [], ◌∷◌, Option, none, some, ok, arith,
}
use Prim.Native.String
use Prim.Native.String.{String, slice, len}
use text.Mathlib.Text.{starts_with}
use text.Mathlib.TextPositions.{starts_with-append, slice-append_right, len-append}
use crain.Node.Objects.{Objects}
use crain.Node.Steps.{info, insert_key}
use crain.Node.Service.{
  Keys, Host, id, ok_or, where_to_look, decode_given, generate_author, decode_author,
}

Option-cases : {A : Type 0} (o : Option A) → (o ≡ none) ⊎ ((a : A) × (o ≡ some a))
Option-cases none = inl refl
Option-cases (some a) = inr (a, refl)

module _ (k : Keys) where
  open k use {
    Public, Version, same, bare_sr25519_account, from_hex, from_ss58check_with_version,
    to_ss58check_with_version,
  }

  -- An author that begins with 0x is read as the key of the hexadecimal digits after it, and
  -- refused if they are none.
  pub decode_given_hex :
      (digits : String)
      → decode_given k (String.◌++◌ "0x" digits) ≡ ok_or (from_hex digits) "Invalid author account"
  unfolding decode_given
  decode_given_hex digits =
      rw (starts_with-append "0x" digits, len-append "0x" digits)
        (ap (λ d. ok_or (from_hex d) "Invalid author account") (slice-append_right "0x" digits))

  decode_given_address :
      (p : Public) → decode_given k (to_ss58check_with_version p bare_sr25519_account) ≡ ok p
  unfolding decode_given
  decode_given_address p = rw (
    k.no_zero p bare_sr25519_account,
    k.read_back p bare_sr25519_account,
    k.same_refl bare_sr25519_account,
  )

  -- A key that is accepted is that of its hexadecimal digits, or of an address of the right version.
  pub decode_given_sound :
      (author : String) (p : Public)
      → decode_given k author ≡ ok p
      → (starts_with author "0x" ≡ true) × (from_hex (slice author 2 (len author)) ≡ some p)
        ⊎ (starts_with author "0x" ≡ false)
          × ((v : Version) × (from_ss58check_with_version author ≡ some (p, v))
              × (same v bare_sr25519_account ≡ true))
  unfolding decode_given
  decode_given_sound author p h = elim (Bool-cases (starts_with author "0x")) [
    | inl hex ↦ elim (Option-cases (from_hex (slice author 2 (len author)))) [
      | inl e ↦ absurd (ground arith)
      | inr (q, e) ↦ inl (hex, ground arith)
    ]
    | inr address ↦ elim (Option-cases (from_ss58check_with_version author)) [
      | inl e ↦ absurd (ground arith)
      | inr ((q, v), e) ↦ elim (Bool-cases (same v bare_sr25519_account)) [
        | inl right ↦ inr (address, (v, ground arith, right))
        | inr wrong ↦ absurd (ground arith)
      ]
    ]
  ]

  -- Without an author, and if the keystore takes the key, the key that was generated is registered
  -- under the kind of the mining keys and returned, and the address that is logged is one that a
  -- later start accepts as its author for the same key, with no further effect.
  pub generated_author_returns :
      {o : Objects} {E : Type 0} (h later : Host o Public E) (path later_path : Option String)
      → h.inserted ≡ ok tt
      → (address : String) × (decode_author k none h path ≡ (
        info "The node is configured for mining, but no author key is provided."
            ∷ insert_key id h.phrase h.pair_public
            ∷ info (String.◌++◌ "Generated a mining key with address: " address)
            ∷ where_to_look k path
            ∷ [],
        ok h.pair_public,
      ))
        × (decode_author k (some address) later later_path ≡ ([], ok h.pair_public))
  unfolding decode_author generate_author
  generated_author_returns h later path later_path e = (
    to_ss58check_with_version h.pair_public bare_sr25519_account,
    rw e,
    ap (λ r. ([], r)) (decode_given_address h.pair_public),
  )
