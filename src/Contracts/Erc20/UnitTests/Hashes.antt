-- ===== src/Contracts/Erc20/UnitTests/Hashes.antt =====
-- The hashes of topics in the unit tests of contracts/erc20/src/lib.rs have 32 bytes, and topics
-- that are recorded as those hashes pass the comparison.
use crain.Prelude.{
  ◌≤◌, ◌≡◌, refl, ap, ◌∙◌, inl, inr, true, Bool-cases, leb, min, List, [], ◌∷◌, ◌++◌, length,
  length-append, length-drop, length-take, drop-all, append_nil, take, drop, done, All, arith,
}
use crain.Contracts.Erc20.UnitTests.Topics.{
  Bytes, Encode, Engine, clear, copy_to_start, encoded_into_hash, same_bytes, check_topics,
}

same_bytes_refl : (xs : Bytes) → same_bytes xs xs ≡ true
same_bytes_refl [] = refl
same_bytes_refl (x ∷ xs) = let rest = same_bytes_refl xs in ground arith

length-copy_to_start :
    (result bytes : Bytes)
    → length bytes ≤ length result
    → length (copy_to_start result bytes) ≡ length result
unfolding copy_to_start
length-copy_to_start result bytes h =
    omega
      (arith, length-append bytes (drop (length bytes) result), length-drop (length bytes) result)

-- Every hash has 32 bytes, whatever is encoded, and whatever the hash function returns.
pub length-encoded_into_hash :
    {T : Type 0} (e : Engine) (c : Encode T) (entity : T)
    → length (encoded_into_hash e c entity) ≡ 32
unfolding encoded_into_hash
length-encoded_into_hash e c entity =
    let encoded = c.encode entity in
    let hash = e.blake2x256 encoded in
    elim (Bool-cases (leb (length encoded) 32)) [
      | inl t ↦ rw t (length-copy_to_start clear encoded (ground arith))
      | inr t ↦ rw t (
          length-copy_to_start clear (take (min (length hash) 32) hash)
            (omega (arith, length-take (min (length hash) 32) hash)))
    ]

-- Topics of 32 bytes that the expected ones begin with pass.
pub check_topics-append :
    (topics more : List Bytes)
    → All (λ t. length t ≡ 32) topics
    → check_topics topics (topics ++ more) ≡ done tt
unfolding check_topics copy_to_start
check_topics-append [] more h = refl
check_topics-append (t ∷ topics) more (h, hs) =
    let fits : leb (length t) 32 ≡ true = ground arith in
    let whole : t ++ drop (length t) clear ≡ t =
      ap (λ ys. t ++ ys) (drop-all (length t) clear (omega arith)) ∙ append_nil t in
    rw (fits, whole, same_bytes_refl t) (check_topics-append topics more hs)
