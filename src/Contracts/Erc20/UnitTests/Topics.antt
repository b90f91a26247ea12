-- ===== src/Contracts/Erc20/UnitTests/Topics.antt =====
-- The helpers of the unit tests of contracts/erc20/src/lib.rs: the hashes of topics, and
-- `assert_transfer_event`. What they take from the SCALE codec, the hash function and the
-- environment of ink's tests is `Engine`.
use crain.Prelude.{
  ℕ, ◌+◌, ◌≡◌, min, Bool, true, false, ◌&&◌, ◌==◌, leb, if◌then◌else◌, List, [], ◌∷◌, ◌++◌, length,
  take, drop, replicate, Option, none, some, Outcome, done, panic, ◌>>◌,
}
use Prim.Native.String.{String}
use crain.Ink.{AccountId}
use crain.Ink.Testing.{assert_true}
use crain.Contracts.Erc20.{Event, transferred, approval}

abbrev pub Bytes : Type 0
Bytes = List ℕ

-- `scale::Encode` for a type.
pub record Encode (T : Type 0) : Type 0 where
  pub encode : T → Bytes
  pub size_hint : T → ℕ

-- A byte string is its text: as a slice or as an array, which are encoded differently. An event
-- that was emitted is recorded with its data, from which it is decoded, and its topics.
pub record Engine : Type 1 where
  pub Data : Type 0
  pub data_of : Event → Data
  pub decode : Data → Option Event
  pub decode-data_of : (e : Event) → decode (data_of e) ≡ some e
  pub topics_of : Event → List Bytes
  pub slice : Encode String
  pub array : Encode String
  pub account : Encode (Option AccountId)
  pub balance : Encode ℕ
  pub blake2x256 : Bytes → Bytes

-- For calculating the event topic hash.
pub record PrefixedValue (T : Type 0) : Type 0 where
  pub prefix : String
  pub value : T

unfoldable pub prefixed : {T : Type 0} → Encode String → Encode T → Encode (PrefixedValue T)
prefixed slice inner = record {
  encode = λ p. slice.encode p.prefix ++ inner.encode p.value;
  size_hint = λ p. slice.size_hint p.prefix + inner.size_hint p.value;
}

-- `Hash::clear()`
abbrev pub clear : Bytes
clear = replicate 32 0

-- `result[..bytes.len()].copy_from_slice(&bytes)`, where the bytes fit.
unfoldable pub copy_to_start : Bytes → Bytes → Bytes
copy_to_start result bytes = bytes ++ drop (length bytes) result

unfoldable pub encoded_into_hash : {T : Type 0} → Engine → Encode T → T → Bytes
encoded_into_hash e c entity =
    let encoded = c.encode entity in
    if leb (length encoded) (length clear)
    then copy_to_start clear encoded
    else (let hash_output = e.blake2x256 encoded in
        let copy_len = min (length hash_output) (length clear) in
        copy_to_start clear (take copy_len hash_output))

abbrev pub same_bytes : Bytes → Bytes → Bool
same_bytes [] [] = true
same_bytes (a ∷ as') (b ∷ bs) = a == b && same_bytes as' bs
same_bytes _ _ = false

abbrev pub same_account : Option AccountId → Option AccountId → Bool
same_account none none = true
same_account (some a) (some b) = a == b
same_account _ _ = false

pub record EmittedEvent (Data : Type 0) : Type 0 where
  pub encoded_data : Data
  pub topics : List Bytes

-- What is recorded of an event.
abbrev pub emitted : (e : Engine) → Event → EmittedEvent e.Data
emitted e event = record { encoded_data = e.data_of event; topics = e.topics_of event }

unfoldable pub expected_topics : Engine → Option AccountId → Option AccountId → ℕ → List Bytes
expected_topics e expected_from expected_to expected_value =
    encoded_into_hash e (prefixed e.slice e.array)
      (record { prefix = ""; value = "Erc20::Transfer" })
    ∷ encoded_into_hash e (prefixed e.slice e.account)
        (record { prefix = "Erc20::Transfer::from"; value = expected_from })
    ∷ encoded_into_hash e (prefixed e.slice e.account)
        (record { prefix = "Erc20::Transfer::to"; value = expected_to })
    ∷ encoded_into_hash e (prefixed e.slice e.balance)
        (record { prefix = "Erc20::Transfer::value"; value = expected_value })
    ∷ []

-- The loop over the topics, which ends with the shorter list; a topic of more than 32 bytes does
-- not fit the hash, and panics.
unfoldable pub check_topics : List Bytes → List Bytes → Outcome (Unit {0})
check_topics (actual ∷ actuals) (expected ∷ expecteds) =
    if leb (length actual) (length clear)
    then (assert_true (same_bytes (copy_to_start clear actual) expected)
        >> check_topics actuals expecteds)
    else panic
check_topics _ _ = done tt

-- The assertions on a decoded event.
unfoldable pub check_transfer :
    Option Event → Option AccountId → Option AccountId → ℕ → Outcome (Unit {0})
check_transfer (some (transferred from to value)) expected_from expected_to expected_value = do
  assert_true (same_account from expected_from)
  assert_true (same_account to expected_to)
  assert_true (value == expected_value)
check_transfer (some (approval _ _ _)) _ _ _ = panic
check_transfer none _ _ _ = panic

unfoldable pub assert_transfer_event :
    (e : Engine)
    → EmittedEvent e.Data
    → Option AccountId
    → Option AccountId
    → ℕ
    → Outcome (Unit {0})
assert_transfer_event e event expected_from expected_to expected_value = do
  check_transfer (e.decode event.encoded_data) expected_from expected_to expected_value
  check_topics event.topics (expected_topics e expected_from expected_to expected_value)
