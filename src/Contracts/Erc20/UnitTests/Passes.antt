-- ===== src/Contracts/Erc20/UnitTests/Passes.antt =====
-- What decides the unit tests of contracts/erc20/src/lib.rs: the topics that the environment
-- records, of the transfers alone.
use crain.Prelude.{ℕ, ◌≡◌, refl, ◌∙◌, ◌==◌, Option, none, some, [], ◌∷◌, Outcome, done, ◌>>◌}
use crain.Prelude.Machine.{Build, checked, wrapping, add, sub, fit}
use crain.Ink.{AccountId, Mapping, mapping_laws, pair_eq}
use crain.Ink.Testing.{alice, bob, eve}
use crain.Contracts.Erc20.{
  transferred, new, total_supply, balance_of, allowance, set_balance, set_allowance,
  transfer_from_to, spend_allowance, call,
}
use crain.Contracts.Erc20.UnitTests.Topics.{
  Engine, prefixed, encoded_into_hash, expected_topics, check_topics, assert_transfer_event,
  check_transfer,
}
use crain.Contracts.Erc20.UnitTests.Hashes.{length-encoded_into_hash, check_topics-append}
use crain.Contracts.Erc20.UnitTests.{
  new_works, total_supply_works, balance_of_works, transfer_works, invalid_transfer_should_fail,
  transfer_from_works, allowance_must_not_change_on_failed_transfer,
}

module _ (bm : Mapping AccountId ℕ ◌==◌) (am : Mapping (AccountId × AccountId) ℕ pair_eq)
    (e : Engine) where
  -- The comparison of the topics that the environment records of a transfer.
  abbrev pub topics_of_transfer : Option AccountId → Option AccountId → ℕ → Outcome (Unit {0})
  topics_of_transfer from to value =
      check_topics (e.topics_of (transferred from to value)) (expected_topics e from to value)

  abbrev first_topics : Outcome (Unit {0})
  first_topics = topics_of_transfer none (some alice) 100

  new_works_lem : (b : Build) → new_works bm am b e ≡ first_topics
  unfolding new_works new assert_transfer_event check_transfer
  new_works_lem b = simp e.decode-data_of

  total_supply_works_lem : (b : Build) → total_supply_works bm am b e ≡ (first_topics >> done tt)
  unfolding total_supply_works new total_supply assert_transfer_event check_transfer
  total_supply_works_lem b = simp e.decode-data_of

  balance_of_works_lem : (b : Build) → balance_of_works bm am b e ≡ (first_topics >> done tt)
  unfolding balance_of_works new balance_of assert_transfer_event check_transfer
  balance_of_works_lem b = simp (mapping_laws, e.decode-data_of)

  transfer_works_lem :
      (b : Build)
      → transfer_works bm am b e ≡ (first_topics >> topics_of_transfer (some alice) (some bob) 10)
  unfolding transfer_works call new balance_of set_balance transfer_from_to assert_transfer_event
      check_transfer add sub fit
  transfer_works_lem checked = simp (mapping_laws, e.decode-data_of)
  transfer_works_lem wrapping = simp (mapping_laws, e.decode-data_of)

  invalid_transfer_should_fail_lem :
      (b : Build) → invalid_transfer_should_fail bm am b e ≡ first_topics
  unfolding invalid_transfer_should_fail call new balance_of transfer_from_to assert_transfer_event
      check_transfer
  invalid_transfer_should_fail_lem b = simp (mapping_laws, e.decode-data_of)

  transfer_from_works_lem :
      (b : Build)
      → transfer_from_works bm am b e
        ≡ (first_topics >> topics_of_transfer (some alice) (some eve) 10)
  unfolding transfer_from_works call new balance_of allowance set_balance set_allowance
      transfer_from_to spend_allowance assert_transfer_event check_transfer add sub fit
  transfer_from_works_lem checked = simp (mapping_laws, e.decode-data_of)
  transfer_from_works_lem wrapping = simp (mapping_laws, e.decode-data_of)

  failed_transfer_passes :
      (b : Build) → allowance_must_not_change_on_failed_transfer bm am b e ≡ done tt
  unfolding allowance_must_not_change_on_failed_transfer call new balance_of allowance set_allowance
      transfer_from_to spend_allowance add fit
  failed_transfer_passes checked = simp mapping_laws
  failed_transfer_passes wrapping = simp mapping_laws

  -- An environment that records, of a transfer, the hashes of its signature and of its two topic
  -- fields: the value is no topic, so the fourth that the tests expect is never compared.
  abbrev pub HashesTopics : Type 0
  HashesTopics =
      (from to : Option AccountId) (value : ℕ)
      → e.topics_of (transferred from to value) ≡ (
          encoded_into_hash e (prefixed e.slice e.array)
            (record { prefix = ""; value = "Erc20::Transfer" })
          ∷ encoded_into_hash e (prefixed e.slice e.account)
              (record { prefix = "Erc20::Transfer::from"; value = from })
          ∷ encoded_into_hash e (prefixed e.slice e.account)
              (record { prefix = "Erc20::Transfer::to"; value = to })
          ∷ [])

  topics_pass :
      HashesTopics
      → (from to : Option AccountId) (value : ℕ) → topics_of_transfer from to value ≡ done tt
  unfolding expected_topics
  topics_pass h from to value = rw (h from to value) (
      check_topics-append _ _ (
        length-encoded_into_hash e _ _,
        (length-encoded_into_hash e _ _, (length-encoded_into_hash e _ _, tt)),
      ))

  -- In such an environment every test passes, for each mapping, build, codec and hash function.
  tests_pass :
      HashesTopics
      → (b : Build)
      → (new_works bm am b e ≡ done tt)
        × (total_supply_works bm am b e ≡ done tt)
        × (balance_of_works bm am b e ≡ done tt)
        × (transfer_works bm am b e ≡ done tt)
        × (invalid_transfer_should_fail bm am b e ≡ done tt)
        × (transfer_from_works bm am b e ≡ done tt)
        × (allowance_must_not_change_on_failed_transfer bm am b e ≡ done tt)
  tests_pass h b =
      let first = topics_pass h none (some alice) 100 in
      (
        new_works_lem b ∙ first,
        total_supply_works_lem b ∙ rw first refl,
        balance_of_works_lem b ∙ rw first refl,
        transfer_works_lem b ∙ rw (first, topics_pass h (some alice) (some bob) 10) refl,
        invalid_transfer_should_fail_lem b ∙ first,
        transfer_from_works_lem b ∙ rw (first, topics_pass h (some alice) (some eve) 10) refl,
        failed_transfer_passes b,
      )
