-- ===== src/Prover/Tests.antt =====
-- A batch of one deposit, and a deposit and a withdrawal that the guest accepts.
use zk_perp.Prelude.{◌≡◌, refl, true, false, some, [], ◌∷◌, ◌++◌, arith, take}
use zk_perp.Prelude.Result.{ok, err}
use zk_perp.Types.Account.{Account}
use zk_perp.Types.Transaction.{deposit, DepositTx, WithdrawTx}
use zk_perp.Merkle.External.{Bytes, External, zeros, hash_pair}
use zk_perp.Merkle.Tree
use zk_perp.Merkle.Tree.{MerkleProof}
use zk_perp.Prover.Batch.{BatchInput, BatchOutput, no_witness}
use zk_perp.Prover.Host.{Zkvm, Prover, ProofReceipt, prove_mock}
use zk_perp.Prover.Host
use zk_perp.Prover.Guest
use zk_perp.Prover.Guest.{get_balance, verify_deposit, verify_withdraw, compute_new_root_from_proof}
use zk_perp.Prover.Journal.{with_post_root, main-with_post_root, main-prove_mock}
use zk_perp.Prover.Agreement.{
  with_accounts, Executes, verify_deposit-process_deposit, verify_withdraw-process_withdraw,
}
use zk_perp.State.Funds.{process_deposit, process_withdraw}
use zk_perp.State.Tests.{account, state}

abbrev stand_in : External
stand_in = record {
  sha256 = λ b. take 32 (b ++ zeros 32);
  serialize_account = λ a. some [];
  serialize_order = λ o. some [];
  serialize_position = λ p. some [];
  serialize_transaction = λ t. ok (1 ∷ 2 ∷ []);
}

abbrev mock_vm : Zkvm
mock_vm = record {
  mock_feature = true;
  risc0_feature = false;
  write_input = λ i. ok [];
  build_env = λ b. ok b;
  run_guest = λ b. err "no prover";
  journal_bytes = λ b. b;
  decode_journal = λ b. err "no journal";
  serialize_receipt = λ b. ok b;
  deserialize_receipt = λ b. ok b;
  verify_image = λ b. err "no image";
  serialize_output = λ o. ok (o.tx_count ∷ o.batch_hash);
}

abbrev deposit_tx : DepositTx
deposit_tx = record { account_id = 1; asset_id = 0; amount = 50; nonce = 4 }

abbrev withdraw_tx : WithdrawTx
withdraw_tx = record { account_id = 1; asset_id = 0; amount = 30; nonce = 4 }

abbrev input : BatchInput
unfolding no_witness
input = record {
  pre_state_root = zeros 32;
  post_state_root = 7 ∷ [];
  transactions = deposit deposit_tx ∷ [];
  witnesses = no_witness ∷ [];
}

abbrev output : BatchOutput
output = record {
  pre_state_root = zeros 32;
  post_state_root = 7 ∷ [];
  batch_hash = zeros 32;
  tx_count = 1;
}

abbrev receipt : ProofReceipt
receipt = record { journal = 1 ∷ zeros 32; seal = []; output = output }

guest_ran : Guest.main stand_in input ≡ ok output
unfolding Guest.main input hash_pair
guest_ran = refl

mock_ran : prove_mock stand_in mock_vm Host.mock input ≡ ok receipt
unfolding prove_mock input hash_pair Host.mock
mock_ran = refl

main-with_post_root_example :
    Guest.main stand_in (record input { post_state_root = 9 ∷ [] })
    ≡ with_post_root (9 ∷ []) (Guest.main stand_in input)
main-with_post_root_example = main-with_post_root stand_in input (9 ∷ [])

main-prove_mock_example : Guest.main stand_in input ≡ ok output
unfolding no_witness input
main-prove_mock_example =
    main-prove_mock stand_in mock_vm Host.mock input receipt (refl, tt) mock_ran

-- A proof with two levels, and the accounts after the two transactions.
abbrev proof : MerkleProof
proof = record {
  key = 1 ∷ zeros 31;
  value = 9 ∷ zeros 31;
  siblings = (5 ∷ zeros 31) ∷ (6 ∷ zeros 31) ∷ [];
  path = true ∷ false ∷ [];
}

abbrev root : Bytes
root = 5 ∷ zeros 31

abbrev after_deposit : Account
after_deposit = record (account 1 550) { nonce = 4 }

abbrev after_withdraw : Account
after_withdraw = record (account 1 470) { nonce = 4 }

deposit_accepted :
    verify_deposit stand_in root deposit_tx
      (with_accounts no_witness (account 1 500) proof after_deposit proof)
    ≡ ok (compute_new_root_from_proof stand_in proof after_deposit)
unfolding verify_deposit no_witness hash_pair Tree.verify
deposit_accepted = refl

withdraw_accepted :
    verify_withdraw stand_in root withdraw_tx
      (with_accounts no_witness (account 1 500) proof after_withdraw proof)
    ≡ ok (compute_new_root_from_proof stand_in proof after_withdraw)
unfolding verify_withdraw no_witness hash_pair Tree.verify
withdraw_accepted = refl

verify_deposit-process_deposit_example :
    (Tree.verify stand_in proof root ≡ true)
    × ((account 1 500).id ≡ 1)
    × Executes (process_deposit stand_in deposit_tx state) 1 0 (get_balance after_deposit 0) 4
verify_deposit-process_deposit_example =
    verify_deposit-process_deposit stand_in root no_witness (account 1 500) after_deposit proof
      proof state (compute_new_root_from_proof stand_in proof after_deposit) deposit_tx refl
      deposit_accepted

verify_withdraw-process_withdraw_example :
    (Tree.verify stand_in proof root ≡ true)
    × Executes (process_withdraw stand_in withdraw_tx state) 1 0 (get_balance after_withdraw 0) 4
verify_withdraw-process_withdraw_example =
    verify_withdraw-process_withdraw stand_in root no_witness (account 1 500) after_withdraw proof
      proof state (compute_new_root_from_proof stand_in proof after_withdraw) withdraw_tx
      (omega arith) refl withdraw_accepted
