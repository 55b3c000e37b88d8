-- ===== src/Tests/Data.antt =====
-- A small chain: two accounts, a genesis block, and the transactions of the next block.
use orbitersdk_cpp.Prelude.{
  ◌-◌, ℕ, ◌+◌, ◌%◌, true, false, List, [], ◌∷◌, ◌++◌, map, replicate, err, runtime_error, Assoc,
  ◌==◌,
}
use orbitersdk_cpp.Core.Chain.{Account, TxBlock, TxValidator, Block}
use orbitersdk_cpp.Core.State.{State, Contracts}
use orbitersdk_cpp.Core.Rdpos.{Rdpos, random_hash_functor, random_seed_functor}

abbrev pub payment : TxBlock
payment = record {
  hash = 7;
  from = 1;
  to = 2;
  value = 5;
  nonce = 0;
  gas_limit = 1;
  max_fee_per_gas = 1;
  functor = [];
}

-- More than account 1 has.
abbrev pub overdraft : TxBlock
overdraft = record payment { hash = 8; value = 50 }

-- A call of the contract at 9.
abbrev pub call : TxBlock
call = record payment { hash = 6; to = 9 }

abbrev pub accounts : Assoc Account
accounts = (1, record { balance = 10; nonce = 0 }) ∷ (2, record { balance = 1; nonce = 0 }) ∷ []

-- One contract, at 9, whose calls throw.
abbrev pub contracts : Contracts (Unit {0})
contracts = record {
  contract_manager_address = 100;
  rdpos_address = 101;
  exists = λ c a. a == 9;
  is_payable_function = λ c tx. true;
  eth_call = λ tx m c. (err runtime_error, c);
  after_underflow = λ balance amount. amount - balance;
}

abbrev pub genesis : Block
genesis = record {
  hash = 50;
  prev_block_hash = 0;
  n_height = 0;
  timestamp = 1000;
  finalized = true;
  signer = 10;
  block_randomness = 0;
  txs = [];
  tx_validators = [];
}

-- Adds 1 to every byte.
abbrev pub sha3 : List ℕ → List ℕ
sha3 bytes = map (λ b. (b + 1) % 256) bytes

abbrev pub next_seed : ℕ → ℕ
next_seed n = n + 3

abbrev pub commitment : ℕ → ℕ → TxValidator
commitment from k = record {
  hash = 100 + k;
  from = from;
  n_height = 1;
  bytes = random_hash_functor ++ replicate 32 (k + 1);
}

abbrev pub seed_of : ℕ → ℕ → TxValidator
seed_of from k = record {
  hash = 200 + k;
  from = from;
  n_height = 1;
  bytes = random_seed_functor ++ replicate 32 k;
}

abbrev pub rdpos : Rdpos
rdpos = record {
  validators = 10 ∷ 11 ∷ 12 ∷ 13 ∷ 14 ∷ [];
  random_list = 10 ∷ 11 ∷ 12 ∷ 13 ∷ 14 ∷ [];
  validator_mempool = [];
  best_random_seed = 0;
  seed = 0;
}

abbrev pub next_block : Block
next_block = record {
  hash = 51;
  prev_block_hash = 50;
  n_height = 1;
  timestamp = 2000;
  finalized = true;
  signer = 10;
  block_randomness = 77;
  txs = payment ∷ [];
  tx_validators =
      commitment 11 1
      ∷ commitment 12 2
      ∷ commitment 13 3
      ∷ commitment 14 4
      ∷ seed_of 11 1
      ∷ seed_of 12 2
      ∷ seed_of 13 3
      ∷ seed_of 14 4
      ∷ [];
}

abbrev pub state : State (Unit {0}) Rdpos
state = record {
  accounts = accounts;
  mempool = (7, payment) ∷ [];
  processing_payable = false;
  contracts = tt;
  rdpos = rdpos;
  latest = genesis;
  blocks = [];
}
