-- ===== src/Tests/Encodings.antt =====
-- A run of the encoding of accounts.
use orbitersdk_cpp.Prelude.{◌≡◌, ok, arith}
use orbitersdk_cpp.Core.Chain.{Account}
use orbitersdk_cpp.Core.State.Database.{serialize_account, load_account}
use orbitersdk_cpp.Core.State.Database.RoundTrip.{load_account-serialize_account}

abbrev account : Account
account = record { balance = 1_000_000_007; nonce = 300 }

load_account-serialize_account_example : load_account (serialize_account account) ≡ ok account
load_account-serialize_account_example =
    load_account-serialize_account account (omega arith) (omega arith)
