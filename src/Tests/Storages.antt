-- ===== src/Tests/Storages.antt =====
-- A storage with a block in its chain, and one in its database.
use orbitersdk_cpp.Prelude.{
  ◌≡◌, refl, false, [], ◌∷◌, ok, err, runtime_error, ◌==◌, if◌then◌else◌, arith,
}
use orbitersdk_cpp.Core.Chain.{Block}
use orbitersdk_cpp.Core.Storage.{Storage, Db, add_block, push_back, back, get_block}
use orbitersdk_cpp.Core.Storage.Blocks.{
  IsConsistent, pushed_back, Reachable, empty, stepped, Reachable-IsConsistent,
}
use orbitersdk_cpp.Core.Storage.Linked.{find_block}
use orbitersdk_cpp.Core.Storage.Cache.{view_block, get_block-view}
use orbitersdk_cpp.Tests.Data.{payment, genesis}

abbrev empty_storage : Storage
empty_storage = record {
  chain = [];
  block_by_hash = [];
  tx_by_hash = [];
  block_height_by_hash = [];
  block_hash_by_height = [];
  cached_blocks = [];
  cached_txs = [];
}

abbrev one_block : Storage
one_block = add_block (genesis ∷ []) genesis empty_storage

-- The block of the database
abbrev an_old_block : Block
an_old_block = record genesis { hash = 77; txs = payment ∷ [] }

abbrev db : Db
db = record {
  has_block = λ hash. hash == 77;
  block = λ hash. if hash == 77 then ok an_old_block else err runtime_error;
  has_tx = λ tx. false;
  tx_place = λ tx. err runtime_error;
  block_tx = λ hash index. ok payment;
}

one_block-Reachable : Reachable one_block
unfolding push_back back find_block
one_block-Reachable =
    stepped empty_storage one_block (empty empty_storage refl refl)
      (pushed_back genesis one_block refl (omega arith) refl)

Reachable-IsConsistent_example : IsConsistent one_block
Reachable-IsConsistent_example = Reachable-IsConsistent one_block one_block-Reachable

one_block-IsConsistent : IsConsistent one_block
one_block-IsConsistent = Reachable-IsConsistent one_block one_block-Reachable

get_block-view_example : get_block db 77 one_block ≡ view_block db 77 one_block
get_block-view_example = get_block-view db one_block 77 one_block-IsConsistent
