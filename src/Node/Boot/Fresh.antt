-- ===== src/Node/Boot/Fresh.antt =====
-- The first start of a node, with nothing stored.
use blu_gold.Base.{
  ◌≡◌, refl, Bool, true, false, Bool-cases, inl, inr, none, some, [], ◌∷◌, bytes_eq, bytes_eq→eq,
  bytes_eq_refl, ok,
}
use blu_gold.Base.Int.{ℤ}
use blu_gold.Base.Dict.{lookup, insert}
use blu_gold.Crypto.Interface.{Primitives}
use blu_gold.Chain.Params.{Params}
use blu_gold.Chain.Block.{block_hash, genesis, zero_hash}
use blu_gold.Node.Data.{Entry, Node, set_height, stored}
use blu_gold.Node.Tree.{ancestors, path_to_genesis}
use blu_gold.Node.Pool.{rebuild_mempool}
use blu_gold.Node.Switch.{select_tip, best_from, switch_chain, replay, first_chain, commit_chain}
use blu_gold.Node.Insert.{insert_block, insert_fuel, insert_genesis, orphan_count}
use blu_gold.Node.Boot.{empty_node, finish_boot, store_genesis, load_store, boot}

module _ ⦃c : Primitives⦄ where
  abbrev pub genesis_entry : Params → Entry
  genesis_entry p = record { block = genesis p; hash = block_hash (genesis p); work = 0 }

  genesis_path :
      (p : Params) (n : Node)
      → ¬ (block_hash (genesis p) ≡ zero_hash)
      → n.blocks ≡ (block_hash (genesis p), genesis_entry p) ∷ []
      → path_to_genesis (genesis_entry p) n ≡ genesis_entry p ∷ []
  unfolding path_to_genesis ancestors lookup genesis
  genesis_path p n real q = elim (Bool-cases (bytes_eq (block_hash (genesis p)) zero_hash)) [
    | inl nil ↦ absurd (real (bytes_eq→eq (block_hash (genesis p)) zero_hash nil))
    | inr other ↦ rw (q, other) refl
  ]

  -- With nothing stored, and a disk that takes the genesis block, whose hash is not zero: `New`
  -- ends with no error, at the genesis block as the tip, with no accounts.
  pub boot_fresh :
      (p : Params) (peer_sync : Bool) (now : ℤ)
      → ¬ (block_hash (genesis p) ≡ zero_hash)
      → ((boot p peer_sync now true []).0 ≡ ok tt)
        × ((boot p peer_sync now true []).1.tip ≡ some (genesis_entry p))
        × ((boot p peer_sync now true []).1.state ≡ [])
  unfolding boot finish_boot load_store store_genesis empty_node insert_block insert_fuel
      insert_genesis orphan_count lookup insert select_tip best_from switch_chain first_chain replay
      commit_chain rebuild_mempool genesis
  boot_fresh p peer_sync now real =
      rw (bytes_eq_refl (block_hash (genesis p)), genesis_path p loaded real refl)
        (refl, refl, refl)
    where
      loaded : Node
      loaded = record (empty_node p) {
        blocks = (block_hash (genesis p), genesis_entry p) ∷ [];
        chain_heights = set_height 0 (block_hash (genesis p)) (λ h. none);
        booting = false;
        log = stored (genesis p) ∷ [];
      }
