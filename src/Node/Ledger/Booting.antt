-- ===== src/Node/Ledger/Booting.antt =====
-- The node that `New` returns is on the state of its chain.
use blu_gold.Base.{
  ◌≡◌, refl, sym, ap, ◌∙◌, subst, inl, inr, Bool, true, false, Bool-cases, none, some, List, [],
  ◌∷◌, arith, Bytes, bytes_eq, bytes_eq→eq, bytes_eq_refl, Result, ok, err, ◌==◌, if◌then◌else◌,
}
use blu_gold.Base.Int.{ℤ}
use blu_gold.Base.Dict.{lookup, insert}
use blu_gold.Crypto.Interface.{Primitives}
use blu_gold.Chain.Params.{Params}
use blu_gold.Chain.Tx.{Hash}
use blu_gold.Chain.Block.{Block, block_hash, genesis, zero_hash}
use blu_gold.Node.Data.{Entry, Node, NodeError, stored, emit, unknown_genesis, set_height}
use blu_gold.Node.Insert.{insert_genesis, insert_block, insert_fuel, insert_below, orphan_count}
use blu_gold.Node.Boot.{
  BootError, not_written, empty_node, finish_boot, store_genesis, load_next, load_all, load_store,
  boot,
}
use blu_gold.Node.Ledger.Paths.{Tree, Root}
use blu_gold.Node.Ledger.Follows.{Follows}
use blu_gold.Node.Ledger.Selecting.{select_tip-Follows}
use blu_gold.Node.Ledger.Inserting.{NoZeroHash, insert_block-Follows}

-- The stored blocks begin with one that stands on none.
abbrev pub FromGenesis : List Block → Type 0
FromGenesis [] = Unit {0}
FromGenesis (b ∷ bs) = b.prev_hash ≡ zero_hash

module _ ⦃c : Primitives⦄ where
  -- A result that keeps the node on the state of its chain, where it is not an error.
  abbrev FollowsOk : {E : Type 0} → Result E (Unit {0}) × Node → Type 0
  FollowsOk (ok _, n) = Follows n
  FollowsOk (err e, n) = Unit {0}

  module _ (real : NoZeroHash) where
    only : (k h : Hash) (v e : Entry) → lookup h ((k, v) ∷ []) ≡ some e → (v ≡ e) × (k ≡ h)
    unfolding lookup
    only k h v e q = elim (Bool-cases (bytes_eq k h)) [
      | inl same ↦ (ground (arith, q, same), bytes_eq→eq k h same)
      | inr other ↦ absurd (cc (rw other at q))
    ]

    genesis-Tree :
        (p : Params) (b : Block)
        → b.height ≡ 0
        → b.prev_hash ≡ zero_hash
        → block_hash b ≡ block_hash (genesis p)
        → Tree p ((block_hash b, record { block = b; hash = block_hash b; work = 0 }) ∷ [])
    unfolding lookup
    genesis-Tree p b low root same = record {
      unique = (refl, tt);
      keyed = λ h e q.
          let (is, at) = only (block_hash b) h first e q in
          ap (λ (x : Entry). x.hash) (sym is) ∙ at;
      hashed = λ h e q.
          let (is, at) = only (block_hash b) h first e q in
          ap (λ (x : Entry). block_hash x.block) (sym is) ∙ at;
      shape = λ h e q.
          let (is, at) = only (block_hash b) h first e q in inl (subst Root is (low, root));
      fits = λ h e q.
          let (is, at) = only (block_hash b) h first e q in
          omega (arith, low, ap (λ (x : Entry). x.block.height) is);
      started = (first, rw (sym same, bytes_eq_refl (block_hash b)) refl, (low, root));
      no_zero = elim (Bool-cases (bytes_eq (block_hash b) zero_hash)) [
        | inl nil ↦ absurd (real b (bytes_eq→eq (block_hash b) zero_hash nil))
        | inr other ↦ rw other refl
      ];
    }
      where
        first : Entry
        first = record { block = b; hash = block_hash b; work = 0 }

    first-Follows :
        (now : ℤ) (from_disk announce : Bool) (except_peer : Bytes) (p : Params) (b : Block)
        → b.prev_hash ≡ zero_hash
        → FollowsOk (insert_block now from_disk announce except_peer b (empty_node p))
    unfolding insert_block insert_fuel empty_node lookup orphan_count
    first-Follows now from_disk announce except_peer p b root = by_height (b.height == 0) refl
      where
        by_hash :
            (own : Bool)
            → b.height ≡ 0
            → bytes_eq (block_hash b) (block_hash (genesis p)) ≡ own
            → FollowsOk (
                if own
                then (
                  ok tt,
                  record (empty_node p) {
                    blocks =
                        insert
                          (block_hash b)
                          (record { block = b; hash = block_hash b; work = 0 })
                          [];
                    chain_heights = set_height 0 (block_hash b) (λ h. none);
                  },
                )
                else (err unknown_genesis, empty_node p))
        by_hash false low q = tt
        by_hash true low q =
            unfold insert in
            record {
              tree =
                  genesis-Tree p b low root (bytes_eq→eq (block_hash b) (block_hash (genesis p)) q);
              marks_right = λ h s k. absurd (cc (k));
              current = λ t is. absurd (cc (is));
            }

        by_height :
            (low : Bool)
            → (b.height == 0) ≡ low
            → FollowsOk (
                if low
                then insert_genesis b (empty_node p)
                else insert_below
                    (insert_fuel 0 now false true [])
                    now
                    from_disk
                    announce
                    except_peer
                    b
                    (empty_node p)
                    none)
        by_height true q = unfold insert_genesis in by_hash _ (ground (arith, q)) refl
        by_height false q = unfold insert_below in tt

    load_all-Follows :
        (now : ℤ) (bs : List Block) (n : Node) → Follows n → FollowsOk (load_all now bs n)
    unfolding load_all
    load_all-Follows now [] n f = f
    load_all-Follows now (b ∷ bs) n f =
        next (insert_block now true false [] b n)
          (insert_block-Follows real now true false [] b n f) (λ m g. load_all-Follows now bs m g)
      where
        next :
            (q : Result NodeError (Unit {0}) × Node)
            → Follows q.1
            → ((m : Node) → Follows m → FollowsOk (load_all now bs m))
            → FollowsOk (load_next (load_all now bs) q)
        next (err e, m) g k = unfold load_next in tt
        next (ok u, m) g k = unfold load_next in k m g

    load_next-Follows :
        (now : ℤ) (bs : List Block) (q : Result NodeError (Unit {0}) × Node)
        → FollowsOk q
        → FollowsOk (load_next (load_all now bs) q)
    unfolding load_next
    load_next-Follows now bs (err e, m) f = tt
    load_next-Follows now bs (ok u, m) f = load_all-Follows now bs m f

    load_store-Follows :
        (now : ℤ) (written : Bool) (blocks : List Block) (p : Params)
        → FromGenesis blocks
        → FollowsOk (load_store now written blocks (empty_node p))
    unfolding load_store load_all empty_node
    load_store-Follows now written [] p from =
        stored_genesis (insert_block now false false [] (genesis p) (empty_node p))
          (first-Follows now false false [] p (genesis p) (unfold genesis in refl))
      where
        stored_genesis :
            (q : Result NodeError (Unit {0}) × Node)
            → FollowsOk q
            → FollowsOk (store_genesis written (genesis p) q)
        stored_genesis (err e, m) f = unfold store_genesis in tt
        stored_genesis (ok u, m) f = unfold store_genesis in either_way written
          where
            either_way :
                (w : Bool)
                → FollowsOk
                    (if w then (ok tt, emit (stored (genesis p)) m) else (err not_written, m))
            either_way true = f
            either_way false = tt
    load_store-Follows now written (b ∷ bs) p from =
        load_next-Follows now bs _ (first-Follows now true false [] p b from)

    -- `New`
    pub boot-Follows :
        (p : Params) (peer_sync : Bool) (now : ℤ) (written : Bool) (blocks : List Block) (n : Node)
        → FromGenesis blocks
        → boot p peer_sync now written blocks ≡ (ok tt, n)
        → Follows n
    unfolding boot finish_boot
    boot-Follows p peer_sync now written blocks n from q =
        done (load_store now written blocks (empty_node p))
          (load_store-Follows now written blocks p from) q
      where
        done :
            (r : Result BootError (Unit {0}) × Node)
            → FollowsOk r
            → finish_boot peer_sync r ≡ (ok tt, n)
            → Follows n
        done (err e, m) g is = absurd (cc (is))
        done (ok u, m) g is =
            subst Follows (ap (λ (r : Result BootError (Unit {0}) × Node). r.1) is)
              (select_tip-Follows (record m { booting = false }) g)
