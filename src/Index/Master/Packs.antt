-- ===== src/Index/Master/Packs.antt =====
-- crates/mapache/src/repository/index.rs: `MasterIndex::for_each_pack_id` and `set_autosave`.
use mapache.Prelude.{Bool, List, [], ◌∷◌, ◌++◌, if◌then◌else◌, contains as among, list_eq, nat_eq}
use mapache.Common.{ContentId}
use mapache.Index.State.{Index}
use mapache.Index.Master.{MasterIndex}

-- The inner loop: the IDs that `seen` takes, and `seen` behind them.
abbrev pub unseen : List ContentId → List ContentId → List ContentId × List ContentId
unseen seen [] = ([], seen)
unseen seen (id ∷ ids) =
    let known = among seen id in
    let rest = unseen (if known then seen else id ∷ seen) ids in
    (if known then rest.0 else id ∷ rest.0, rest.1)

module _ {F : Type 0} where
  abbrev pub new_packs : List ContentId → List (Index F) → List ContentId
  new_packs seen [] = []
  new_packs seen (idx ∷ indices) =
      let visited = unseen seen idx.pack_ids.values in visited.0 ++ new_packs visited.1 indices

  -- The IDs in the order `f` is called with them.
  unfoldable pub for_each_pack_id : MasterIndex F → List ContentId
  for_each_pack_id master = new_packs [] master.indices

  abbrev pub set_autosave : MasterIndex F → Bool → MasterIndex F
  set_autosave master auto_save = record {
    indices = master.indices;
    bloom_filter = master.bloom_filter;
    pending_blobs = master.pending_blobs;
    auto_save = auto_save;
  }
