-- ===== src/Index/Cached.antt =====
-- RTreeSpatialIndex::buildIndex with the index that a work directory keeps
-- (src/osgGIS/RTreeSpatialIndex.cpp). A store is seen as its features and its modification time.
use osggis.Base.{ℕ, Bool, true, false, Option, none, some, List, ltb, if◌then◌else◌, ◌>>=◌, Bytes}
use osggis.Index.Boxes.{Boxes}
use osggis.Index.Tree.{RTree, new_tree}
use osggis.Index.Service.{IndexedFeature, RTreeSpatialIndex, build_index}
use osggis.Index.File.{Disk, write_to, read_from}

-- A file that `stat` finds; its content is NULL if it cannot be opened.
pub record CacheFile : Type 0 where
  pub mtime : ℕ
  pub content : Option Bytes

module _ {b : Boxes} {D : Type 0} (k : Disk b D) where
  abbrev pub read_content : Option Bytes → Option (Option (RTree b D × b.Box))
  read_content none = some none
  read_content (some w) = read_from k (new_tree b D) w

  -- The tree and the extent of the file, if it is there, newer than the store and readable.
  unfoldable pub load : Option CacheFile → ℕ → Option (Option (RTree b D × b.Box))
  unfolding read_from
  load none mod_time = some none
  load (some file) mod_time =
      if ltb mod_time file.mtime then read_content file.content else some none

  -- The index, and what is written to the file.
  unfoldable pub save : Bool → RTreeSpatialIndex b D → Option (RTreeSpatialIndex b D × Option Bytes)
  unfolding write_to
  save true index = write_to k index.rtree index.extent >>= λ w. some (index, some w)
  save false index = some (index, none)

  -- With the fuel of insert.
  abbrev pub loaded_or_built :
      ℕ
      → Bool
      → List (IndexedFeature b D)
      → Option (RTree b D × b.Box)
      → Option (RTreeSpatialIndex b D × Option Bytes)
  loaded_or_built fuel cache_index fs (some (t, e)) = some (record { rtree = t; extent = e }, none)
  loaded_or_built fuel cache_index fs none = build_index b D fuel fs >>= save cache_index

  unfoldable pub build_cached :
      ℕ
      → Bool
      → Option CacheFile
      → ℕ
      → List (IndexedFeature b D)
      → Option (RTreeSpatialIndex b D × Option Bytes)
  unfolding load save
  build_cached fuel cache_index file mod_time fs =
      (if cache_index then load file mod_time else some none)
      >>= loaded_or_built fuel cache_index fs
