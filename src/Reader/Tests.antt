-- ===== src/Reader/Tests.antt =====
-- The theorem on the reader (src/osgGIS/SmartReadCallback.cpp) on files that are numbers, and runs.
use osggis.Base.{ℕ, ◌≡◌, refl, Option, none, some, List, [], ◌∷◌, ◌>>=◌, Bytes, bytes_eq, arith}
use osggis.Reader.Defs.{SmartReadCallback, new_reader, read_node_file}
use osggis.Reader.Refines.{IsCache, new_reader-IsCache, read_node_file-read}

-- The file without a name is missing; the node of another is its first byte.
abbrev disk : Bytes → Option ℕ
disk [] = none
disk (b ∷ bs) = some b

-- A reader of a cache of two files.
abbrev start : SmartReadCallback ℕ
start = record {
  mru = [];
  node_map = λ name. none;
  max_cache_size = 2;
  mru_node = none;
  mru_tries = 0;
  mru_hits = 0;
}

start-IsCache : IsCache ℕ disk start 0
unfolding new_reader
start-IsCache = new_reader-IsCache ℕ disk (some 2) 0 (omega arith)

read_node_file-read_example :
    (s : SmartReadCallback ℕ) × (read_node_file ℕ disk 3 (7 ∷ []) start ≡ some (some 7, s))
    × IsCache ℕ disk s 3
    × (s.max_cache_size ≡ 2)
read_node_file-read_example =
    read_node_file-read ℕ disk start 0 3 (7 ∷ []) start-IsCache (omega arith) (omega arith)

-- In a cache of two only the newest of two files stays.
abbrev names : Option (Option ℕ × SmartReadCallback ℕ) → List Bytes
names none = []
names (some (n, s)) = elim s.mru [ [] ↦ [] | m ∷ ms ↦ m.name ∷ [] ]

evict_run :
    names (read_node_file ℕ disk 3 (7 ∷ []) start >>= λ r. read_node_file ℕ disk 4 (8 ∷ []) r.1)
    ≡ (8 ∷ []) ∷ []
unfolding read_node_file bytes_eq
evict_run = refl

-- In a cache of one file the node is freed before it is returned.
freed_run : read_node_file ℕ disk 3 (7 ∷ []) (record start { max_cache_size = 1 }) ≡ none
unfolding read_node_file bytes_eq
freed_run = refl
