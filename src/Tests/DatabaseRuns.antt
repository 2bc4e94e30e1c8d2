-- ===== src/Tests/DatabaseRuns.antt =====
-- Recording the file's snapshot, and tracking the directory above.
use Prim.Native.Nat.{◌≤◌}
use mathlib.Core.List.{Mem}
use bt_go.Prelude.{
  ◌≡◌, ◌⊎◌, false, true, none, some, [], ◌∷◌, ◌++◌, codes, Error, ok, err, length, All,
}
use bt_go.Models.{Directory}
use bt_go.Database.Like.{like}
use bt_go.Database.Sqlite.{Sqlite, search_directory_for_path}
use bt_go.Database.Consolidation.{create_directory}
use bt_go.Database.Consolidation.Files.{Preserved}
use bt_go.Database.Consolidation.Outcome.{without, new_directory, children}
use bt_go.Database.Consolidation.Placed.{Placed, Empty, create_directory_lem}
use bt_go.Database.Search.{Covers, search_directory_for_path_lem}
use bt_go.Tests.Data.{directory, sources, tracking}

-- The directory /a/b with a file in it.
abbrev below : Sqlite
below = record tracking {
  tables = record tracking.tables {
    directories = record directory { path = codes "/a/b" } ∷ [];
    files =
        record {
          id = codes "f";
          name = codes "x";
          directory_id = directory.id;
          current_snapshot_id = none;
          deleted = false;
        }
        ∷ [];
  };
}

abbrev above : Directory
above = new_directory sources (codes "/a") false below

create_directory_lem_example :
    let res = create_directory sources (codes "/a") false below in
    let gone = children sources (codes "/a") false below in
    ((e : Error) × (res.0 ≡ err e) × (res.1.tables ≡ below.tables))
    ⊎ ((res.0 ≡ ok above)
        × Preserved below.tables res.1.tables
        × (res.1.tables.directories ≡ without gone (below.tables.directories ++ above ∷ []))
        × All (Placed (codes "/a") above gone below.tables.files) res.1.tables.files
        × All (Empty res.1.tables.files) gone)
create_directory_lem_example = create_directory_lem sources (codes "/a") false below

search_directory_for_path_lem_example :
    let absolute = λ (d : Directory). like (codes "/%") d.path in
    ((search_directory_for_path (codes "/a/x") tracking ≡ ok none)
      × All (λ d. absolute d ≡ true → ¬ Covers (codes "/a/x") d) tracking.tables.directories)
    ⊎ ((d : Directory) × (search_directory_for_path (codes "/a/x") tracking ≡ ok (some d))
        × Mem d tracking.tables.directories
        × Covers (codes "/a/x") d
        × All
            (λ e. absolute e ≡ true → Covers (codes "/a/x") e → length d.path ≤ length e.path)
            tracking.tables.directories)
search_directory_for_path_lem_example = search_directory_for_path_lem (codes "/a/x") tracking
