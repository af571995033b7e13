-- ===== src/Common/Directories/Tests.antt =====
-- The directory of a queue.
use newtmq_server.Base.{[], ◌∷◌, ◌++◌, some, codes, ◌≡◌, arith}
use newtmq_server.Common.Directories.{mkdir_recursive}
use newtmq_server.Common.Directories.Prefixes.{path, prefixes, mkdir_recursive-path}

mkdir_recursive-path_example :
    (mkdir_recursive (path (codes "tmp" ∷ codes "newtmq" ∷ []))
      ≡ some (prefixes [] (codes "tmp" ∷ codes "newtmq" ∷ [])))
    × (mkdir_recursive (path (codes "tmp" ∷ codes "newtmq" ∷ []) ++ b'/' ∷ [])
        ≡ some (prefixes [] (codes "tmp" ∷ codes "newtmq" ∷ [])))
mkdir_recursive-path_example =
    mkdir_recursive-path (codes "tmp") (codes "newtmq" ∷ []) (ground arith) (omega arith)
