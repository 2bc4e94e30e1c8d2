-- ===== src/FilePaths/Tests.antt =====
-- Runs of the path functions.
use bt_go.Prelude.{◌≡◌, refl, codes, text_eq, ok}
use bt_go.FilePaths.{clean, rel, dir, base, ext}

test_clean : clean (codes "/a/./b//../c/") ≡ codes "/a/c"
unfolding clean text_eq
test_clean = refl

test_rel :
    rel (codes "/home/user/docs") (codes "/home/user/docs/sub/file.txt") ≡ ok (codes "sub/file.txt")
unfolding rel text_eq
test_rel = refl

test_rel_up : rel (codes "/a/b") (codes "/a/c/d") ≡ ok (codes "../c/d")
unfolding rel text_eq
test_rel_up = refl

test_dir : dir (codes "/a/b.txt") ≡ codes "/a"
unfolding dir text_eq
test_dir = refl

test_base : base (codes "/a/b.tar.gz/") ≡ codes "b.tar.gz"
unfolding base
test_base = refl

test_ext : ext (codes "b.tar.gz") ≡ codes ".gz"
unfolding ext
test_ext = refl
