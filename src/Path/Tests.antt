-- ===== src/Path/Tests.antt =====
-- Runs of the path normaliser.
use ftpii.Base.{◌≡◌, refl, codes}
use ftpii.Path.{normalise}

normalise_mixed : normalise (codes "/a/./b/../c//d/") ≡ codes "/a/c/d"
unfolding normalise
normalise_mixed = refl

normalise_dots : normalise (codes "/../x/.../..y/..") ≡ codes "/x/..."
unfolding normalise
normalise_dots = refl

normalise_to_root : normalise (codes "/a/..") ≡ codes "/"
unfolding normalise
normalise_to_root = refl
