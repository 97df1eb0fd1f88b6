-- ===== src/UnitTests/Util.antt =====
-- tests/test_util.cpp: the sections `lowercase` and `lowercase_r`.
use renzoku.Prelude.{◌≡◌, refl}
use renzoku.Text.{bytes}
use renzoku.Util.Lowercase.{lowercase, lowercase_r, tolower}

test_lowercase : lowercase (bytes "TeSt H2O") ≡ bytes "test h2o"
unfolding lowercase tolower bytes
test_lowercase = refl

test_lowercase_r : lowercase_r (bytes "TeSt H2O") ≡ bytes "test h2o"
unfolding lowercase_r tolower bytes
test_lowercase_r = refl
