-- ===== src/UnitTests/Tokenizer.antt =====
-- tests/test_tokenizer.cpp, which fails on the stub of src/tokenizer.cpp.
use renzoku.Prelude.{◌≡◌, ◌≢◌, refl}
use renzoku.Text.{bytes}
use renzoku.Tokenizer.{error, new_token, get_type, get_token, next}

-- `next` does not give the first word of the input.
test_next : next ≢ bytes "test_project"
unfolding next bytes
test_next e = cc

-- The type of the first token is ERROR, which the test excludes.
test_get_token : get_type get_token ≡ error
unfolding get_type get_token new_token
test_get_token = refl
