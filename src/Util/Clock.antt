-- ===== src/Util/Clock.antt =====
-- `getCurrentDateTime` of src/util.cpp. `strftime` is a parameter.
use renzoku.Text.{Text, bytes}
use renzoku.World.{Os, Clock, M, ◌>>=◌, pure, system_call}

module _ (os : Os) (strftime : Text → Clock → Text) where
  unfoldable pub get_current_date_time : M os Text
  get_current_date_time = do
    now ← system_call os.time
    pure (strftime (bytes "%Y-%m-%d.%X") (os.localtime now))
