-- ===== src/Log/Tests.antt =====
-- A message of the logger.
use renzoku.Prelude.{◌≡◌, some, [], arith}
use renzoku.Text.{bytes, c_str}
use renzoku.World.{Clock, stdout_logger}
use renzoku.Log.{warning, create_message, final_format}
use renzoku.Log.Message.{create_message-PrintsAs, plain_PrintsAs}

abbrev midnight : Clock
midnight = record { tm_year = 114; tm_mon = 0; tm_mday = 1; tm_hour = 0; tm_min = 0; tm_sec = 0 }

create_message-PrintsAs_example :
    create_message stdout_logger midnight warning (bytes "Hi") []
    ≡ some (final_format stdout_logger midnight warning (bytes "Hi"))
unfolding bytes c_str
create_message-PrintsAs_example =
    create_message-PrintsAs stdout_logger midnight warning (bytes "Hi") (bytes "Hi") []
      (plain_PrintsAs (bytes "Hi") (omega arith))
