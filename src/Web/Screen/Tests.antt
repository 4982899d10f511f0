-- ===== src/Web/Screen/Tests.antt =====
-- A search that fails, on a server whose emulator is up again later with another image.
use uv_k5_v3_emulator.Common.{◌≡◌, refl, none, some, []}
use uv_k5_v3_emulator.Common.Chars.{chars}
use uv_k5_v3_emulator.Common.Result.{ok, err}
use uv_k5_v3_emulator.Stream
use uv_k5_v3_emulator.Buffers.Discover.{Found, failed, search, discover}
use uv_k5_v3_emulator.Web.{Server, active_client}
use uv_k5_v3_emulator.Web.Screen.{ScreenEnv, discovered, remember, ensure_buffers}
use uv_k5_v3_emulator.Web.Screen.Stable.{ensure_buffers-Stable}

abbrev server : Server
server = record {
  client = some 3;
  supervisor = none;
  pump = Stream.make (some 3) 0 0 4;
  image = none;
  boot_key = none;
  flash = none;
  buffers = none;
}

abbrev broken : ScreenEnv
broken = record {
  files = λ path. none;
  say = λ e. chars "table";
  reads = record { panel_gram = err (chars "closed"); sram = err (chars "closed") };
}

abbrev working : ScreenEnv
working = record {
  files = λ path. none;
  say = λ e. chars "table";
  reads = record { panel_gram = ok []; sram = ok [] };
}

abbrev failure : Found
failure = record {
  frame = none;
  status = none;
  how = failed (chars "closed");
  score = some 0;
  total = some 0;
}

search_fails : (ensure_buffers broken none server).0 ≡ some failure
unfolding ensure_buffers active_client remember discovered discover search
search_fails = refl

abbrev later_server : Server
later_server = record server {
  image = some (record { current = none });
  buffers = (ensure_buffers broken none server).1.buffers;
}

ensure_buffers-Stable_example :
    ensure_buffers working none later_server ≡ (some failure, later_server, [])
ensure_buffers-Stable_example =
    ensure_buffers-Stable broken working none server later_server failure search_fails refl
