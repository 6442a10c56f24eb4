-- ===== src/Process/Examples.antt =====
-- Runs of crates/ruvoy-envoy-fiber/src/runtime.rs.
use ruvoy.Prelude.{
  ◌≤◌, ◌≡◌, refl, true, false, none, some, List, [], ◌∷◌, Bytes, text, bytes_eq, starts_with_byte,
}
use ruvoy.Std.Utf8.{from_utf8_lossy}
use ruvoy.Std.Trim.{trim}
use ruvoy.Rack.Env.{Result, ok, err}
use ruvoy.Rack.Respond.{Asked, gives, raises}
use ruvoy.Fiber.Client.{Runtime}
use ruvoy.Fiber.Lifecycle.{RuntimeInfo, Starting, finished}
use ruvoy.Process.Config.{RuntimeSettings, Files, new_config, parse_filter, moved, FilterConfig}
use ruvoy.Process.Runtime.{fresh, start, Op, starts, shuts_down, run}
use ruvoy.Process.Terms.{terms, Stay}
use ruvoy.Process.Once.{IsAnswered, starts_once}

abbrev files : Files
files = record { canonicalize = λ path. gives path; is_file = λ path. true; current_dir = none }

abbrev info : RuntimeInfo
info = record {
  ruby_description = text "ruby";
  rust_thread_id = text "ThreadId(2)";
  ruby_thread_object_id = 7;
}

abbrev starting : Starting
starting = record {
  socket_pair = gives tt;
  reader_nonblocking = gives tt;
  writer_nonblocking = gives tt;
  spawned = gives tt;
  readiness = some (ok info);
}

abbrev settings : RuntimeSettings
settings = record {
  rackup = text "/app/config.ru";
  max_inflight_requests = 4;
  shutdown_timeout_ms = 10;
  diagnostics = false;
}

abbrev acknowledged : Runtime → Result (Unit {0})
acknowledged client = ok tt

abbrev first_ops : List Op
first_ops = starts files true starting settings ∷ []

abbrev later_ops : List Op
later_ops =
    starts files true starting (record settings { diagnostics = true })
    ∷ shuts_down acknowledged (finished (ok tt))
    ∷ []

starts_once_example :
    let p = run first_ops fresh in
    let pa = start files true starting settings p in
    (p.starts ≤ 1)
    × Stay (terms p) (terms (run later_ops p))
    × IsAnswered (new_config files settings) pa.0 pa.1
starts_once_example = starts_once first_ops later_ops files true starting settings

abbrev no_json : Bytes → Asked FilterConfig
no_json config = raises (text "unused")

old_configuration : parse_filter no_json (text " /app/config.ru ") ≡ err moved
unfolding parse_filter text bytes_eq from_utf8_lossy trim starts_with_byte
old_configuration = refl
