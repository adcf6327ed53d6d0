-- ===== src/Witnesses/Commands.antt =====
-- Runs of the command line of src/cli.rs and of the static files of src/proxy_server.rs.
use wakezilla.Prelude.{
  leb, if◌then◌else◌, codes, ◌+◌, ◌*◌, ◌≡◌, refl, true, none, some, [], ◌∷◌, ◌++◌,
}
use wakezilla.Wol.{Udp, Host, connected, refused}
use wakezilla.Cli.{SendArgs}
use wakezilla.ProxyServer.Assets.{spa_fallback, not_found, get}
use wakezilla.ProxyServer.Assets.Traversal.{spa_fallback-parent}

abbrev udp : Udp
udp = record { binds = true; sets_broadcast = true; sends = λ _. true }

abbrev host : Host
host = record {
  attempt = λ ip port timeout i. if leb i 1 then refused else connected;
  now = λ interval i. (interval + 700) * i;
}

abbrev args : SendArgs
args = record {
  mac = "00:11:22:AA:BB:CC";
  broadcast = none;
  port = 9;
  count = 2;
  check_ip = some "10.0.0.2";
  check_tcp_port = 22;
  wait_secs = 5;
  interval_ms = 1000;
  connect_timeout_ms = 700;
}

spa_fallback-parent_example :
    spa_fallback
      (λ path. some (1 ∷ []))
      get
      (codes "/assets" ++ b'/' ∷ b'.' ∷ b'.' ∷ codes "/Cargo.toml")
    ≡ not_found
spa_fallback-parent_example =
    spa_fallback-parent (λ path. some (1 ∷ [])) get (codes "/assets") (codes "/Cargo.toml") refl
