-- ===== src/Client/Settings.antt =====
-- What src/client.rs, `run` (lines 25-28), reads of its configuration.
use soulvpn.Base.{ℕ, List, Result, ok, ◌>>=◌}
use soulvpn.Config.{Env, client_private_key, load_server_public_key, parse_cidr, parse_mode}
use soulvpn.Config.Toml.{ClientConfig}

pub record Settings : Type 0 where
  pub private : List ℕ
  pub server_pub : List ℕ
  pub addr : ℕ
  pub prefix : ℕ
  pub control_mode : ℕ

unfoldable pub settings : Env → ClientConfig → Result Settings
settings env cfg = do
  private ← client_private_key env cfg
  server_pub ← load_server_public_key env cfg
  net ← parse_cidr cfg.address
  control_mode ← parse_mode cfg.control_mode
  ok (record {
    private = private;
    server_pub = server_pub;
    addr = net.0;
    prefix = net.1;
    control_mode = control_mode;
  })
