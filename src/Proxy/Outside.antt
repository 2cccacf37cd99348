-- ===== src/Proxy/Outside.antt =====
-- What the handler takes from outside the program: the crates, the file system, the tables of
-- Unicode for `to_lowercase`, and how an address is written.
use curf.Common.{Option, Text}
use curf.Common.Address.{IpAddr}
use curf.Http.{Http}
use curf.RateLimit.Ieee.{Float}
use curf.StaticFiles.Serve.{Files}

pub record World : Type 1 where
  pub float : Float
  pub http : Http
  pub files : Files
  pub decode : Text → Option Text
  pub lower : Text → Text
  pub show_ip : IpAddr → Text
