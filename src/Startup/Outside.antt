-- ===== src/Startup/Outside.antt =====
-- What start-up takes from outside the program: what the handler, the certificates and the listeners
-- take, the file system, and the parser of the configuration. Both give none for an error.
use curf.Common.{Option, Text}
use curf.Config.{Config}
use curf.Proxy.Outside.{World}
use curf.Server.Semaphores.{Semaphore}
use curf.Ssl.Crates.{Tls}

pub record Machine : Type 1 where
  pub world : World
  pub tls : Tls
  pub sem : Semaphore
  pub read_to_string : Text → Option Text
  pub from_str : Text → Option Config
