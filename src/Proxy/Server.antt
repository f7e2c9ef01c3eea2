-- ===== src/Proxy/Server.antt =====
-- `Server` of proxy/proxy.go: its settings, and how it begins to serve.
pub mod Timeouts
use auth_proxy.Prelude.{
  ℕ, ℤ, is_positive, leb_int, times, Bool, true, false, not, ◌==◌, String, Option, none, some,
  if◌then◌else◌,
}
use auth_proxy.Errors.{errorf, foreign, panic, Result, ok, err}
use auth_proxy.Exec.{Exec, pure, throw, lift, attempt, otherwise, ◌>>=◌, ◌>>◌}
use auth_proxy.Env.{Config}

-- `time.Duration(x) * time.Second`, in nanoseconds
unfoldable pub duration : ℤ → ℤ
unfolding times
duration seconds = times seconds 1000000000

-- `Server`, with the timeout of its client of netmaster. Channels, the wait group and the listener
-- belong to `Serve` and `Stop`.
pub record Server : Type 0 where
  pub config : Config
  pub netmaster_timeout : ℤ
  pub use_keepalives : Bool

-- `Init` of a new server, as `NewServer` calls it; `log.Fatalf` ends the program.
unfoldable pub init : Config → Result Server
unfolding is_positive leb_int duration
init c =
    if not (is_positive c.netmaster_request_timeout)
    then err (panic "NetmasterRequestTimeout must be > 0 (got: %d)")
    else if not (is_positive c.client_read_timeout)
    then err (panic "ClientReadTimeout must be > 0 (got: %d)")
    else if not (is_positive c.client_write_timeout)
    then err (panic "ClientWriteTimeout must be > 0 (got: %d)")
    else if leb_int c.client_write_timeout c.netmaster_request_timeout
    then err (panic "ClientWriteTimeout (%d) must be > NetmasterRequestTimeout (%d)")
    else ok (record {
      config = c;
      netmaster_timeout = duration c.netmaster_request_timeout;
      use_keepalives = true;
    })

-- `DisableKeepalives`
unfoldable pub disable_keepalives : Server → Server
disable_keepalives s = record s { use_keepalives = false }

-- The `http.Server` that `Serve` makes.
pub record HttpServer : Type 0 where
  pub read_timeout : ℤ
  pub write_timeout : ℤ
  pub keepalives : Bool

unfoldable pub http_server : Server → HttpServer
unfolding duration
http_server s = record {
  read_timeout = duration s.config.client_read_timeout;
  write_timeout = duration s.config.client_write_timeout;
  keepalives = s.use_keepalives;
}

-- `tls.Config` for listening, with one certificate.
pub record ListenConfig (Certificate : Type 0) : Type 0 where
  pub certificate : Certificate
  pub min_version : ℕ

-- `tls.VersionTLS11`
abbrev pub version_tls11 : ℕ
version_tls11 = 0x302

module _ {W Certificate Listener : Type 0}
    (load_x509_key_pair : String → String → Exec W Certificate)
    (listen : String → ListenConfig Certificate → Exec W Listener) where
  -- `Serve` up to the point where it waits for the message of `Stop`.
  unfoldable pub serve : Server → Exec W (HttpServer × Listener)
  unfolding http_server
  serve s = do
    loaded ← attempt (load_x509_key_pair s.config.tls_certificate s.config.tls_key_file)
    cert ← otherwise loaded (λ e. throw (panic "Failed to load TLS key pair:"))
    listening ← attempt (
        listen s.config.listen_address (record { certificate = cert; min_version = version_tls11 }))
    listener ← otherwise listening (λ e. throw (panic "Failed to listen:"))
    pure (http_server s, listener)

-- `http.FileSystem`, and `IsDir` of what `Stat` tells of a file; without an answer the program panics.
pub record FileSystem (W File : Type 0) : Type 0 where
  pub open_file : String → Exec W File
  pub is_dir : File → Option Bool

-- `Open` of `dirWithoutIndex`
unfoldable pub open_without_index : {W File : Type 0} → FileSystem W File → String → Exec W File
open_without_index fs name = do
  f ← fs.open_file name
  if name == "/" then pure f else elim (fs.is_dir f) [
    | none ↦ throw (panic "runtime error: invalid memory address or nil pointer dereference")
    | some dir ↦ if dir then throw (foreign "file does not exist") else pure f
  ]
