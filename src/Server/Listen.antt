-- ===== src/Server/Listen.antt =====
-- `listen` of pkg/apiserver/server.go. The secure serving options of apiserver are a parameter.
use aggregated_apiserver_ope.Prelude.{
  ℕ, String, Option, [], ◌==◌, string_eq, if◌then◌else◌, Result, ok, map_err, ◌>>=◌,
}
use aggregated_apiserver_ope.Kube.{Kube}
use aggregated_apiserver_ope.Server.{Options}

-- The fields of `SecureServingOptions` that are set.
pub record SecureServing (Ip : Type 0) : Type 0 where
  pub bind_address : Ip
  pub bind_port : ℕ
  pub cert_file : String
  pub key_file : String
  pub cert_directory : String

-- `net.ParseIP`, which may be nil; `NewSecureServingOptions`, `os.MkdirTemp`,
-- `MaybeDefaultWithSelfSignedCerts`, `ApplyTo`, and what `Serve` answers at once.
pub record Listener (K : Kube) : Type 1 where
  pub Ip : Type 0
  pub Info : Type 0
  pub parse_ip : String → Ip
  pub new_secure_serving : SecureServing Ip
  pub mkdir_temp : String → String → Result K.Err String
  pub self_signed : SecureServing Ip → String → Result K.Err (SecureServing Ip)
  pub apply_to : SecureServing Ip → Result K.Err Info
  pub serve : Info → Option K.Err

module _ (K : Kube) (L : Listener K) where
  open L use {Ip, Info}

  -- The part of `listen` for a server without a certificate.
  unfoldable pub with_certificate : Options → SecureServing Ip → Result K.Err (SecureServing Ip)
  with_certificate o secure =
      if o.tls_cert_file == ""
      then (do
        dir ←
            map_err (K.wrapf "creating cert directory: %w" [])
              (L.mkdir_temp "" "api-aggregator-certs-")
        map_err (K.wrapf "generating self-signed serving certs: %w" [])
            (L.self_signed (record secure { cert_directory = dir }) o.hostname))
      else ok secure

  -- `listen`
  unfoldable pub listen : Options → Result K.Err Info
  unfolding with_certificate
  listen o = do
    secure ← with_certificate o (record L.new_secure_serving {
      bind_address = L.parse_ip o.hostname;
      bind_port = o.port;
      cert_file = o.tls_cert_file;
      key_file = o.tls_key_file;
    })
    map_err (K.wrapf "applying secure serving options: %w" []) (L.apply_to secure)
