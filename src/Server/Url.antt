-- ===== src/Server/Url.antt =====
-- The server's URL, beside the address in the configuration of the generic API server.
use Prim.Native.String.{count}
use text.Mathlib.TextLemmas.{length-append}
use aggregated_apiserver_ope.Prelude.{
  String, ◌+◌, ◌<>◌, ◌≡◌, ◌↔◌, ◌∙◌, inl, inr, refl, ap, true, false, List, Bool-cases, arith,
}
use aggregated_apiserver_ope.Prelude.Text.{contains_text}
use aggregated_apiserver_ope.Discovery.{ServedResource}
use aggregated_apiserver_ope.Configuration.{Net, server_config}
use aggregated_apiserver_ope.Server.{Options, url}

-- What `net.JoinHostPort` promises: brackets round a host that has a colon.
pub record JoinsHostPort (net : Net) : Type 0 where
  pub plain :
      (host port : String)
      → contains_text host ":" ≡ false
      → net.join_host_port host port ≡ host <> (":" <> port)
  pub bracketed :
      (host port : String)
      → contains_text host ":" ≡ true
      → net.join_host_port host port ≡ "[" <> (host <> ("]:" <> port))

bracketed_longer :
    (host port : String)
    → count ("https://" <> ("[" <> (host <> ("]:" <> port))))
      ≡ count ("https://" <> (host <> (":" <> port))) + 2
bracketed_longer host port = omega (
  arith,
  length-append "https://" ("[" <> (host <> ("]:" <> port))),
  length-append "[" (host <> ("]:" <> port)),
  length-append host ("]:" <> port),
  length-append "]:" port,
  length-append "https://" (host <> (":" <> port)),
  length-append host (":" <> port),
  length-append ":" port,
)

-- The URL of a server is the address under which its generic API server is configured exactly if
-- the host name has no colon, so for no literal IPv6 address.
pub url_iff :
    (net : Net)
    → JoinsHostPort net
    → (o : Options) (resources : List ServedResource)
    → (url net o ≡ (server_config net o.hostname o.port resources).loopback_host)
      ↔ (contains_text o.hostname ":" ≡ false)
unfolding url server_config
url_iff net joins o resources = elim (Bool-cases (contains_text o.hostname ":")) [
  | inr e ↦ (λ h. e, λ h. rw (joins.plain o.hostname (net.itoa o.port) e) refl)
  | inl e ↦ (
    λ h.
        let longer : (server_config net o.hostname o.port resources).loopback_host
            ≡ "https://" <> ("[" <> (o.hostname <> ("]:" <> net.itoa o.port))) =
          rw (joins.bracketed o.hostname (net.itoa o.port) e) refl in
        absurd
          (omega (arith, ap count (h ∙ longer), bracketed_longer o.hostname (net.itoa o.port))),
    λ h. absurd (ground (arith, e, h)),
  )
]
