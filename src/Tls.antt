-- ===== src/Tls.antt =====
-- control-plane/src/main.rs: `load_server_tls`, which decides from the configuration whether the gRPC
-- server speaks TLS and whether it asks for client certificates. Reading a file is an argument.
use cria.Prelude.{
  String, ◌≡◌, ◌⊎◌, refl, true, Option, none, some, arith, if◌then◌else◌, Option-cases, inl, inr,
}
use cria.Config.{Config}
use cria.Config.Parse.{Result, ok, err, ◌>>=◌, >>=-eq-ok}

-- `tonic`'s `ServerTlsConfig`, as the code fills it.
pub record ServerTlsConfig : Type 0 where
  pub certificate : String
  pub key : String
  pub client_ca_root : Option String

with_client_ca :
    (String → Result String) → Config → String → String → Result (Option ServerTlsConfig)
with_client_ca read c cert key =
    if c.grpc_tls_require_client_auth
    then elim c.grpc_tls_client_ca [
      | none ↦ err "GRPC_TLS_CLIENT_CA must be set when client auth is required"
      | some path ↦ do
        client_ca ← read path
        ok (some (record { certificate = cert; key = key; client_ca_root = some client_ca }))
    ]
    else ok (some (record { certificate = cert; key = key; client_ca_root = none }))

with_identity :
    (String → Result String) → Config → String → String → Result (Option ServerTlsConfig)
with_identity read c cert_path key_path = do
  cert ← read cert_path
  key ← read key_path
  with_client_ca read c cert key

unfoldable pub load_server_tls : (String → Result String) → Config → Result (Option ServerTlsConfig)
unfolding with_identity with_client_ca
load_server_tls read c = elim c.grpc_tls_cert [
  | none ↦ ok none
  | some cert_path ↦ elim c.grpc_tls_key [
    | none ↦ ok none
    | some key_path ↦ with_identity read c cert_path key_path
  ]
]

-- The client certificates are checked against the file that the configuration names.
pub record IsMutual (read : String → Result String) (c : Config) (t : ServerTlsConfig)
    : Type 0 where
  pub path : String
  pub named : c.grpc_tls_client_ca ≡ some path
  pub root : String
  pub loaded : read path ≡ ok root
  pub checked : t.client_ca_root ≡ some root

client_ca-IsMutual :
    (read : String → Result String) (c : Config) (cert key : String) (o : Option ServerTlsConfig)
    → c.grpc_tls_require_client_auth ≡ true
    → with_client_ca read c cert key ≡ ok o
    → (t : ServerTlsConfig) × (o ≡ some t) × IsMutual read c t
unfolding with_client_ca
client_ca-IsMutual read c cert key o asked h = elim (Option-cases c.grpc_tls_client_ca) [
  | inl unset ↦ absurd (ground (arith, h, asked, unset))
  | inr (path, named) ↦
      let (root, loaded, rest) =
        >>=-eq-ok (read path)
          (λ client_ca.
            ok (some (record { certificate = cert; key = key; client_ca_root = some client_ca })))
          (rw (asked, named, with_client_ca) at h) in
      (
        record { certificate = cert; key = key; client_ca_root = some root },
        ground (arith, rest),
        record { path = path; named = named; root = root; loaded = loaded; checked = refl },
      )
]

-- Where client authentication is required and the settings are accepted, either the server speaks
-- TLS and checks client certificates against the file that the configuration names, or it speaks
-- no TLS at all, which happens where the certificate or the key is not set.
pub load_server_tls-IsMutual :
    (read : String → Result String) (c : Config) (o : Option ServerTlsConfig)
    → c.grpc_tls_require_client_auth ≡ true
    → load_server_tls read c ≡ ok o
    → ((o ≡ none) × ((c.grpc_tls_cert ≡ none) ⊎ (c.grpc_tls_key ≡ none)))
      ⊎ ((t : ServerTlsConfig) × (o ≡ some t) × IsMutual read c t)
unfolding load_server_tls with_identity
load_server_tls-IsMutual read c o asked h = elim (Option-cases c.grpc_tls_cert) [
  | inl unset ↦ inl (ground (arith, h, unset), inl unset)
  | inr (cert_path, cert_set) ↦ elim (Option-cases c.grpc_tls_key) [
    | inl unset ↦ inl (ground (arith, h, cert_set, unset), inr unset)
    | inr (key_path, key_set) ↦
        let (cert, got, h1) =
          >>=-eq-ok (read cert_path)
            (λ cert. read key_path >>= λ key. with_client_ca read c cert key)
            (rw (cert_set, key_set, load_server_tls, with_identity) at h) in
        let (key, got_key, h2) =
          >>=-eq-ok (read key_path) (λ key. with_client_ca read c cert key) h1 in
        inr (client_ca-IsMutual read c cert key o asked h2)
  ]
]
