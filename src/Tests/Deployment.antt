-- ===== src/Tests/Deployment.antt =====
-- Simple stand-ins for the packages that the program uses, and a store with two users' authorizations.
use auth_proxy.Prelude.{true, false, String, append, List, [], ◌∷◌, some, pos, ◌==◌, if◌then◌else◌}
use auth_proxy.Errors.{errorf, Result, ok, err}
use auth_proxy.Text.{join, split}
use auth_proxy.Types.{Authorization, LocalUser}
use auth_proxy.Driver.{Codec}
use auth_proxy.Env.{Env, Request, Response, Config, text}
use auth_proxy.Auth.Tokens.{Token}
use auth_proxy.Proxy.Exchange.{Exchange}
use auth_proxy.Tests.Store.{Entries, memory}

-- A codec that refuses everything, for types that no example uses.
abbrev refusing : {A : Type 0} → Codec A
refusing = record { marshal = λ a. err (errorf "unused"); unmarshal = λ s. err (errorf "unused") }

authorization_of : List String → Result Authorization
authorization_of (i ∷ u ∷ p ∷ l ∷ k ∷ v ∷ []) = ok (record {
  id = i;
  uuid = u;
  principal_name = p;
  local = l == "local";
  claim_key = k;
  claim_value = v;
})
authorization_of _ = err (errorf "bad authorization")

unfoldable pub authorization_codec : Codec Authorization
unfolding authorization_of
authorization_codec = record {
  marshal = λ a. ok (
      join
        (a.id
          ∷ a.uuid
          ∷ a.principal_name
          ∷ (if a.local then "local" else "")
          ∷ a.claim_key
          ∷ a.claim_value
          ∷ [])
        ";");
  unmarshal = λ s. authorization_of (split s b';');
}

abbrev pub alice : LocalUser
alice = record {
  username = "alice";
  password = "wonderland";
  first_name = "";
  last_name = "";
  disable = false;
  password_hash = "";
}

-- Only `alice` is ever stored.
abbrev pub user_codec : Codec LocalUser
user_codec = record {
  marshal = λ u. ok u.password_hash;
  unmarshal = λ s. ok (record alice { password = ""; password_hash = s });
}

-- The request gets through to netmaster, which answers with a list of two tenants' objects.
abbrev pub response : Response
response = record { status_code = 200; header = ("Etag", "7" ∷ []) ∷ []; body = ok "blue;red" }

abbrev pub deployment : Env
deployment = record {
  World = Entries;
  state_driver = some memory;
  authorization_json = authorization_codec;
  local_user_json = user_codec;
  ldap_json = refusing;
  now = λ w. (1000, w);
  intn = λ n w. (0, w);
  new_uuid = λ w. ("u9", w);
  generate_from_password = λ p w. (ok (append "hash of " p), w);
  compare_hash_and_password = λ h p. h == append "hash of " p;
  global = [];
  PrivateKey = String;
  read_file = λ name w. (ok "key", w);
  pem_decode = λ s. some s;
  parse_pkcs8 = λ s. ok s;
  parse_pkcs1 = λ s. ok s;
  encrypt_oaep = λ key s w. (ok s, w);
  decrypt_oaep = λ key s w. (ok s, w);
  base64_encode = λ s. s;
  base64_decode = λ s. ok s;
  signed_string = λ claims key. ok "token";
  jwt_parse =
      λ token key w. (ok (("username", text token) ∷ ("principals", text token) ∷ [], true), w);
  Object = λ k. String;
  object_json = λ k. record { marshal = λ o. ok o; unmarshal = λ s. ok s };
  objects_json =
      λ k. record { marshal = λ os. ok (join os ";"); unmarshal = λ s. ok (split s b';') };
  tenant_name = λ k o. o;
  login_req_json = refusing;
  add_authorization_json = refusing;
  reply_json = refusing;
  replies_json = refusing;
  local_users_json = refusing;
  health_json = refusing;
  version_json = refusing;
  login_response_json = λ s. s;
  error_response_json = λ s. s;
  http_get = λ address w. (ok response, w);
  client_do = λ req w. (ok response, w);
  netmaster_version_json = refusing;
}

-- `alice` may use the tenant "blue"; "root" is a superuser.
abbrev pub entries : Entries
entries =
    ("auth_proxy/authorizations/u1", "i1;u1;alice;local;tenant:blue;ops")
    ∷ ("auth_proxy/authorizations/u2", "i2;u2;root;;role;admin")
    ∷ ("auth_proxy/authorizations/u3", "i3;u3;admin;local;role;admin")
    ∷ []

-- The authorizations of these entries.
abbrev pub stored_authorizations : List Authorization
stored_authorizations =
    record {
      id = "i1";
      uuid = "u1";
      principal_name = "alice";
      local = true;
      claim_key = "tenant:blue";
      claim_value = "ops";
    }
    ∷ record {
      id = "i2";
      uuid = "u2";
      principal_name = "root";
      local = false;
      claim_key = "role";
      claim_value = "admin";
    }
    ∷ record {
      id = "i3";
      uuid = "u3";
      principal_name = "admin";
      local = true;
      claim_key = "role";
      claim_value = "admin";
    }
    ∷ []

abbrev pub bearer : Token
bearer = record { claims = ("username", text "alice") ∷ ("principals", text "alice") ∷ [] }

-- GET of the networks, with the token of `alice`.
abbrev pub request : Request
request = record {
  method = "GET";
  url = record { scheme = ""; host = ""; path = "/api/v1/networks/" };
  host = "proxy";
  request_uri = "/api/v1/networks/";
  remote_addr = "10.0.0.1";
  header = ("X-Auth-Token", "alice" ∷ []) ∷ [];
  body = ok "";
  vars = ("resource", "networks") ∷ [];
}

abbrev pub config : Config
config = record {
  name = "proxy";
  version = "1";
  netmaster_address = "netmaster";
  listen_address = ":10000";
  tls_certificate = "cert.pem";
  tls_key_file = "local.key";
  netmaster_request_timeout = pos 10;
  client_read_timeout = pos 5;
  client_write_timeout = pos 11;
}

abbrev pub start : Exchange Entries
start = record { world = entries; out = []; sent = [] }
