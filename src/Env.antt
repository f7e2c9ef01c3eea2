-- ===== src/Env.antt =====
-- What the program takes from outside: the state of the world, the driver in use, and the packages
-- that are not the program's own.
pub mod Sparing
use auth_proxy.Prelude.{ℕ, ℤ, String, Bool, Option, List}
use auth_proxy.Errors.{Result}
use auth_proxy.Exec.{Exec}
use auth_proxy.Types.{Authorization, LocalUser, LdapConfiguration}
use auth_proxy.Messages.{LoginReq, AddAuthorizationRequest, GetAuthorizationReply, Health}
use auth_proxy.Driver.{StateDriver, Codec}

-- The value of a claim of a token, an `interface{}`.
pub data ClaimValue : Type 0 where
  text : String → ClaimValue
  number : ℕ → ClaimValue
  other : ClaimValue

-- `jwt.MapClaims`
abbrev pub Claims : Type 0
Claims = List (String × ClaimValue)

-- The kinds of netmaster's objects.
pub data Kind : Type 0 where
  app_profile endpoint_group ext_contracts_group netprofile network policy rule service_lb : Kind
  tenant : Kind

-- A header, as Go keeps it: canonical names with their values.
abbrev pub Header : Type 0
Header = List (String × List String)

-- What is used of `url.URL`.
pub record Url : Type 0 where
  pub scheme : String
  pub host : String
  pub path : String

-- `http.Request`: `body` is what reading it returns, `vars` what the router found in the path.
pub record Request : Type 0 where
  pub method : String
  pub url : Url
  pub host : String
  pub request_uri : String
  pub remote_addr : String
  pub header : Header
  pub body : Result String
  pub vars : List (String × String)

-- `http.Response`
pub record Response : Type 0 where
  pub status_code : ℕ
  pub header : Header
  pub body : Result String

-- `proxy.Config`; a timeout is in seconds.
pub record Config : Type 0 where
  pub name : String
  pub version : String
  pub netmaster_address : String
  pub listen_address : String
  pub tls_certificate : String
  pub tls_key_file : String
  pub netmaster_request_timeout : ℤ
  pub client_read_timeout : ℤ
  pub client_write_timeout : ℤ

pub record Env : Type 1 where
  -- the store, the entropy, the clock and everything else that calls can read and change
  pub World : Type 0
  -- the variable `stateDriver` of state/driverfactory.go
  pub state_driver : Option (StateDriver World)
  -- encoding/json
  pub authorization_json : Codec Authorization
  pub local_user_json : Codec LocalUser
  pub ldap_json : Codec LdapConfiguration
  -- `time.Now().Unix()`, `rand.Intn(n)` and `uuid.NewV4().String()`
  pub now : World → ℕ × World
  pub intn : ℕ → World → ℕ × World
  pub new_uuid : World → String × World
  -- `bcrypt.GenerateFromPassword` at the program's cost, and whether `CompareHashAndPassword`
  -- of a hash and a password returns no error
  pub generate_from_password : String → Exec World String
  pub compare_hash_and_password : String → String → Bool
  -- the map `global` of common/utils.go, once it is set up
  pub global : List (String × String)
  -- `ioutil.ReadFile`, `pem.Decode`, the two parsers of private keys, `EncryptOAEP`, `DecryptOAEP`
  -- and the standard base64 encoding
  pub PrivateKey : Type 0
  pub read_file : String → Exec World String
  pub pem_decode : String → Option String
  pub parse_pkcs8 : String → Result PrivateKey
  pub parse_pkcs1 : String → Result PrivateKey
  pub encrypt_oaep : PrivateKey → String → Exec World String
  pub decrypt_oaep : PrivateKey → String → Exec World String
  pub base64_encode : String → String
  pub base64_decode : String → Result String
  -- jwt-go: `SignedString` of a token's claims, and `Parse`, which asks the given function for the
  -- key, telling it whether the token's method is an HMAC, and returns the claims and `Valid`
  pub signed_string : Claims → String → Result String
  pub jwt_parse : String → (Bool → Exec World String) → Exec World (Claims × Bool)
  -- the objects of contivmodel/client: their JSON, singly and in lists, and their tenants' names
  pub Object : Kind → Type 0
  pub object_json : (k : Kind) → Codec (Object k)
  pub objects_json : (k : Kind) → Codec (List (Object k))
  pub tenant_name : (k : Kind) → Object k → String
  -- encoding/json at the messages of requests and responses
  pub login_req_json : Codec LoginReq
  pub add_authorization_json : Codec AddAuthorizationRequest
  pub reply_json : Codec GetAuthorizationReply
  pub replies_json : Codec (List GetAuthorizationReply)
  pub local_users_json : Codec (List LocalUser)
  pub health_json : Codec Health
  pub version_json : Codec String
  pub login_response_json : String → String
  pub error_response_json : String → String
  -- netmaster: `http.Get` of an address, and `Do` of the server's client
  pub http_get : String → Exec World Response
  pub client_do : Request → Exec World Response
  -- the `Version` in the JSON of netmaster's version endpoint
  pub netmaster_version_json : Codec String
