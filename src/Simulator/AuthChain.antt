-- ===== src/Simulator/AuthChain.antt =====
-- internal/simulator/auth.go: the chain of authenticators that a configuration asks for, with the
-- constructors of digest.go and jwt.go that it calls.
use onvif_simulator.Prelude.{
  Bool, false, Option, none, some, String, List, [], ◌∷◌, ◌++◌, if◌then◌else◌, str_eq,
}
use onvif_simulator.Prelude.Int.{ℤ, pos, leb_ℤ}
use onvif_simulator.Config.Types.{Config, JwtConfig}
use onvif_simulator.Config.Platform.{Platform}
use onvif_simulator.Auth.UsernameToken.{UsernameTokenAuth, new_username_token_authenticator}

pub record PemBlock (Raw : Type 0) : Type 0 where
  pub type : String
  pub bytes : Raw

-- encoding/pem, crypto/x509 and the library for key sets, and the random secret of a new digest
-- authenticator.
pub record KeyLibrary : Type 1 where
  pub Raw : Type 0
  pub Key : Type 0
  pub KeySet : Type 0
  pub pem_decode : String → Option (PemBlock Raw)
  pub parse_pkcs1_public_key : Raw → Option Key
  pub parse_pkix_public_key : Raw → Option Key
  pub new_key_set : String → Option KeySet
  pub secret : Raw

pub data ChainError : Type 0 where
  auth_jwt_key_material jwt_static_no_pem no_pem_block bad_public_key : ChainError
  jwks_url_required jwks_init jwt_key_func_required : ChainError

pub data Built {ℓ} (A : Type ℓ) : Type ℓ where
  ok : A → Built A
  err : ChainError → Built A

pub record DigestAuth (Raw : Type 0) : Type 0 where
  pub realm : String
  pub algorithms : List String
  pub nonce_ttl : ℤ
  pub nonce_key : Raw

abbrev default_digest_nonce_ttl : ℤ
default_digest_nonce_ttl = pos 300000000000

abbrev default_clock_skew : ℤ
default_clock_skew = pos 30000000000

unfoldable pub text_or : String → String → String
text_or s d = if str_eq s "" then d else s

unfoldable pub texts_or : List String → List String → List String
texts_or [] d = d
texts_or (s ∷ ss) d = s ∷ ss

unfoldable pub duration_or : ℤ → ℤ → ℤ
duration_or t d = if leb_ℤ t (pos 0) then d else t

-- A duration of the configuration: an empty text and one that does not parse leave it zero.
unfoldable pub parsed_duration : Platform → String → ℤ
parsed_duration go s =
    if str_eq s "" then pos 0 else elim (go.parse_duration s) [ none ↦ pos 0 | some d ↦ d ]

module _ (lib : KeyLibrary) where
  unfoldable pub new_digest_authenticator : String → List String → ℤ → DigestAuth lib.Raw
  unfolding text_or texts_or duration_or
  new_digest_authenticator realm algorithms nonce_ttl = record {
    realm = text_or realm "onvif-simulator";
    algorithms = texts_or algorithms ("MD5" ∷ []);
    nonce_ttl = duration_or nonce_ttl default_digest_nonce_ttl;
    nonce_key = lib.secret;
  }

  -- A jwt.Keyfunc: one key of a list by its index, or a set that is kept fresh.
  pub data KeyFunc : Type 0 where
    static : List lib.Key → KeyFunc
    jwks : lib.KeySet → KeyFunc

  unfoldable pub parsed_key : Option lib.Key → Built lib.Key
  parsed_key none = err bad_public_key
  parsed_key (some k) = ok k

  unfoldable pub parse_block : Option (PemBlock lib.Raw) → Built lib.Key
  unfolding parsed_key
  parse_block none = err no_pem_block
  parse_block (some b) =
      if str_eq b.type "RSA PUBLIC KEY"
      then parsed_key (lib.parse_pkcs1_public_key b.bytes)
      else parsed_key (lib.parse_pkix_public_key b.bytes)

  unfoldable pub parse_public_key_pem : String → Built lib.Key
  unfolding parse_block
  parse_public_key_pem raw = parse_block (lib.pem_decode raw)

  unfoldable pub add_key : Built lib.Key → Built (List lib.Key) → Built (List lib.Key)
  add_key (err e) rest = err e
  add_key (ok k) (err e) = err e
  add_key (ok k) (ok ks) = ok (k ∷ ks)

  unfoldable pub parse_keys : List String → Built (List lib.Key)
  unfolding add_key parse_public_key_pem
  parse_keys [] = ok []
  parse_keys (blk ∷ blks) = add_key (parse_public_key_pem blk) (parse_keys blks)

  unfoldable pub static_of : Built (List lib.Key) → Built KeyFunc
  static_of (err e) = err e
  static_of (ok ks) = ok (static ks)

  unfoldable pub new_static_key_func : List String → Built KeyFunc
  unfolding static_of parse_keys
  new_static_key_func [] = err jwt_static_no_pem
  new_static_key_func (blk ∷ blks) = static_of (parse_keys (blk ∷ blks))

  unfoldable pub jwks_of : Option lib.KeySet → Built KeyFunc
  jwks_of none = err jwks_init
  jwks_of (some ks) = ok (jwks ks)

  unfoldable pub new_jwks_key_func : String → Built KeyFunc
  unfolding jwks_of
  new_jwks_key_func url =
      if str_eq url "" then err jwks_url_required else jwks_of (lib.new_key_set url)

  pub record JwtAuth : Type 0 where
    pub issuer : String
    pub audience : String
    pub algorithms : List String
    pub key_func : KeyFunc
    pub clock_skew : ℤ
    pub username_claim : String
    pub roles_claim : String
    pub require_tls : Bool

  -- NewJWTAuthenticator, whose key function is set by the caller below.
  unfoldable pub new_jwt_authenticator : Platform → JwtConfig → KeyFunc → JwtAuth
  unfolding texts_or text_or duration_or parsed_duration
  new_jwt_authenticator go j k = record {
    issuer = j.issuer;
    audience = j.audience;
    algorithms = texts_or j.algorithms ("RS256" ∷ []);
    key_func = k;
    clock_skew = duration_or (parsed_duration go j.clock_skew) default_clock_skew;
    username_claim = text_or j.username_claim "sub";
    roles_claim = text_or j.roles_claim "roles";
    require_tls = elim j.require_tls [ none ↦ false | some b ↦ b ];
  }

  unfoldable pub key_func_for : JwtConfig → Built KeyFunc
  unfolding new_jwks_key_func new_static_key_func
  key_func_for j =
      if str_eq j.jwks_url ""
      then elim j.public_key_pem [
        | [] ↦ err auth_jwt_key_material
        | blk ∷ blks ↦ new_static_key_func (blk ∷ blks)
      ]
      else new_jwks_key_func j.jwks_url

  unfoldable pub jwt_with : Platform → JwtConfig → Built KeyFunc → Built JwtAuth
  unfolding new_jwt_authenticator
  jwt_with go j (err e) = err e
  jwt_with go j (ok k) = ok (new_jwt_authenticator go j k)

  unfoldable pub build_jwt_authenticator : Platform → JwtConfig → Built JwtAuth
  unfolding jwt_with key_func_for
  build_jwt_authenticator go j = jwt_with go j (key_func_for j)

  -- An authenticator of the chain by what it was built from. Digest and UsernameToken ask the one
  -- user store of the simulator.
  pub data Scheme : Type 0 where
    digest : DigestAuth lib.Raw → Scheme
    username_token : UsernameTokenAuth → Scheme
    jwt : JwtAuth → Scheme

  unfoldable pub password_schemes : Platform → Config → List Scheme
  unfolding new_digest_authenticator parsed_duration new_username_token_authenticator
  password_schemes go c =
      digest (
        new_digest_authenticator c.auth.digest.realm c.auth.digest.algorithms
          (parsed_duration go c.auth.digest.nonce_ttl))
      ∷ username_token (
          new_username_token_authenticator
            (record { max_clock_skew = pos 0; nonce_cache = none; allow_password_text = false }))
      ∷ []

  unfoldable pub with_jwt : List Scheme → Built JwtAuth → Built (List Scheme)
  with_jwt schemes (err e) = err e
  with_jwt schemes (ok j) = ok (schemes ++ (jwt j ∷ []))

  -- The chain that rebuildAuthChain puts in place, or the error with which it leaves the old one.
  unfoldable pub build_auth_chain : Platform → Config → Built (List Scheme)
  unfolding password_schemes with_jwt build_jwt_authenticator
  build_auth_chain go c =
      let with_tokens = with_jwt (password_schemes go c) (build_jwt_authenticator go c.auth.jwt) in
      if c.auth.jwt.enabled then with_tokens else ok (password_schemes go c)
