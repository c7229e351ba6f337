-- ===== src/Server/Token/RoundTrip.antt =====
-- What a token says, and who may use it.
use nanwei_api_rust.Prelude.{
  ◌∙◌, ℕ, ◌≡◌, ◌↔◌, ◌∙◌, List, ◌++◌, some, arith, length, take, drop, bytes_eq, bytes_beq_iff,
  bytes_beq_self, take-append-drop, take-append, drop-append, length-append,
}
use mathlib.Core.List.{append_assoc}
use nanwei_api_rust.Quiche.{v4, v6, SocketAddr, Header}
use nanwei_api_rust.Server.Token.{prefix, octets, mint_token, validate_addr, validate_token}

validate_addr-append :
    (src : SocketAddr) (cid : List ℕ) → validate_addr src (octets src.ip ++ cid) ≡ some cid
unfolding validate_addr
validate_addr-append src cid =
    rw (take-append (octets src.ip) cid, drop-append (octets src.ip) cid)
      (ground (arith, length-append (octets src.ip) cid, bytes_beq_self (octets src.ip)))

validate_addr_sound :
    (src : SocketAddr) (token cid : List ℕ)
    → validate_addr src token ≡ some cid
    → token ≡ octets src.ip ++ cid
unfolding validate_addr
validate_addr_sound src token cid h = ground (
  arith,
  take-append-drop (length (octets src.ip)) token,
  bytes_beq_iff (take (length (octets src.ip)) token) (octets src.ip),
)

validate_token-prefix :
    (src : SocketAddr) (rest : List ℕ)
    → validate_token src (prefix ++ rest) ≡ validate_addr src rest
unfolding validate_token
validate_token-prefix src rest = ground arith

validate_token_sound :
    (src : SocketAddr) (token cid : List ℕ)
    → validate_token src token ≡ some cid
    → token ≡ prefix ++ (octets src.ip ++ cid)
unfolding validate_token
validate_token_sound src token cid h = ground (
  arith,
  take-append-drop 6 token,
  bytes_beq_iff (take 6 token) prefix,
  validate_addr_sound src (drop 6 token) cid,
)

-- `validate_token` finds the connection id that `mint_token` put into the token, for every sender
-- with the same address, whatever its port.
pub validate_token-mint_token :
    (hdr : Header) (src from : SocketAddr)
    → from.ip ≡ src.ip
    → validate_token from (mint_token hdr src) ≡ some hdr.dcid
unfolding mint_token
validate_token-mint_token hdr src from e =
    rw (← e) (validate_token-prefix from _ ∙ validate_addr-append from hdr.dcid)

-- A token is accepted with an id exactly when it is the text "quiche", the octets of the sender's
-- address and that id.
pub validate_token_iff :
    (src : SocketAddr) (token cid : List ℕ)
    → (validate_token src token ≡ some cid) ↔ (token ≡ prefix ++ (octets src.ip ++ cid))
validate_token_iff src token cid = (
  validate_token_sound src token cid,
  λ e. rw e (validate_token-prefix src _ ∙ validate_addr-append src cid),
)

-- The two families of addresses are not told apart: a token minted for a sixteen-octet address is
-- accepted from the four-octet address that it begins with, and the rest of the address becomes
-- part of the connection id.
pub validate_token_across_families :
    (hdr : Header) (a b : List ℕ) (p r : ℕ)
    → validate_token
        (record { ip = v4 a; port = p })
        (mint_token hdr (record { ip = v6 (a ++ b); port = r }))
      ≡ some (b ++ hdr.dcid)
unfolding mint_token
validate_token_across_families hdr a b p r =
    validate_token-prefix _ _
    ∙ rw (append_assoc a b hdr.dcid)
        (validate_addr-append (record { ip = v4 a; port = p }) (b ++ hdr.dcid))
