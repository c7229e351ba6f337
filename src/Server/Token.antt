-- ===== src/Server/Token.antt =====
-- `mint_token` and `validate_token` of src/server.rs.
pub mod RoundTrip
use nanwei_api_rust.Prelude.{
  ℕ, ◌||◌, not, List, [], ◌∷◌, ◌++◌, Option, none, some, length, take, drop, ltb, ◌==◌, bytes_eq,
  if◌then◌else◌,
}
use nanwei_api_rust.Quiche.{IpAddr, v4, v6, SocketAddr, Header}

-- b"quiche"
abbrev pub prefix : List ℕ
prefix = b'q' ∷ b'u' ∷ b'i' ∷ b'c' ∷ b'h' ∷ b'e' ∷ []

abbrev pub octets : IpAddr → List ℕ
octets (v4 a) = a
octets (v6 a) = a

unfoldable pub mint_token : Header → SocketAddr → List ℕ
mint_token hdr src = prefix ++ (octets src.ip ++ hdr.dcid)

-- The part of `validate_token` after its slice `&token[6..]`.
unfoldable pub validate_addr : SocketAddr → List ℕ → Option (List ℕ)
validate_addr src token =
    let addr = octets src.ip in
    if ltb (length token) (length addr) || not (take (length addr) token == addr)
    then none
    else some (drop (length addr) token)

unfoldable pub validate_token : SocketAddr → List ℕ → Option (List ℕ)
validate_token src token =
    if ltb (length token) 6
    then none
    else (if not (take 6 token == prefix) then none else validate_addr src (drop 6 token))
