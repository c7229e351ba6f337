-- ===== src/Tests/Answers.antt =====
-- Examples of the theorems on tokens, answers and texts.
use nanwei_api_rust.Prelude.{
  ℕ, ◌≡◌, ◌↔◌, refl, true, false, [], ◌∷◌, ◌++◌, some, arith, length, nat_beq, if◌then◌else◌,
  nat_eq,
}
use nanwei_api_rust.Prelude.Map.{get}
use nanwei_api_rust.Prelude.Run.{ok}
use nanwei_api_rust.Prelude.Text.{is_utf8}
use nanwei_api_rust.Quiche.{v4, v6, SocketAddr}
use nanwei_api_rust.Client.{hex_dump}
use nanwei_api_rust.Client.Text.{read_hex, read_hex-hex_dump}
use nanwei_api_rust.Server.Token.{prefix, mint_token, validate_token}
use nanwei_api_rust.Server.Token.RoundTrip.{
  validate_token-mint_token, validate_token_iff, validate_token_across_families,
}
use nanwei_api_rust.Server.Partial.{
  PartialResponse, Partials, reply, handle_all_writable, handle_stream,
}
use nanwei_api_rust.Server.Partial.Fate.{Fate, handle_all_writable-Fate}
use nanwei_api_rust.Server.Partial.Delivery.{remaining, IsPending}
use nanwei_api_rust.Server.Partial.Answers.{handle_stream-delivers}
use nanwei_api_rust.Tests.Model.{Link, link, here, library, sent, sends, header}

abbrev other_port : SocketAddr
other_port = record here { port = 50 }

validate_token-mint_token_example :
    validate_token other_port (mint_token (header []) here) ≡ some (1 ∷ 2 ∷ [])
validate_token-mint_token_example = validate_token-mint_token (header []) here other_port refl

validate_token_iff_example :
    (validate_token here (prefix ++ (127 ∷ 0 ∷ 0 ∷ 1 ∷ 5 ∷ [])) ≡ some (5 ∷ []))
    ↔ (prefix ++ (127 ∷ 0 ∷ 0 ∷ 1 ∷ 5 ∷ []) ≡ prefix ++ (127 ∷ 0 ∷ 0 ∷ 1 ∷ 5 ∷ []))
validate_token_iff_example = validate_token_iff here (prefix ++ (127 ∷ 0 ∷ 0 ∷ 1 ∷ 5 ∷ [])) (5 ∷ [])

validate_token_across_families_example :
    validate_token
      (record { ip = v4 (32 ∷ 1 ∷ 13 ∷ 184 ∷ []); port = 1 })
      (mint_token (header []) (record {
        ip = v6 (32 ∷ 1 ∷ 13 ∷ 184 ∷ 0 ∷ 0 ∷ 0 ∷ 0 ∷ 0 ∷ 0 ∷ 0 ∷ 0 ∷ 0 ∷ 0 ∷ 0 ∷ 1 ∷ []);
        port = 2;
      }))
    ≡ some (0 ∷ 0 ∷ 0 ∷ 0 ∷ 0 ∷ 0 ∷ 0 ∷ 0 ∷ 0 ∷ 0 ∷ 0 ∷ 1 ∷ 1 ∷ 2 ∷ [])
validate_token_across_families_example =
    validate_token_across_families (header []) (32 ∷ 1 ∷ 13 ∷ 184 ∷ [])
      (0 ∷ 0 ∷ 0 ∷ 0 ∷ 0 ∷ 0 ∷ 0 ∷ 0 ∷ 0 ∷ 0 ∷ 0 ∷ 1 ∷ []) 1 2

read_hex-hex_dump_example :
    (length (hex_dump (10 ∷ 255 ∷ [])) ≡ 4) × (read_hex (hex_dump (10 ∷ 255 ∷ [])) ≡ 10 ∷ 255 ∷ [])
read_hex-hex_dump_example = read_hex-hex_dump (10 ∷ 255 ∷ []) (omega arith, (omega arith, tt))

-- Nine bytes of which two have been taken.
abbrev half_sent : PartialResponse
half_sent = record { body = 1 ∷ 2 ∷ 3 ∷ 4 ∷ 5 ∷ 6 ∷ 7 ∷ 8 ∷ 9 ∷ []; written = 2 }

abbrev one_pending : Partials
one_pending = (4, half_sent) ∷ []

one_pending-IsPending : IsPending one_pending
unfolding get
one_pending-IsPending = record { unfinished = λ id r h. ground arith }

handle_all_writable-Fate_example :
    (c' : Link) × (ps' : Partials) × (handle_all_writable library link one_pending (4 ∷ 8 ∷ 4 ∷ [])
      ≡ ok (c', ps'))
    × IsPending ps'
    × ((j : ℕ) → Fate library sent sends link one_pending c' ps' j)
handle_all_writable-Fate_example =
    handle_all_writable-Fate library sent sends link one_pending (4 ∷ 8 ∷ 4 ∷ [])
      one_pending-IsPending

pending_on_four : get 4 one_pending ≡ some half_sent
unfolding get
pending_on_four = refl

nothing_on_eight : remaining one_pending 8 ≡ []
unfolding get
nothing_on_eight = refl

-- The text "{}".
handle_stream-delivers_example :
    (c' : Link) × (ps' : Partials) × (handle_stream library
        (λ b. true)
        true
        false
        link
        one_pending
        8
        (123 ∷ 125 ∷ [])
      ≡ ok (c', ps'))
    × IsPending ps'
    × ((j : ℕ)
        → sent c' j ++ remaining ps' j
          ≡ (sent link j ++ remaining one_pending j)
            ++ (if nat_beq 8 j then reply (123 ∷ 125 ∷ []) else []))
unfolding is_utf8
handle_stream-delivers_example =
    handle_stream-delivers library sent sends (λ b. true) false link one_pending 8 (123 ∷ 125 ∷ [])
      refl refl one_pending-IsPending nothing_on_eight (λ h. ground (arith, h))
