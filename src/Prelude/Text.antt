-- ===== src/Prelude/Text.antt =====
-- What `String::from_utf8` accepts.
use Prim.Native.Nat.{ℕ, zero, suc}
use mathlib.Core.Bool.{Bool, true, false, ◌&&◌}
use mathlib.Core.Option.{Option, none, some}
use mathlib.Core.List.{List, [], ◌∷◌}
use nanwei_api_rust.Prelude.Tests.{ltb, leb, nat_beq, if◌then◌else◌}

-- After a first byte: how many bytes follow, and the range of the next one.
lead : ℕ → Option (ℕ × ℕ × ℕ)
lead b =
    if leb b 0x7f
    then some (0, 0x80, 0xbf)
    else (if ltb b 0xc2
        then none
        else (if leb b 0xdf
            then some (1, 0x80, 0xbf)
            else (if nat_beq b 0xe0
                then some (2, 0xa0, 0xbf)
                else (if nat_beq b 0xed
                    then some (2, 0x80, 0x9f)
                    else (if leb b 0xef
                        then some (2, 0x80, 0xbf)
                        else (if nat_beq b 0xf0
                            then some (3, 0x90, 0xbf)
                            else (if leb b 0xf3
                                then some (3, 0x80, 0xbf)
                                else (if nat_beq b 0xf4 then some (3, 0x80, 0x8f) else none))))))))

-- The bytes still due, and the range of the next one.
utf8_from : ℕ → ℕ → ℕ → List ℕ → Bool
utf8_from zero lo hi [] = true
utf8_from (suc n) lo hi [] = false
utf8_from zero lo hi (b ∷ bs) = elim (lead b) [ none ↦ false | some (n, l, h) ↦ utf8_from n l h bs ]
utf8_from (suc n) lo hi (b ∷ bs) = leb lo b && leb b hi && utf8_from n 0x80 0xbf bs

unfoldable pub is_utf8 : List ℕ → Bool
unfolding utf8_from lead
is_utf8 bs = utf8_from 0 0x80 0xbf bs
