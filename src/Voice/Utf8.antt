-- ===== src/Voice/Utf8.antt =====
-- Go's strings.ToValidUTF8 with an empty replacement, as service/voiceconversation/turn.go calls it on
-- a delta: the bytes that are valid UTF-8, as code points.
use haruka_ai.Base.{
  ℕ, zero, suc, ◌+◌, ◌*◌, ◌-◌, ◌==◌, ltb, leb, ◌&&◌, ◌≡◌, refl, sym, ap, ◌∙◌, if◌then◌else◌, Bool,
  List, [], ◌∷◌, ◌++◌, Str,
}
use mathlib.Core.List.{append-nil, append_assoc}

-- Between two runes, or within one: the next byte's range, the number of bytes behind it, and the
-- bits so far.
pub data Position : Type 0 where
  between : Position
  within : ℕ → ℕ → ℕ → ℕ → Position

abbrev in_range : ℕ → ℕ → ℕ → Bool
in_range low high b = leb low b && leb b high

-- The ranges of a second byte leave out overlong forms, surrogates and what is beyond U+10FFFF.
unfoldable pub lead : ℕ → Position
lead b =
    if in_range 0xc2 0xdf b
    then within 0x80 0xbf 0 (b - 0xc0)
    else (if b == 0xe0
        then within 0xa0 0xbf 1 0
        else (if b == 0xed
            then within 0x80 0x9f 1 13
            else (if in_range 0xe1 0xef b
                then within 0x80 0xbf 1 (b - 0xe0)
                else (if b == 0xf0
                    then within 0x90 0xbf 2 0
                    else (if in_range 0xf1 0xf3 b
                        then within 0x80 0xbf 2 (b - 0xf0)
                        else (if b == 0xf4 then within 0x80 0x8f 2 4 else between))))))

unfoldable pub start : ℕ → Position × Str
unfolding lead
start b = if ltb b 0x80 then (between, b ∷ []) else (lead b, [])

unfoldable pub follow : ℕ → ℕ → Position × Str
follow zero bits = (between, bits ∷ [])
follow (suc more) bits = (within 0x80 0xbf more bits, [])

-- A byte that does not go on with a rune drops the bytes of it, and starts anew.
unfoldable pub read_byte : Position → ℕ → Position × Str
unfolding start follow
read_byte between b = start b
read_byte (within low high more bits) b =
    if in_range low high b then follow more (bits * 64 + (b - 0x80)) else start b

unfoldable pub decode : Position → List ℕ → Str
unfolding read_byte
decode position [] = []
decode position (b ∷ bytes) = let next = read_byte position b in next.1 ++ decode next.0 bytes

unfoldable pub position_after : Position → List ℕ → Position
unfolding read_byte
position_after position [] = position
position_after position (b ∷ bytes) = position_after (read_byte position b).0 bytes

unfoldable pub to_valid_utf8 : List ℕ → Str
unfolding decode
to_valid_utf8 bytes = decode between bytes

decode-append :
    (position : Position) (a b : List ℕ)
    → decode position (a ++ b) ≡ decode position a ++ decode (position_after position a) b
unfolding decode position_after
decode-append position [] b = refl
decode-append position (x ∷ a) b =
    let next = read_byte position x in
    ap (λ t. next.1 ++ t) (decode-append next.0 a b)
    ∙ sym (append_assoc next.1 (decode next.0 a) (decode (position_after next.0 a) b))

-- The bytes end between two runes.
abbrev pub Whole : List ℕ → Type 0
Whole bytes = position_after between bytes ≡ between

pub to_valid_utf8-append :
    (a b : List ℕ) → Whole a → to_valid_utf8 (a ++ b) ≡ to_valid_utf8 a ++ to_valid_utf8 b
unfolding to_valid_utf8
to_valid_utf8-append a b h = decode-append between a b ∙ ap (λ z. decode between a ++ decode z b) h

-- No delta but the last ends within a rune.
abbrev pub Uncut : List (List ℕ) → Type 0
Uncut [] = Unit
Uncut (d ∷ []) = Unit
Uncut (d ∷ e ∷ ds) = Whole d × Uncut (e ∷ ds)

abbrev pub concat : List (List ℕ) → List ℕ
concat [] = []
concat (s ∷ ss) = s ++ concat ss

-- What each delta has of valid UTF-8, in a row.
abbrev pub valid_text : List (List ℕ) → Str
valid_text [] = []
valid_text (d ∷ ds) = to_valid_utf8 d ++ valid_text ds

pub valid_text-concat : (ds : List (List ℕ)) → Uncut ds → valid_text ds ≡ to_valid_utf8 (concat ds)
valid_text-concat [] h = unfold to_valid_utf8 decode in refl
valid_text-concat (d ∷ []) h = append-nil (to_valid_utf8 d) ∙ ap to_valid_utf8 (sym (append-nil d))
valid_text-concat (d ∷ e ∷ ds) (whole, h) =
    ap (λ t. to_valid_utf8 d ++ t) (valid_text-concat (e ∷ ds) h)
    ∙ sym (to_valid_utf8-append d (concat (e ∷ ds)) whole)
