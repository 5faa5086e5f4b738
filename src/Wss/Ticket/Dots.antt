-- ===== src/Wss/Ticket/Dots.antt =====
-- internal/wssbridge/ticket.go: how the parts of a ticket are told apart.
use openrung.Base.{◌≡◌, sym, ap, ◌∙◌, false, [], ◌∷◌, ◌++◌, arith, ◌==◌, All}
use openrung.Base.Bytes.{Bytes}
use openrung.Base.Hex.{hex_digit, hex_encode}
use mathlib.Core.List.{append_assoc, append-nil}
use openrung.Wss.Ticket.{split_dots, join_dots}

-- No byte is a dot.
abbrev pub NoDots : Bytes → Type 0
NoDots w = All (λ c. (c == 46) ≡ false) w

split_dots-word :
    (part w rest : Bytes)
    → NoDots w
    → split_dots part (w ++ (46 ∷ rest)) ≡ (part ++ w) ∷ split_dots [] rest
unfolding split_dots
split_dots-word part [] rest h = ap (λ p. p ∷ split_dots [] rest) (sym (append-nil part))
split_dots-word part (c ∷ w) rest h =
    rw (h.0, split_dots)
      (split_dots-word (part ++ c ∷ []) w rest h.1
        ∙ ap (λ p. p ∷ split_dots [] rest) (append_assoc part (c ∷ []) w))

split_dots-last : (part w : Bytes) → NoDots w → split_dots part w ≡ (part ++ w) ∷ []
unfolding split_dots
split_dots-last part [] h = ap (λ p. p ∷ []) (sym (append-nil part))
split_dots-last part (c ∷ w) h =
    rw (h.0, split_dots)
      (split_dots-last (part ++ c ∷ []) w h.1 ∙ ap (λ p. p ∷ []) (append_assoc part (c ∷ []) w))

pub split_dots-join_dots :
    (a b c d : Bytes)
    → NoDots a
    → NoDots b
    → NoDots c
    → NoDots d
    → split_dots [] (join_dots a b c d) ≡ a ∷ b ∷ c ∷ d ∷ []
unfolding join_dots
split_dots-join_dots a b c d ha hb hc hd =
    split_dots-word [] a (b ++ (46 ∷ (c ++ (46 ∷ d)))) ha
    ∙ ap (λ r. a ∷ r)
        (split_dots-word [] b (c ++ (46 ∷ d)) hb
          ∙ ap (λ r. b ∷ r) (split_dots-word [] c d hc ∙ ap (λ r. c ∷ r) (split_dots-last [] d hd)))

pub hex_encode-NoDots : (s : Bytes) → NoDots (hex_encode s)
unfolding hex_encode hex_digit
hex_encode-NoDots [] = tt
hex_encode-NoDots (b ∷ s) = (ground arith, (ground arith, hex_encode-NoDots s))
