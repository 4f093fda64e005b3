-- ===== src/Lexer/Munch/Compounds.antt =====
-- The operators that `lexPunctuation` reads character by character, one `case` each.
use three.Base.{refl, codes, bytes_eq}
use three.Lexer.Keywords.{find_type}
use three.Lexer.Punctuation.{
  lex_minus, lex_plus, lex_percent, lex_slash, lex_star, lex_equal, lex_less, lex_not, lex_greater,
  lex_and, lex_or, lex_xor,
}
use three.Lexer.Munch.{token-Munches, if_next-Munches, Case}

pub lex_percent-Case : Case (codes "%") lex_percent
unfolding lex_percent find_type bytes_eq
lex_percent-Case ts l y =
    if_next-Munches (codes "%") b'=' _ _ ts l
      (λ us l' y'. token-Munches _ (codes "%=") us l' refl tt y')
      (λ l' f y'. token-Munches _ (codes "%") ts l' refl (f, tt) y') y

pub lex_plus-Case : Case (codes "+") lex_plus
unfolding lex_plus find_type bytes_eq
lex_plus-Case ts l y =
    if_next-Munches (codes "+") b'+' _ _ ts l
      (λ us1 l1 y1. token-Munches _ (codes "++") us1 l1 refl tt y1)
      (λ k1 f1 z1.
        if_next-Munches (codes "+") b'=' _ _ ts k1
          (λ us2 l2 y2. token-Munches _ (codes "+=") us2 l2 refl tt y2)
          (λ k2 f2 z2. token-Munches _ (codes "+") ts k2 refl (f1, (f2, tt)) z2) z1)
      y

pub lex_minus-Case : Case (codes "-") lex_minus
unfolding lex_minus find_type bytes_eq
lex_minus-Case ts l y =
    if_next-Munches (codes "-") b'-' _ _ ts l
      (λ us1 l1 y1. token-Munches _ (codes "--") us1 l1 refl tt y1)
      (λ k1 f1 z1.
        if_next-Munches (codes "-") b'=' _ _ ts k1
          (λ us2 l2 y2. token-Munches _ (codes "-=") us2 l2 refl tt y2)
          (λ k2 f2 z2.
            if_next-Munches (codes "-") b'>' _ _ ts k2
              (λ us3 l3 y3. token-Munches _ (codes "->") us3 l3 refl tt y3)
              (λ k3 f3 z3. token-Munches _ (codes "-") ts k3 refl (f1, (f2, (f3, tt))) z3) z2)
          z1)
      y

pub lex_slash-Case : Case (codes "/") lex_slash
unfolding lex_slash find_type bytes_eq
lex_slash-Case ts l y =
    if_next-Munches (codes "/") b'=' _ _ ts l
      (λ us1 l1 y1. token-Munches _ (codes "/=") us1 l1 refl tt y1)
      (λ k1 f1 z1. token-Munches _ (codes "/") ts k1 refl (f1, tt) z1) y

pub lex_star-Case : Case (codes "*") lex_star
unfolding lex_star find_type bytes_eq
lex_star-Case ts l y =
    if_next-Munches (codes "*") b'=' _ _ ts l
      (λ us1 l1 y1. token-Munches _ (codes "*=") us1 l1 refl tt y1)
      (λ k1 f1 z1. token-Munches _ (codes "*") ts k1 refl (f1, tt) z1) y

pub lex_equal-Case : Case (codes "=") lex_equal
unfolding lex_equal find_type bytes_eq
lex_equal-Case ts l y =
    if_next-Munches (codes "=") b'=' _ _ ts l
      (λ us1 l1 y1.
        if_next-Munches (codes "==") b'=' _ _ us1 l1
          (λ us11 l11 y11. token-Munches _ (codes "===") us11 l11 refl tt y11)
          (λ k11 f11 z11. token-Munches _ (codes "==") us1 k11 refl (f11, tt) z11) y1)
      (λ k1 f1 z1. token-Munches _ (codes "=") ts k1 refl (f1, tt) z1) y

pub lex_less-Case : Case (codes "<") lex_less
unfolding lex_less find_type bytes_eq
lex_less-Case ts l y =
    if_next-Munches (codes "<") b'=' _ _ ts l
      (λ us1 l1 y1.
        if_next-Munches (codes "<=") b'>' _ _ us1 l1
          (λ us11 l11 y11. token-Munches _ (codes "<=>") us11 l11 refl tt y11)
          (λ k11 f11 z11. token-Munches _ (codes "<=") us1 k11 refl (f11, tt) z11) y1)
      (λ k1 f1 z1.
        if_next-Munches (codes "<") b'<' _ _ ts k1
          (λ us2 l2 y2.
            if_next-Munches (codes "<<") b'=' _ _ us2 l2
              (λ us12 l12 y12. token-Munches _ (codes "<<=") us12 l12 refl tt y12)
              (λ k12 f12 z12. token-Munches _ (codes "<<") us2 k12 refl (f12, tt) z12) y2)
          (λ k2 f2 z2. token-Munches _ (codes "<") ts k2 refl (f1, (f2, tt)) z2) z1)
      y

pub lex_not-Case : Case (codes "!") lex_not
unfolding lex_not find_type bytes_eq
lex_not-Case ts l y =
    if_next-Munches (codes "!") b'=' _ _ ts l
      (λ us1 l1 y1. token-Munches _ (codes "!=") us1 l1 refl tt y1)
      (λ k1 f1 z1. token-Munches _ (codes "!") ts k1 refl (f1, tt) z1) y

pub lex_greater-Case : Case (codes ">") lex_greater
unfolding lex_greater find_type bytes_eq
lex_greater-Case ts l y =
    if_next-Munches (codes ">") b'=' _ _ ts l
      (λ us1 l1 y1. token-Munches _ (codes ">=") us1 l1 refl tt y1)
      (λ k1 f1 z1.
        if_next-Munches (codes ">") b'>' _ _ ts k1
          (λ us2 l2 y2.
            if_next-Munches (codes ">>") b'=' _ _ us2 l2
              (λ us12 l12 y12. token-Munches _ (codes ">>=") us12 l12 refl tt y12)
              (λ k12 f12 z12. token-Munches _ (codes ">>") us2 k12 refl (f12, tt) z12) y2)
          (λ k2 f2 z2. token-Munches _ (codes ">") ts k2 refl (f1, (f2, tt)) z2) z1)
      y

pub lex_and-Case : Case (codes "&") lex_and
unfolding lex_and find_type bytes_eq
lex_and-Case ts l y =
    if_next-Munches (codes "&") b'&' _ _ ts l
      (λ us1 l1 y1.
        if_next-Munches (codes "&&") b'=' _ _ us1 l1
          (λ us11 l11 y11. token-Munches _ (codes "&&=") us11 l11 refl tt y11)
          (λ k11 f11 z11. token-Munches _ (codes "&&") us1 k11 refl (f11, tt) z11) y1)
      (λ k1 f1 z1.
        if_next-Munches (codes "&") b'=' _ _ ts k1
          (λ us2 l2 y2. token-Munches _ (codes "&=") us2 l2 refl tt y2)
          (λ k2 f2 z2. token-Munches _ (codes "&") ts k2 refl (f1, (f2, tt)) z2) z1)
      y

pub lex_or-Case : Case (codes "|") lex_or
unfolding lex_or find_type bytes_eq
lex_or-Case ts l y =
    if_next-Munches (codes "|") b'|' _ _ ts l
      (λ us1 l1 y1.
        if_next-Munches (codes "||") b'=' _ _ us1 l1
          (λ us11 l11 y11. token-Munches _ (codes "||=") us11 l11 refl tt y11)
          (λ k11 f11 z11. token-Munches _ (codes "||") us1 k11 refl (f11, tt) z11) y1)
      (λ k1 f1 z1.
        if_next-Munches (codes "|") b'=' _ _ ts k1
          (λ us2 l2 y2. token-Munches _ (codes "|=") us2 l2 refl tt y2)
          (λ k2 f2 z2. token-Munches _ (codes "|") ts k2 refl (f1, (f2, tt)) z2) z1)
      y

pub lex_xor-Case : Case (codes "^") lex_xor
unfolding lex_xor find_type bytes_eq
lex_xor-Case ts l y =
    if_next-Munches (codes "^") b'^' _ _ ts l
      (λ us1 l1 y1. token-Munches _ (codes "^^") us1 l1 refl tt y1)
      (λ k1 f1 z1.
        if_next-Munches (codes "^") b'=' _ _ ts k1
          (λ us2 l2 y2. token-Munches _ (codes "^=") us2 l2 refl tt y2)
          (λ k2 f2 z2. token-Munches _ (codes "^") ts k2 refl (f1, (f2, tt)) z2) z1)
      y
