-- ===== src/Grep.antt =====
-- lab5/xv6-thread/user/grep.c: the matcher of regular expressions. Texts and expressions are lists of
-- characters without the 0 at the end; a character is its code.
pub mod Denotes
mod Tests
use ecnu_oslab.Base.{
  ℕ, zero, suc, ◌≡◌, Bool, true, false, ◌&&◌, ◌||◌, not, List, [], ◌∷◌, ◌==◌, if◌then◌else◌,
}

abbrev pub star : ℕ
star = 42

abbrev pub dollar : ℕ
dollar = 36

abbrev pub dot : ℕ
dot = 46

abbrev pub caret : ℕ
caret = 94

-- re[0] == '.' || re[0] == *text
abbrev pub fits : (c t : ℕ) → Bool
fits c t = c == dot || c == t

-- matchstar, `here` being the matcher of the expression behind the star.
pub matchstar : (here : List ℕ → Bool) (c : ℕ) → List ℕ → Bool
matchstar here c [] = here []
matchstar here c (t ∷ ts) = here (t ∷ ts) || (fits c t && matchstar here c ts)

-- The last two lines of matchhere, `here` being the matcher of the expression behind c.
abbrev pub match_char : (here : List ℕ → Bool) (c : ℕ) → List ℕ → Bool
match_char here c [] = false
match_char here c (t ∷ ts) = fits c t && here ts

abbrev pub is_end : List ℕ → Bool
is_end [] = true
is_end (t ∷ ts) = false

pub matchhere : (re text : List ℕ) → Bool
matchhere [] text = true
matchhere (c ∷ []) text = if c == dollar then is_end text else match_char (matchhere []) c text
matchhere (c ∷ d ∷ re) text =
    let starred = matchstar (matchhere re) c text in
    let one = match_char (matchhere (d ∷ re)) c text in if d == star then starred else one

-- The loop of match.
pub anywhere : (re text : List ℕ) → Bool
anywhere re [] = matchhere re []
anywhere re (t ∷ ts) = matchhere re (t ∷ ts) || anywhere re ts

pub match : (re text : List ℕ) → Bool
match [] text = anywhere [] text
match (c ∷ re) text = if c == caret then matchhere re text else anywhere (c ∷ re) text
