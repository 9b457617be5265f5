-- ===== src/Grep/Tests.antt =====
-- Runs of the matcher of lab5/xv6-thread/user/grep.c.
use ecnu_oslab.Base.{◌≡◌, ◌↔◌, refl, true, false, [], ◌∷◌}
use ecnu_oslab.Grep.{match, matchhere, anywhere, star, dot, dollar, caret}
use ecnu_oslab.Grep.Denotes.{Here, Found, matchhere-Here_iff, match-Found_iff}

-- "a*b" against "aab".
matchhere-Here_iff_example :
    (matchhere (97 ∷ star ∷ 98 ∷ []) (97 ∷ 97 ∷ 98 ∷ []) ≡ true)
    ↔ Here (97 ∷ star ∷ 98 ∷ []) (97 ∷ 97 ∷ 98 ∷ [])
matchhere-Here_iff_example = matchhere-Here_iff (97 ∷ star ∷ 98 ∷ []) (97 ∷ 97 ∷ 98 ∷ [])

-- "b.$" against "abc".
match-Found_iff_example :
    (match (98 ∷ dot ∷ dollar ∷ []) (97 ∷ 98 ∷ 99 ∷ []) ≡ true)
    ↔ Found (98 ∷ dot ∷ dollar ∷ []) (97 ∷ 98 ∷ 99 ∷ [])
match-Found_iff_example = match-Found_iff (98 ∷ dot ∷ dollar ∷ []) (97 ∷ 98 ∷ 99 ∷ [])

match_run : match (98 ∷ dot ∷ dollar ∷ []) (97 ∷ 98 ∷ 99 ∷ []) ≡ true
unfolding match anywhere matchhere
match_run = refl

caret_run : match (caret ∷ 98 ∷ []) (97 ∷ 98 ∷ []) ≡ false
unfolding match matchhere
caret_run = refl
