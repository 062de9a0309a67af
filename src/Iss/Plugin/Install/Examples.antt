-- ===== src/Iss/Plugin/Install/Examples.antt =====
-- A function that splits an option at its commas, for the tests.
use arch_xplore.Base.{
  List, [], ◌∷◌, ◌++◌, Text, ◌==◌, if◌then◌else◌, concat, map, All, ◌≡◌, refl, ap, ◌∙◌, arith,
  append-nil,
}
use arch_xplore.Iss.Plugin.Install.RoundTrip.{join_option, HasNoComma}

-- The piece before the first comma, and those behind it.
abbrev pieces : Text → Text × List Text
pieces [] = ([], [])
pieces (c ∷ cs) =
    if c == b',' then ([], (pieces cs).0 ∷ (pieces cs).1) else (c ∷ (pieces cs).0, (pieces cs).1)

pieces-append :
    (a rest : Text) → HasNoComma a → pieces (a ++ rest) ≡ (a ++ (pieces rest).0, (pieces rest).1)
pieces-append [] rest h = refl
pieces-append (c ∷ cs) rest h = let ih = pieces-append cs rest h.1 in ground (arith, h.0)

pieces-arguments :
    (args : List Text)
    → All HasNoComma args
    → pieces (concat (map (λ a. b',' ∷ a) args)) ≡ ([], args)
pieces-arguments [] h = refl
pieces-arguments (a ∷ args) h =
    let rest = concat (map (λ b. b',' ∷ b) args) in
    let ih = pieces-arguments args h.1 in
    let first : pieces (a ++ rest) ≡ (a, args) =
      pieces-append a rest h.0 ∙ rw ih (ap (λ t. (t, args)) (append-nil a)) in
    ap (λ q. ([], q.0 ∷ q.1)) first

abbrev pub split : Text → List Text
split t = (pieces t).1

pub split_lem :
    (file : Text) (args : List Text)
    → HasNoComma file
    → All HasNoComma args
    → split (join_option file args) ≡ args
split_lem file args f h =
    ap (λ q. q.1) (pieces-append file (concat (map (λ a. b',' ∷ a) args)) f)
    ∙ ap (λ q. q.1) (pieces-arguments args h)
