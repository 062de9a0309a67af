-- ===== src/Sys/Paths.antt =====
-- `executablePath` in src/system/AbstractSystem.cpp: the folder of the running program. Reading the
-- link "/proc/self/exe" is not part of this repository.
use arch_xplore.Base.{
  ℕ, ◌-◌, [], ◌∷◌, ◌++◌, Bool, true, false, ◌||◌, Text, Option, none, some, All, ◌==◌,
  if◌then◌else◌, Outcome, done, throws, aborted, ◌≡◌, refl,
}

unfoldable pub is_slash : ℕ → Bool
is_slash c = c == 47 || c == 92

-- What stands before the last slash, if there is one: `find_last_of("/\\")` and `substr`.
unfoldable pub before_last_slash : Text → Option Text
before_last_slash [] = none
before_last_slash (c ∷ cs) = elim (before_last_slash cs) [
  | some dir ↦ some (c ∷ dir)
  | none ↦ if is_slash c then some [] else none
]

-- Without a slash the position is `npos`, and the whole path is taken.
unfoldable pub binary_dir : Text → Text
binary_dir path = elim (before_last_slash path) [ some dir ↦ dir | none ↦ path ]

-- `readlink` gets the size of the buffer less one.
unfoldable pub executable_path : (ℕ → Option Text) → Outcome Text
executable_path readlink = elim (readlink (4096 - 1)) [
  | some path ↦ done (binary_dir path)
  | none ↦ throws aborted
]

abbrev pub HasNoSlash : Text → Type 0
HasNoSlash = All (λ c. is_slash c ≡ false)

no_slash : (name : Text) → HasNoSlash name → before_last_slash name ≡ none
unfolding before_last_slash
no_slash [] h = refl
no_slash (c ∷ cs) h = rw (no_slash cs h.1, h.0)

last_slash :
    (dir name : Text) (c : ℕ)
    → is_slash c ≡ true
    → HasNoSlash name
    → before_last_slash (dir ++ (c ∷ name)) ≡ some dir
unfolding before_last_slash
last_slash [] name c s h = rw (no_slash name h, s)
last_slash (d ∷ dir) name c s h = rw (last_slash dir name c s h)

-- If the link can be read, and holds a folder, a slash and a name without one, the result is the
-- folder.
pub executable_path_lem :
    (readlink : ℕ → Option Text) (dir name : Text) (slash : ℕ)
    → is_slash slash ≡ true
    → HasNoSlash name
    → readlink 4095 ≡ some (dir ++ (slash ∷ name))
    → executable_path readlink ≡ done dir
unfolding executable_path binary_dir
executable_path_lem readlink dir name slash s h link =
    rw (link, last_slash dir name slash s h, executable_path, binary_dir)
