-- ===== src/Spec/Paths/Texts.antt =====
-- The text of a path and the segments that it splits into (src/spec/command_tree.rs).
use Prim.Native.String
use cli_framework.Prelude.{String, ◌≡◌, false, List, ◌++◌, All}
use cli_framework.Prelude.Text.{join, split}
use cli_framework.Prelude.Splitting
use cli_framework.Spec.Paths.{has_slash}

pub split-free : (s : String) → has_slash s ≡ false → split 47 s ≡ List.◌∷◌ s List.[]
split-free = Splitting.split-free "/"

pub split-append :
    (s t : String)
    → has_slash s ≡ false
    → split 47 (String.◌++◌ s (String.◌++◌ "/" t)) ≡ List.◌∷◌ s (split 47 t)
split-append = Splitting.split-append "/"

pub split-join :
    (s : String) (rest : List String)
    → All (λ x. has_slash x ≡ false) (List.◌∷◌ s rest)
    → split 47 (join "/" (List.◌∷◌ s rest)) ≡ List.◌∷◌ s rest
split-join = Splitting.split-join "/"

-- Splitting leaves at least one piece.
pub split-cons : (s : String) → (w : String) × ((ws : List String) × (split 47 s ≡ List.◌∷◌ w ws))
split-cons = Splitting.split-cons "/"

-- Splitting at a slash in the middle.
pub split-both :
    (s t : String) → split 47 (String.◌++◌ s (String.◌++◌ "/" t)) ≡ split 47 s ++ split 47 t
split-both = Splitting.split-both "/"

-- Joining the pieces gives the text back.
pub join-split : (s : String) → join "/" (split 47 s) ≡ s
join-split = Splitting.join-split "/"
