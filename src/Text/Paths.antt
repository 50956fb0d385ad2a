-- ===== src/Text/Paths.antt =====
-- path/filepath on Unix. A clean path is kept as its elements, the innermost first.
use actions.Prelude.{Bool, true, false, ◌||◌, List, [], ◌∷◌, ◌++◌, ◌==◌, if◌then◌else◌}
use actions.Text.{Text, codes, text_eq, has_prefix, join}

pub record FilePath : Type 0 where
  pub rooted : Bool
  pub parts : List Text

-- What stands between slashes; `seen` is the element that has begun.
unfoldable pub elements : Text → Text → List Text
elements seen [] = seen ∷ []
elements seen (c ∷ s) =
    let next = elements [] s in
    let same = elements (seen ++ c ∷ []) s in if c == b'/' then seen ∷ next else same

-- The element ".." on the elements so far.
unfoldable pub go_up : Bool → List Text → List Text
go_up true [] = []
go_up false [] = codes ".." ∷ []
go_up rooted (x ∷ parts) = if text_eq x (codes "..") then codes ".." ∷ x ∷ parts else parts

-- One element of a path that is being cleaned.
unfoldable pub enter : FilePath → Text → FilePath
unfolding go_up
enter p name =
    if text_eq name [] || text_eq name (codes ".")
    then p
    else if text_eq name (codes "..")
    then record p { parts = go_up p.rooted p.parts }
    else record p { parts = name ∷ p.parts }

unfoldable pub enter_all : FilePath → List Text → FilePath
unfolding enter
enter_all p [] = p
enter_all p (name ∷ names) = enter_all (enter p name) names

-- filepath.Clean
unfoldable pub clean_path : Text → FilePath
unfolding enter_all elements
clean_path s = enter_all (record { rooted = has_prefix s (codes "/"); parts = [] }) (elements [] s)

-- filepath.Join of a clean path and an element.
unfoldable pub join_path : FilePath → Text → FilePath
unfolding enter_all elements
join_path p s = enter_all p (elements [] s)

outermost_first : List Text → List Text → List Text
outermost_first seen [] = seen
outermost_first seen (x ∷ parts) = outermost_first (x ∷ seen) parts

-- The text of a clean path.
unfoldable pub path_text : FilePath → Text
unfolding outermost_first
path_text p =
    if p.rooted
    then codes "/" ++ join (outermost_first [] p.parts) (codes "/")
    else if_relative p.parts
  where
    if_relative : List Text → Text
    if_relative [] = codes "."
    if_relative (x ∷ parts) = join (outermost_first [] (x ∷ parts)) (codes "/")

-- filepath.Base of a clean path.
unfoldable pub path_base : FilePath → Text
path_base p = base_of p.rooted p.parts
  where
    base_of : Bool → List Text → Text
    base_of true [] = codes "/"
    base_of false [] = codes "."
    base_of rooted (x ∷ parts) = x
