-- ===== src/Sandbox/Path.antt =====
-- The translation between the agent's paths and the paths of the file tools: `to_virtual_path` and
-- `to_sandbox_path` of src/app/sandbox/path.py. `thread_workspace` and `is_memory_path` resolve
-- symbolic links and are not modelled.
use fin_agent_platform.Prelude.{
  ℕ, zero, suc, ◌≡◌, refl, Bool, true, false, not, ◌&&◌, Option, none, some, [], ◌∷◌, ◌++◌, ◌==◌,
  if◌then◌else◌, length, Text, text, text_eq, Bool-cases, inl, inr,
}

abbrev sandbox_root : Text
sandbox_root = text "/workspace"

abbrev slash : ℕ
slash = 47

abbrev virtual_root : Text
virtual_root = slash ∷ []

-- `str.startswith`
abbrev starts_with : Text → Text → Bool
starts_with [] t = true
starts_with (a ∷ p) [] = false
starts_with (a ∷ p) (b ∷ t) = a == b && starts_with p t

abbrev drop : ℕ → Text → Text
drop zero t = t
drop (suc n) [] = []
drop (suc n) (x ∷ t) = drop n t

-- `str.removeprefix`
abbrev remove_prefix : Text → Text → Text
remove_prefix p t = if starts_with p t then drop (length p) t else t

-- `str.lstrip("/")`
unfoldable pub strip_slashes : Text → Text
strip_slashes [] = []
strip_slashes (c ∷ t) = let rest = strip_slashes t in if c == slash then rest else c ∷ t

-- `to_virtual_path`; `none` is its `PathEscapeError`.
unfoldable pub to_virtual_path : Text → Option Text
unfolding strip_slashes text_eq
to_virtual_path p =
    if not (text_eq p sandbox_root) && not (starts_with (sandbox_root ++ slash ∷ []) p)
    then none
    else some (virtual_root ++ strip_slashes (remove_prefix sandbox_root p))

abbrev rooted : Text → Text
rooted [] = sandbox_root
rooted (c ∷ t) = sandbox_root ++ virtual_root ++ c ∷ t

-- `to_sandbox_path`
unfoldable pub to_sandbox_path : Text → Text
unfolding strip_slashes
to_sandbox_path p = rooted (strip_slashes p)

-- What is left has no leading slash.
pub strip_slashes-strip_slashes : (t : Text) → strip_slashes (strip_slashes t) ≡ strip_slashes t
unfolding strip_slashes
strip_slashes-strip_slashes [] = refl
strip_slashes-strip_slashes (c ∷ t) = elim (Bool-cases (c == slash)) [
  | inl e ↦ rw e (strip_slashes-strip_slashes t)
  | inr e ↦ rw e (rw e)
]

to_virtual_path-rooted :
    (t : Text) → strip_slashes t ≡ t → to_virtual_path (rooted t) ≡ some (virtual_root ++ t)
unfolding to_virtual_path strip_slashes text_eq
to_virtual_path-rooted [] h = refl
to_virtual_path-rooted (c ∷ t) h = rw h

-- A path of the file tools, translated for the agent, is accepted on its way back, and comes back
-- as itself with exactly one leading slash.
pub to_virtual_path-to_sandbox_path :
    (p : Text) → to_virtual_path (to_sandbox_path p) ≡ some (virtual_root ++ strip_slashes p)
unfolding to_sandbox_path
to_virtual_path-to_sandbox_path p =
    to_virtual_path-rooted (strip_slashes p) (strip_slashes-strip_slashes p)
