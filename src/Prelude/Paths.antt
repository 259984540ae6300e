-- ===== src/Prelude/Paths.antt =====
-- Package path/filepath on Unix, over bytes: Base, Clean and Dir.
use sf_processor.Prelude.Tests.{nat_beq, if◌then◌else◌, list_beq, nat_eq}
use sf_processor.Prelude.Text.{Str, str, split, join}
use mathlib.Core.Bool.{Bool, false, not, ◌||◌}
use mathlib.Core.List.{List, [], ◌∷◌, reverse}

abbrev pub is_slash : Str → Bool
is_slash [] = false
is_slash (c ∷ _) = nat_beq c b'/'

-- The last component; of a text in reverse, `acc` holds what was passed.
pub take_name : Str → Str → Str
take_name [] acc = acc
take_name (c ∷ s) acc = let more = take_name s (c ∷ acc) in if nat_beq c b'/' then acc else more

-- Trailing slashes of a text in reverse.
pub drop_slashes : Str → Str
drop_slashes [] = []
drop_slashes (c ∷ s) = let more = drop_slashes s in if nat_beq c b'/' then more else c ∷ s

abbrev or_slash : Str → Str
or_slash [] = b'/' ∷ []
or_slash (c ∷ s) = c ∷ s

-- filepath.Base
unfoldable pub base : Str → Str
unfolding take_name drop_slashes
base [] = b'.' ∷ []
base (c ∷ s) = or_slash (take_name (drop_slashes (reverse (c ∷ s))) [])

-- One component of filepath.Clean; `stack` is the result so far in reverse.
pub clean_step : Bool → List Str → Str → List Str
clean_step rooted stack p =
    if list_beq p [] || list_beq p (str ".")
    then stack
    else if not (list_beq p (str ".."))
    then p ∷ stack
    else go stack
  where
    go : List Str → List Str
    go [] = if rooted then [] else p ∷ []
    go (q ∷ qs) = if list_beq q (str "..") then p ∷ q ∷ qs else qs

pub clean_loop : Bool → List Str → List Str → List Str
clean_loop rooted stack [] = stack
clean_loop rooted stack (p ∷ ps) = clean_loop rooted (clean_step rooted stack p) ps

abbrev or_dot : Str → Str
or_dot [] = b'.' ∷ []
or_dot (c ∷ s) = c ∷ s

-- filepath.Clean
unfoldable pub clean : Str → Str
unfolding clean_step clean_loop split join
clean s =
    let parts = join b'/' (reverse (clean_loop (is_slash s) [] (split b'/' s))) in
    if is_slash s then b'/' ∷ parts else or_dot parts

-- The text in reverse from its last slash on.
pub from_slash : Str → Str
from_slash [] = []
from_slash (c ∷ s) = let more = from_slash s in if nat_beq c b'/' then c ∷ s else more

-- filepath.Dir
unfoldable pub dir : Str → Str
unfolding clean from_slash
dir s = clean (reverse (from_slash (reverse s)))
