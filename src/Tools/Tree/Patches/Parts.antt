-- ===== src/Tools/Tree/Patches/Parts.antt =====
-- What a patch is made of, and what `patch` does with it: one part after another.
use radsat_linux.Base.{
  ◌≡◌, List, [], ◌∷◌, ◌++◌, Option, none, some, Bytes, codes, bytes_eq, if◌then◌else◌,
}
use radsat_linux.Base.Maybe.{◌>>=◌}
use radsat_linux.Tools.Diff.{newfile_diff}
use radsat_linux.Tools.Diff.NewFile.{only_newlines, end_text}
use radsat_linux.Tools.Diff.Patch.{udiff}
use radsat_linux.Tools.Tree.{Tree}

-- a new file, or a file that changes from one text to another
pub data Part : Type 0 where
  created : Bytes → Bytes → Part
  changed : Bytes → Bytes → Bytes → Part

module _ (diff : Bytes → Bytes → Bytes) where
  -- the text of the parts
  unfoldable pub printed : List Part → Option Bytes
  printed [] = some []
  printed (created path text ∷ parts) = do
    rest ← printed parts
    some (newfile_diff path text ++ rest)
  printed (changed path a b ∷ parts) = do
    d ← udiff diff a b path
    rest ← printed parts
    some (d ++ rest)

-- the file at a path; none for none
unfoldable pub file_at : Bytes → Tree → Option Bytes
file_at path t =
    if bytes_eq path (codes "common/Makefile")
    then some t.makefile
    else if bytes_eq path (codes "common/env_mram.c")
    then t.env_mram_c
    else if bytes_eq path (codes "common/fram_mission.c")
    then t.fram_mission_c
    else if bytes_eq path (codes "include/configs/beaglebone-black.h")
    then some t.header
    else if bytes_eq path (codes "include/environment.h")
    then some t.environment_h
    else if bytes_eq path (codes "board/ti/am335x/mux.c")
    then some t.mux
    else if bytes_eq path (codes "board/ti/am335x/board.h")
    then some t.board_h
    else if bytes_eq path (codes "board/ti/am335x/board.c")
    then some t.board_c
    else none

-- the tree with a text at a path
unfoldable pub put : Bytes → Bytes → Tree → Option Tree
put path text t =
    if bytes_eq path (codes "common/Makefile")
    then some (record t { makefile = text })
    else if bytes_eq path (codes "common/env_mram.c")
    then some (record t { env_mram_c = some text })
    else if bytes_eq path (codes "common/fram_mission.c")
    then some (record t { fram_mission_c = some text })
    else if bytes_eq path (codes "include/configs/beaglebone-black.h")
    then some (record t { header = text })
    else if bytes_eq path (codes "include/environment.h")
    then some (record t { environment_h = text })
    else if bytes_eq path (codes "board/ti/am335x/mux.c")
    then some (record t { mux = text })
    else if bytes_eq path (codes "board/ti/am335x/board.h")
    then some (record t { board_h = text })
    else if bytes_eq path (codes "board/ti/am335x/board.c")
    then some (record t { board_c = text })
    else none

-- Nothing is there to be created anew, and a file that changes has the text that it changes from. A new file whose text has
-- no line ends but newlines gets that text, with a newline at its end.
abbrev pub make_new : Bytes → Bytes → Option Bytes → Tree → Option Tree
make_new path text (some there) t = none
make_new path text none t = if only_newlines text then put path (end_text text) t else none

abbrev pub make_changed : Bytes → Bytes → Bytes → Option Bytes → Tree → Option Tree
make_changed path a b none t = none
make_changed path a b (some there) t = if bytes_eq a there then put path b t else none

unfoldable pub make : List Part → Tree → Option Tree
make [] t = some t
make (created path text ∷ parts) t = make_new path text (file_at path t) t >>= make parts
make (changed path a b ∷ parts) t = make_changed path a b (file_at path t) t >>= make parts

-- a run of `patch` on a text of these parts does what they say, wherever they fit
abbrev pub Applies :
    (Bytes → Bytes → Bytes) → (Bytes → Tree → Option Tree) → Bytes → List Part → Tree → Type 0
Applies diff apply head parts t =
    (text : Bytes) (t2 : Tree)
    → printed diff parts ≡ some text
    → make parts t ≡ some t2
    → apply (head ++ text) t ≡ some t2
